-- ===== src/Wire/Responses.antt =====
-- Responses: what the daemon writes, and what the client reads.
use text.Mathlib.Text.{◌==◌ as str_eq}
use sqlite_daemon.Prelude.{ℕ, String, Option, none, some, ◌≡◌, refl, ℤ, ◌<◌, ◌^◌, if◌then◌else◌}
use sqlite_daemon.Protocol
use sqlite_daemon.Protocol.{Json}
use sqlite_daemon.Cli
use sqlite_daemon.Wire.{
  Tree, bool, number, string, Members, end, member, IsI64, Format, FormatLaws, field, required,
  read_text, read_bool, ◌>>=◌,
}

module _ {J : Json} (F : Format J) where
  open F use {from_i64, from_u64}

  -- The daemon's derives of `Serialize`: the fields of the flattened data follow the status.
  abbrev pub data_members : Protocol.ResponseData → Members J.Number
  data_members (Protocol.ResponseData.ping version db_path rev) =
      member "version" (string version)
        (member "db_path" (string db_path) (member "rev" (number (from_i64 rev)) end))
  data_members (Protocol.ResponseData.exec_batch rev rows_affected) =
      member "rev" (number (from_i64 rev))
        (member "rows_affected" (number (from_u64 rows_affected)) end)
  data_members (Protocol.ResponseData.prepare_for_maintenance checkpointed) =
      member "checkpointed" (bool checkpointed) end
  data_members (Protocol.ResponseData.close_database closed) = member "closed" (bool closed) end
  data_members (Protocol.ResponseData.reopen_database reopened rev) =
      member "reopened" (bool reopened) (member "rev" (number (from_i64 rev)) end)
  data_members Protocol.ResponseData.shutdown = end

  -- `skip_serializing_if = "Option::is_none"`
  abbrev pub code_members : Option String → Members J.Number
  code_members none = end
  code_members (some code) = member "code" (string code) end

  unfoldable pub write_response : Protocol.Response → Members J.Number
  write_response (Protocol.Response.ok x) = member "status" (string "ok") (data_members x)
  write_response (Protocol.Response.error message code) =
      member "status" (string "error") (member "message" (string message) (code_members code))

  -- The client's derives of `Deserialize`: of the untagged data the first variant whose fields are there.
  abbrev pub read_i64 : Tree J.Number → Option ℤ
  read_i64 (number n) = J.as_i64 n
  read_i64 t = none

  abbrev pub read_u64 : Tree J.Number → Option ℕ
  read_u64 (number n) = J.as_u64 n
  read_u64 t = none

  abbrev pub or_else : {A : Type 0} → Option A → Option A → Option A
  or_else (some a) o = some a
  or_else none o = o

  abbrev pub read_ping : Members J.Number → Option Cli.ResponseData
  read_ping m = do
    version ← required (field "version" m) read_text
    db_path ← required (field "db_path" m) read_text
    rev ← required (field "rev" m) read_i64
    some (Cli.ResponseData.ping version db_path rev)

  abbrev pub read_exec : Members J.Number → Option Cli.ResponseData
  read_exec m = do
    rev ← required (field "rev" m) read_i64
    rows_affected ← required (field "rows_affected" m) read_u64
    some (Cli.ResponseData.exec_batch rev rows_affected)

  abbrev pub read_prepare : Members J.Number → Option Cli.ResponseData
  read_prepare m = do
    checkpointed ← required (field "checkpointed" m) read_bool
    some (Cli.ResponseData.prepare_for_maintenance checkpointed)

  abbrev pub read_close : Members J.Number → Option Cli.ResponseData
  read_close m = do
    closed ← required (field "closed" m) read_bool
    some (Cli.ResponseData.close_database closed)

  abbrev pub read_reopen : Members J.Number → Option Cli.ResponseData
  read_reopen m = do
    reopened ← required (field "reopened" m) read_bool
    rev ← required (field "rev" m) read_i64
    some (Cli.ResponseData.reopen_database reopened rev)

  unfoldable pub read_data : Members J.Number → Option Cli.ResponseData
  read_data m =
      or_else (read_ping m)
        (or_else (read_exec m) (or_else (read_prepare m) (or_else (read_close m) (read_reopen m))))

  abbrev pub read_ok : Members J.Number → Option Cli.Response
  read_ok m = do x ← read_data m; some (Cli.Response.ok_data x)

  abbrev pub read_error : Members J.Number → Option Cli.Response
  read_error m = do
    message ← required (field "message" m) read_text
    some (Cli.Response.error_message message)

  abbrev pub read_status : String → Members J.Number → Option Cli.Response
  read_status status m =
      if str_eq status "ok" then read_ok m else if str_eq status "error" then read_error m else none

  unfoldable pub read_response : Members J.Number → Option Cli.Response
  unfolding read_data
  read_response m = do status ← required (field "status" m) read_text; read_status status m

-- What the client is told by a response: an error without its code. It cannot read a shutdown's.
unfoldable pub as_client : Protocol.Response → Option Cli.Response
as_client (Protocol.Response.ok (Protocol.ResponseData.ping version db_path rev)) =
    some (Cli.Response.ok_data (Cli.ResponseData.ping version db_path rev))
as_client (Protocol.Response.ok (Protocol.ResponseData.exec_batch rev rows_affected)) =
    some (Cli.Response.ok_data (Cli.ResponseData.exec_batch rev rows_affected))
as_client (Protocol.Response.ok (Protocol.ResponseData.prepare_for_maintenance checkpointed)) =
    some (Cli.Response.ok_data (Cli.ResponseData.prepare_for_maintenance checkpointed))
as_client (Protocol.Response.ok (Protocol.ResponseData.close_database closed)) =
    some (Cli.Response.ok_data (Cli.ResponseData.close_database closed))
as_client (Protocol.Response.ok (Protocol.ResponseData.reopen_database reopened rev)) =
    some (Cli.Response.ok_data (Cli.ResponseData.reopen_database reopened rev))
as_client (Protocol.Response.ok Protocol.ResponseData.shutdown) = none
as_client (Protocol.Response.error message code) = some (Cli.Response.error_message message)

-- The numbers of a response are an `i64` and a `u64`.
abbrev pub InRange : Protocol.Response → Type 0
InRange (Protocol.Response.ok (Protocol.ResponseData.ping version db_path rev)) = IsI64 rev
InRange (Protocol.Response.ok (Protocol.ResponseData.exec_batch rev rows_affected)) =
    IsI64 rev × (rows_affected < 2 ^ 64)
InRange (Protocol.Response.ok (Protocol.ResponseData.reopen_database reopened rev)) = IsI64 rev
InRange _ = Unit

module _ {J : Json} (F : Format J) (L : FormatLaws F) where
  -- The client reads every response of the daemon but a shutdown's as what it says.
  pub read_response-write_response :
      (r : Protocol.Response) → InRange r → read_response F (write_response F r) ≡ as_client r
  unfolding read_response write_response as_client
  read_response-write_response
        (Protocol.Response.ok (Protocol.ResponseData.ping version db_path rev)) h =
      rw (L.as_i64-from_i64 rev h)
  read_response-write_response (Protocol.Response.ok (Protocol.ResponseData.exec_batch rev rows))
        h =
      rw (L.as_i64-from_i64 rev h.0, L.as_u64-from_u64 rows h.1)
  read_response-write_response
        (Protocol.Response.ok (Protocol.ResponseData.prepare_for_maintenance b)) h =
      refl
  read_response-write_response (Protocol.Response.ok (Protocol.ResponseData.close_database b)) h =
      refl
  read_response-write_response (Protocol.Response.ok (Protocol.ResponseData.reopen_database b rev))
        h =
      rw (L.as_i64-from_i64 rev h)
  read_response-write_response (Protocol.Response.ok Protocol.ResponseData.shutdown) h = refl
  read_response-write_response (Protocol.Response.error message none) h = refl
  read_response-write_response (Protocol.Response.error message (some code)) h = refl
