-- ===== src/Cli.antt =====
-- cli/src/main.rs: a command's request, its exchange with the daemon, and what is printed.
pub mod Success
pub mod Exchange
mod Examples
use Prim.Native.String.{◌++◌}
use sqlite_daemon.Prelude.{
  ℕ, String, Bool, true, false, List, [], ◌∷◌, map, ℤ, pos, negsuc, show, suc, length, Result, ok,
  err, Io, pure, ◌>>=◌,
}
use sqlite_daemon.Protocol.{Json, Value}
use sqlite_daemon.Server.Words.{to_le_bytes, get_u32_le}

pub data Commands : Type 0 where
  ping : (db : String) → Commands
  exec : (db : String) (sql : List String) → Commands
  prepare_for_maintenance : (db : String) → Commands
  close_database : (db : String) → Commands
  reopen_database : (db : String) → Commands
  shutdown : Commands

-- The client's copy of the protocol: the mode of a transaction is a text, a shutdown has no data, and
-- an error no code.
pub record Statement (J : Json) : Type 0 where
  pub sql : String
  pub params : List (Value J)

pub data Request (J : Json) : Type 0 where
  ping : (db : String) → Request J
  exec_batch : (db : String) (stmts : List (Statement J)) (tx : String) → Request J
  prepare_for_maintenance : (db : String) → Request J
  close_database : (db : String) → Request J
  reopen_database : (db : String) → Request J
  shutdown : Request J

pub data ResponseData : Type 0 where
  ping : (version db_path : String) (rev : ℤ) → ResponseData
  exec_batch : (rev : ℤ) (rows_affected : ℕ) → ResponseData
  prepare_for_maintenance : (checkpointed : Bool) → ResponseData
  close_database : (closed : Bool) → ResponseData
  reopen_database : (reopened : Bool) (rev : ℤ) → ResponseData

pub data Response : Type 0 where
  ok_data : ResponseData → Response
  error_message : String → Response

-- What a client calls: the JSON encoding and its stream. Errors are texts, as the
-- runtime prints them.
pub record Daemon (J : Json) : Type 1 where
  pub World : Type 0
  pub to_vec : Request J → Result String (List ℕ)
  pub from_slice : List ℕ → Result String Response
  pub connect : Io World (Result String (Unit {0}))
  pub write_all : List ℕ → Io World (Result String (Unit {0}))
  pub flush : Io World (Result String (Unit {0}))
  pub read_exact : ℕ → Io World (Result String (List ℕ))

-- `call.await?`
module _ {W A B : Type 0} where
  abbrev pub continue : Result String A → (A → Io W (Result String B)) → Io W (Result String B)
  continue (ok a) next = next a
  continue (err e) next = pure (err e)

  abbrev pub and_then :
      Io W (Result String A) → (A → Io W (Result String B)) → Io W (Result String B)
  and_then call next = do r ← call; continue r next

module _ {J : Json} (D : Daemon J) where
  open D use {World, to_vec, from_slice, connect, write_all, flush, read_exact}

  unfoldable pub send_request : Request J → Io World (Result String Response)
  send_request request = and_then connect λ _. continue (to_vec request) λ json.
      and_then (write_all (to_le_bytes (length json))) λ _. and_then (write_all json) λ _.
        and_then flush λ _. and_then (read_exact 4) λ len_buf.
          and_then (read_exact (get_u32_le len_buf)) λ response_buf. pure (from_slice response_buf)

-- The request of a command.
unfoldable pub request_of : {J : Json} → Commands → Request J
request_of (ping db) = ping db
request_of (exec db sql) = exec_batch db (map (λ s. record { sql = s; params = [] }) sql) "atomic"
request_of (prepare_for_maintenance db) = prepare_for_maintenance db
request_of (close_database db) = close_database db
request_of (reopen_database db) = reopen_database db
request_of shutdown = shutdown

-- What the program prints, and the code that it exits with.
pub record Exit : Type 0 where
  pub stdout : List String
  pub stderr : List String
  pub code : ℕ

abbrev pub success : List String → Exit
success lines = record { stdout = lines; stderr = []; code = 0 }

abbrev pub failure : String → Exit
failure line = record { stdout = []; stderr = line ∷ []; code = 1 }

abbrev show_bool : Bool → String
show_bool true = "true"
show_bool false = "false"

abbrev show_int : ℤ → String
show_int (pos n) = show n
show_int (negsuc n) = "-" ++ show (suc n)

-- The arms of a command's `match response`.
unfoldable pub report : Commands → Response → Exit
report (ping db) (ok_data (ping version db_path rev)) = success (
    "✓ Daemon is running"
    ∷ ("  Database: " ++ db)
    ∷ ("  Version: " ++ version)
    ∷ ("  Path: " ++ db_path)
    ∷ ("  Revision: " ++ show_int rev)
    ∷ [])
report (exec db sql) (ok_data (exec_batch rev rows_affected)) = success (
    ("✓ Executed successfully on database: " ++ db)
    ∷ ("  Rows affected: " ++ show rows_affected)
    ∷ ("  New revision: " ++ show_int rev)
    ∷ [])
report (prepare_for_maintenance db) (ok_data (prepare_for_maintenance checkpointed)) = success (
    ("✓ Database prepared for maintenance: " ++ db)
    ∷ ("  WAL checkpointed: " ++ show_bool checkpointed)
    ∷ [])
report (close_database db) (ok_data (close_database closed)) = success (
    ("✓ Database closed: " ++ db)
    ∷ ("  Closed: " ++ show_bool closed)
    ∷ "  File locks released - safe to replace files"
    ∷ [])
report (reopen_database db) (ok_data (reopen_database reopened rev)) = success (
    ("✓ Database reopened: " ++ db)
    ∷ ("  Reopened: " ++ show_bool reopened)
    ∷ ("  Current revision: " ++ show_int rev)
    ∷ [])
report shutdown response = success ("✓ Daemon shutdown requested" ∷ [])
report command (error_message message) = failure ("✗ Error: " ++ message)
report command (ok_data x) = failure "✗ Unexpected response"

-- What `main` does with the result of `send_request`. An error is returned, and printed by the
-- runtime; a shutdown takes any result for success.
unfoldable pub finish : Commands → Result String Response → Exit
unfolding report
finish command (ok response) = report command response
finish shutdown (err e) = success ("✓ Daemon shutdown requested" ∷ [])
finish command (err e) = failure ("Error: " ++ e)

unfoldable pub main : {J : Json} (D : Daemon J) → Commands → Io D.World Exit
unfolding finish send_request request_of
main D command = do r ← send_request D (request_of command); pure (finish command r)
