-- ===== src/Server.antt =====
-- daemon/src/server.rs: the handler of one connection. A read is an `ok` with the bytes that
-- `read_buf` added, an error, or, at the list's end, the end of the stream.
pub mod Words
pub mod Buffer
pub mod Chunks
pub mod Frames
mod Examples
use Prim.Native.String.{◌++◌ as push_str}
use sqlite_daemon.Prelude.{
  ℕ, zero, suc, ◌+◌, ◌*◌, String, Bool, true, false, List, [], ◌∷◌, ◌++◌, Option, none, some,
  Result, ok, err, Io, pure, ◌>>=◌, ◌>>◌, length, take, drop, leb, ltb, ◌==◌, if◌then◌else◌,
}
use sqlite_daemon.Protocol.{Json, Request, Response}
use sqlite_daemon.Protocol.Responses.{error}
use sqlite_daemon.Server.Words.{to_le_bytes, get_u32_le}

-- 10 MB
abbrev pub max_message_size : ℕ
max_message_size = 10 * 1024 * 1024

-- What a connection calls: the JSON encoding, the write half of its stream, and the router.
pub record Peer (J : Json) : Type 1 where
  pub World : Type 0
  pub Error : Type 0
  -- the error is given by its `Display`
  pub from_slice : List ℕ → Result String (Request J)
  pub to_vec : Response → Result Error (List ℕ)
  pub write_all : List ℕ → Io World (Result Error (Unit {0}))
  pub flush : Io World (Result Error (Unit {0}))
  pub route_request : Request J → Io World Response

-- What one of the two `while` loops that read comes to.
pub data Filled (E : Type 0) : Type 0 where
  ready : (read_buf : List ℕ) → List (Result E (List ℕ)) → Filled E
  ended : (read_buf : List ℕ) → Filled E
  failed : E → Filled E

module _ {E : Type 0} where
  -- `while read_buf.len() < target { … }`
  unfoldable pub fill : ℕ → List ℕ → List (Result E (List ℕ)) → Filled E
  fill target read_buf [] =
      if ltb (length read_buf) target then ended read_buf else ready read_buf []
  fill target read_buf (err e ∷ reads) =
      if ltb (length read_buf) target then failed e else ready read_buf (err e ∷ reads)
  fill target read_buf (ok [] ∷ reads) =
      if ltb (length read_buf) target then ended read_buf else ready read_buf (ok [] ∷ reads)
  fill target read_buf (ok (b ∷ bytes) ∷ reads) =
      let more = fill target (read_buf ++ b ∷ bytes) reads in
      if ltb (length read_buf) target then more else ready read_buf (ok (b ∷ bytes) ∷ reads)

module _ {J : Json} (S : Peer J) where
  open S use {World, Error, from_slice, to_vec, write_all, flush, route_request}

  pub data Ending : Type 0 where
    disconnected : Ending
    disconnected_mid_message : Ending
    message_too_large : Ending
    failed_with : Error → Ending
    shut_down : Ending

  -- `call.await?` in a function that writes
  abbrev pub and_then :
      Io World (Result Error (Unit {0}))
      → Io World (Result Error (Unit {0}))
      → Io World (Result Error (Unit {0}))
  and_then call next = do r ← call; elim r [ ok _ ↦ next | err e ↦ pure (err e) ]

  -- A response that is too large is dropped, and the connection stays open.
  unfoldable pub write_response : Response → Io World (Result Error (Unit {0}))
  write_response response = elim (to_vec response) [
    | err e ↦ pure (err e)
    | ok json ↦
        if ltb max_message_size (length json)
        then pure (ok tt)
        else and_then (write_all (to_le_bytes (length json))) (and_then (write_all json) flush)
  ]

  abbrev pub is_shutdown : Request J → Bool
  is_shutdown Request.shutdown = true
  is_shutdown _ = false

  -- One message: its request is answered. `none` is to go on with the next message.
  unfoldable pub answer : List ℕ → Io World (Option Ending)
  unfolding write_response
  answer message_bytes = elim (from_slice message_bytes) [
    | err e ↦ do
      written ← write_response (error (push_str "Invalid request: " e))
      elim written [ ok _ ↦ pure none | err x ↦ pure (some (failed_with x)) ]
    | ok request ↦ do
      response ← route_request request
      written ← write_response response
      elim written [
        | ok _ ↦ pure (if is_shutdown request then some shut_down else none)
        | err x ↦ pure (some (failed_with x))
      ]
  ]

  abbrev pub at_end : List ℕ → Ending
  at_end [] = disconnected
  at_end (b ∷ read_buf) = disconnected_mid_message

  -- The loop, for at most `fuel` messages; `none` is that the fuel ran out.
  unfoldable pub serve : ℕ → List ℕ → List (Result Error (List ℕ)) → Io World (Option Ending)
  serve zero read_buf reads = pure none
  serve (suc fuel) read_buf reads = elim (fill 4 read_buf reads) [
    | failed e ↦ pure (some (failed_with e))
    | ended buf ↦ pure (some (at_end buf))
    | ready buf reads₁ ↦
        let size = get_u32_le (take 4 buf) in
        if ltb max_message_size size
        then pure (some message_too_large)
        else elim (fill (4 + size) buf reads₁) [
          | failed e ↦ pure (some (failed_with e))
          | ended _ ↦ pure (some disconnected_mid_message)
          | ready buf₂ reads₂ ↦ do
            let body = drop 4 buf₂
            over ← answer (take size body)
            elim over [
              | some ending ↦ pure (some ending)
              | none ↦ serve fuel (drop size body) reads₂
            ]
        ]
  ]

  -- Enough fuel: a message takes at least the four bytes of its length.
  abbrev pub bytes_of : List (Result Error (List ℕ)) → ℕ
  bytes_of [] = 0
  bytes_of (ok bytes ∷ reads) = length bytes + bytes_of reads
  bytes_of (err e ∷ reads) = bytes_of reads

  unfoldable pub handle_connection : List (Result Error (List ℕ)) → Io World (Option Ending)
  unfolding serve
  handle_connection reads = serve (suc (bytes_of reads)) [] reads
