-- ===== src/Server/Examples.antt =====
-- The connection handler at concrete streams. The world is what was written and routed, in order.
use mathlib.Core.List.{flatten}
use sqlite_daemon.Prelude.{
  ℕ, String, ◌≡◌, refl, List, [], ◌∷◌, ◌++◌, some, Result, ok, err, ◌==◌, if◌then◌else◌, arith,
}
use sqlite_daemon.Protocol.{Request, Response}
use sqlite_daemon.Protocol.Responses.{ok_shutdown, error}
use sqlite_daemon.Worker.Sqlite.Log.{log_json}
use sqlite_daemon.Server.Words.{to_le_bytes, get_u32_le}
use sqlite_daemon.Server.{Peer, Ending, shut_down, answer, fill, serve, handle_connection}
use sqlite_daemon.Server.Buffer.{reads_of}
use sqlite_daemon.Server.Chunks.{serve_stream, serve-serve_stream}
use sqlite_daemon.Server.Frames.{answer_all, handle_connection-frames, handle_connection_total}

data Done : Type 0 where
  wrote : List ℕ → Done
  routed : Request log_json → Done

-- `p` is a ping, `s` a shutdown, and nothing else is a request.
abbrev parse : List ℕ → Result String (Request log_json)
parse bytes = elim bytes [
  | [] ↦ err "empty"
  | b ∷ rest ↦
      if b == b'p'
      then ok (Request.ping "a.db")
      else if b == b's'
      then ok Request.shutdown
      else err "unknown"
]

abbrev route : Request log_json → Response
route Request.shutdown = ok_shutdown
route _ = error "no database"

-- A peer whose responses are encoded as `json`.
abbrev peer : List ℕ → Peer log_json
peer json = record {
  World = List Done;
  Error = Unit {0};
  from_slice = parse;
  to_vec = λ r. ok json;
  write_all = λ bytes w. (ok tt, w ++ wrote bytes ∷ []);
  flush = λ w. (ok tt, w);
  route_request = λ req w. (route req, w ++ routed req ∷ []);
}

abbrev pong : Peer log_json
pong = peer (b'o' ∷ b'k' ∷ [])

-- A ping and a shutdown, cut in the middle of the first length and of the second message.
abbrev cut_stream : List (List ℕ)
cut_stream = (1 ∷ 0 ∷ []) ∷ (0 ∷ 0 ∷ b'p' ∷ 1 ∷ []) ∷ (0 ∷ 0 ∷ 0 ∷ b's' ∷ []) ∷ []

handle_connection_run : handle_connection pong (reads_of cut_stream) [] ≡ (
  some shut_down,
  routed (Request.ping "a.db")
      ∷ wrote (2 ∷ 0 ∷ 0 ∷ 0 ∷ [])
      ∷ wrote (b'o' ∷ b'k' ∷ [])
      ∷ routed Request.shutdown
      ∷ wrote (2 ∷ 0 ∷ 0 ∷ 0 ∷ [])
      ∷ wrote (b'o' ∷ b'k' ∷ [])
      ∷ [],
)
unfolding handle_connection fill get_u32_le answer to_le_bytes
handle_connection_run = refl

serve-serve_stream_example :
    serve pong 3 [] (reads_of cut_stream) [] ≡ serve_stream pong 3 ([] ++ flatten cut_stream) []
serve-serve_stream_example = serve-serve_stream pong 3 [] cut_stream [] tt

handle_connection-frames_example :
    handle_connection pong (reads_of cut_stream) []
    ≡ answer_all pong ((b'p' ∷ []) ∷ (b's' ∷ []) ∷ []) []
unfolding flatten to_le_bytes
handle_connection-frames_example =
    handle_connection-frames pong ((b'p' ∷ []) ∷ (b's' ∷ []) ∷ []) cut_stream []
      (omega arith, (omega arith, tt)) tt refl

handle_connection_total_example :
    (ending : Ending pong) × ((handle_connection pong (reads_of cut_stream) []).0 ≡ some ending)
handle_connection_total_example = handle_connection_total pong cut_stream [] tt
