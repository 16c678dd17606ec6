-- ===== src/Cli/Examples.antt =====
-- The client at concrete commands. A ping is one byte, and so is its answer.
use mathlib.Core.List.{flatten}
use sqlite_daemon.Prelude.{
  ℕ, suc, ◌≡◌, refl, ◌↔◌, String, pos, List, [], ◌∷◌, Result, ok, err, Io, arith, show,
}
use sqlite_daemon.Protocol
use sqlite_daemon.Protocol.Responses.{ok_ping}
use sqlite_daemon.Worker.Sqlite.Log.{log_json}
use sqlite_daemon.Server.Words.{to_le_bytes, get_u32_le}
use sqlite_daemon.Server.{handle_connection}
use sqlite_daemon.Server.Buffer.{reads_of}
use sqlite_daemon.Server.Frames.{frame}
use sqlite_daemon.Cli.{Commands, Request, ResponseData, ok_data, send_request, request_of, main}
use sqlite_daemon.Cli.Success.{main-Succeeds_iff, Succeeds}
use sqlite_daemon.Cli.Exchange.{Stream, Codec, client, server, exchange}

abbrev pong : ResponseData
pong = ResponseData.ping "1.0.0" "data/a.db" (pos 7)

abbrev encode : Request log_json → Result String (List ℕ)
encode (Request.ping db) = ok (b'p' ∷ [])
encode _ = err "not a ping"

abbrev codec : Codec log_json
codec = record {
  client_to_vec = encode;
  client_from_slice = λ bytes. ok (ok_data pong);
  from_slice = λ bytes. ok (Protocol.Request.ping "a.db");
  to_vec = λ response. ok (b'o' ∷ b'k' ∷ []);
}

-- A router that counts the requests.
abbrev route : Protocol.Request log_json → Io ℕ Protocol.Response
route req n = (ok_ping "1.0.0" "data/a.db" (pos 7), suc n)

abbrev answered : Stream
answered = record { sent = []; incoming = 2 ∷ 0 ∷ 0 ∷ 0 ∷ b'o' ∷ b'k' ∷ [] }

main_prints :
    (main (client codec) (Commands.ping "a.db") answered).0.stdout
    ≡ "✓ Daemon is running" ∷ "  Database: a.db" ∷ "  Version: 1.0.0" ∷ "  Path: data/a.db"
      ∷ "  Revision: 7" ∷ []
unfolding main to_le_bytes get_u32_le show
main_prints = refl

main-Succeeds_iff_example :
    ((main (client codec) (Commands.ping "a.db") answered).0.code ≡ 0)
    ↔ Succeeds
        (Commands.ping "a.db")
        (send_request (client codec) (request_of (Commands.ping "a.db")) answered).0
main-Succeeds_iff_example = main-Succeeds_iff (client codec) (Commands.ping "a.db") answered

exchange_example :
    let (ending, (after, written)) =
      handle_connection
        (server codec route)
        (reads_of ((1 ∷ []) ∷ (0 ∷ 0 ∷ 0 ∷ b'p' ∷ []) ∷ []))
        (0, []) in
    (after ≡ 1)
    × (send_request (client codec) (Request.ping "a.db") (record { sent = []; incoming = written })
        ≡ (ok (ok_data pong), record { sent = frame (b'p' ∷ []); incoming = [] }))
unfolding flatten to_le_bytes
exchange_example =
    exchange codec route (Request.ping "a.db") (Protocol.Request.ping "a.db") (b'p' ∷ [])
      (b'o' ∷ b'k' ∷ []) ((1 ∷ []) ∷ (0 ∷ 0 ∷ 0 ∷ b'p' ∷ []) ∷ []) 0 refl refl refl (omega arith)
      (omega arith) tt refl
