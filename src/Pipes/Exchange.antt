-- ===== src/Pipes/Exchange.antt =====
-- daemon/src/server.rs and cli/src/main.rs on Windows: one exchange over a pipe.
use mathlib.Core.List.{flatten}
use sqlite_daemon.Prelude.{ℕ, ◌≡◌, List, [], ok, Io}
use sqlite_daemon.Protocol
use sqlite_daemon.Protocol.{Json}
use sqlite_daemon.Server.Buffer.{reads_of, NonEmpty}
use sqlite_daemon.Server.Frames.{frame, Fits}
use sqlite_daemon.Cli.{Request}
use sqlite_daemon.Cli.Exchange.{Codec, client, server, exchange}
use sqlite_daemon.Pipes.{handle_connection_pipe, send_request_pipe}

module _ {J : Json} (C : Codec J) {R : Type 0}
    (route : Protocol.Request J → Io R Protocol.Response) where
  -- As over a socket: the handler routes the client's request and nothing else, and the client sends its
  -- frame, reads all that is written, and returns the response.
  exchange_over_pipe :
      (request : Request J) (req : Protocol.Request J) (json reply : List ℕ)
      (chunks : List (List ℕ)) (r : R)
      → C.client_to_vec request ≡ ok json
      → C.from_slice json ≡ ok req
      → C.to_vec (route req r).0 ≡ ok reply
      → Fits json
      → Fits reply
      → NonEmpty chunks
      → flatten chunks ≡ frame json
      → let (ending, (after, written)) =
          handle_connection_pipe (server C route) (reads_of chunks) (r, []) in
        (after ≡ (route req r).1)
        × (send_request_pipe (client C) request (record { sent = []; incoming = written })
            ≡ (C.client_from_slice reply, record { sent = frame json; incoming = [] }))
  unfolding handle_connection_pipe send_request_pipe
  exchange_over_pipe = exchange C route
