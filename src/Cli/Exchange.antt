-- ===== src/Cli/Exchange.antt =====
-- cli/src/main.rs and daemon/src/server.rs: one exchange of the client with the connection handler.
use mathlib.Core.List.{flatten}
use sqlite_daemon.Prelude.{
  ℕ, ◌≡◌, refl, sym, ap, ◌∙◌, String, false, List, [], ◌∷◌, ◌++◌, Option, Result, ok, err, Io,
  length, take, drop, ltb, if◌then◌else◌, arith, le→ltb, take-length_append, drop-length_append,
  length-append, Option-cases, inl, inr, append-nil,
}
use sqlite_daemon.Protocol
use sqlite_daemon.Protocol.{Json}
use sqlite_daemon.Server.Words.{to_le_bytes, get_u32_le, get_u32_le-to_le_bytes}
use sqlite_daemon.Server.{max_message_size, Peer, Ending, answer, write_response, handle_connection}
use sqlite_daemon.Server.Buffer.{reads_of, NonEmpty}
use sqlite_daemon.Server.Frames.{frame, Fits, handle_connection-frames, answer_all}
use sqlite_daemon.Cli.{Request, Response, Daemon, send_request}

-- The client's side of a stream whose other side has sent `incoming`.
pub record Stream : Type 0 where
  pub sent : List ℕ
  pub incoming : List ℕ

-- The JSON encoding on both sides. The client's types and the daemon's differ.
pub record Codec (J : Json) : Type 1 where
  pub client_to_vec : Request J → Result String (List ℕ)
  pub client_from_slice : List ℕ → Result String Response
  pub from_slice : List ℕ → Result String (Protocol.Request J)
  pub to_vec : Protocol.Response → Result String (List ℕ)

module _ {J : Json} (C : Codec J) where
  -- `read_exact` fails if the stream ends too early.
  abbrev pub client : Daemon J
  client = record {
    World = Stream;
    to_vec = C.client_to_vec;
    from_slice = C.client_from_slice;
    connect = λ s. (ok tt, s);
    write_all = λ bytes s. (ok tt, record s { sent = s.sent ++ bytes });
    flush = λ s. (ok tt, s);
    read_exact = λ n s.
        if ltb (length s.incoming) n
        then (err "early eof", record s { incoming = [] })
        else (ok (take n s.incoming), record s { incoming = drop n s.incoming });
  }

  -- The daemon's side, with what it has written.
  abbrev pub server : {R : Type 0} → (Protocol.Request J → Io R Protocol.Response) → Peer J
  server {R} route = record {
    World = R × List ℕ;
    Error = String;
    from_slice = C.from_slice;
    to_vec = C.to_vec;
    write_all = λ bytes w. (ok tt, (w.0, w.1 ++ bytes));
    flush = λ w. (ok tt, w);
    route_request = λ req w. ((route req w.0).0, ((route req w.0).1, w.1));
  }

  -- The client writes its request as one frame, and reads one frame for the response.
  send_request-frame :
      (request : Request J) (json reply rest : List ℕ)
      → C.client_to_vec request ≡ ok json
      → Fits reply
      → send_request client request (record { sent = []; incoming = frame reply ++ rest })
        ≡ (C.client_from_slice reply, record { sent = frame json; incoming = rest })
  unfolding send_request to_le_bytes
  send_request-frame request json reply rest encoded fits =
      let stream = frame reply ++ rest in
      let long : ltb (length stream) 4 ≡ false = le→ltb _ _ (omega arith) in
      let size : get_u32_le (take 4 stream) ≡ length reply =
        get_u32_le-to_le_bytes (length reply) (omega arith) in
      let whole : ltb (length (reply ++ rest)) (length reply) ≡ false =
        le→ltb _ _ (omega (arith, length-append reply rest)) in
      rw (encoded, long, size, whole, take-length_append reply rest, drop-length_append reply rest)
        refl

  module _ {R : Type 0} (route : Protocol.Request J → Io R Protocol.Response) where
    answer_all_last :
        (m : List ℕ) (w : R × List ℕ)
        → (answer_all (server route) (m ∷ []) w).1 ≡ (answer (server route) m w).1
    unfolding answer_all
    answer_all_last m w = elim (Option-cases (answer (server route) m w).0) [
      | inl e ↦ ground arith
      | inr (ending, e) ↦ ground arith
    ]

    answer-frame :
        (json reply : List ℕ) (req : Protocol.Request J) (r : R)
        → C.from_slice json ≡ ok req
        → C.to_vec (route req r).0 ≡ ok reply
        → Fits reply
        → (answer (server route) json (r, [])).1 ≡ ((route req r).1, frame reply)
    unfolding answer write_response
    answer-frame json reply req r parsed encoded fits =
        let small : ltb max_message_size (length reply) ≡ false = le→ltb _ _ fits in ground arith

    -- A client and the daemon's connection handler, with any router, over one stream: the handler, given
    -- the bytes that the client sends in reads of any sizes but zero, routes the client's request and
    -- nothing else, and writes a frame with the response; and the client, given what the handler writes,
    -- sends these bytes and no others, reads all that is written, and returns the response as its own
    -- encoding reads it. The request is one that the daemon's encoding reads from the client's, and both
    -- messages are within the limit.
    pub exchange :
        (request : Request J) (req : Protocol.Request J) (json reply : List ℕ)
        (chunks : List (List ℕ)) (r : R)
        → C.client_to_vec request ≡ ok json
        → C.from_slice json ≡ ok req
        → C.to_vec (route req r).0 ≡ ok reply
        → Fits json
        → Fits reply
        → NonEmpty chunks
        → flatten chunks ≡ frame json
        → let (ending, (after, written)) =
            handle_connection (server route) (reads_of chunks) (r, []) in
          (after ≡ (route req r).1)
          × (send_request client request (record { sent = []; incoming = written })
              ≡ (C.client_from_slice reply, record { sent = frame json; incoming = [] }))
    unfolding flatten to_le_bytes
    exchange request req json reply chunks r sent parsed encoded fits fits₂ full cut =
        let w = handle_connection (server route) (reads_of chunks) (r, []) in
        let all : w ≡ answer_all (server route) (json ∷ []) (r, []) =
          handle_connection-frames (server route) (json ∷ []) chunks (r, []) (fits, tt) full
            (cut ∙ sym (append-nil (frame json))) in
        let at : w.1 ≡ ((route req r).1, frame reply) =
          ap (λ (x : Option (Ending (server route)) × (R × List ℕ)). x.1) all
          ∙ answer_all_last json (r, [])
          ∙ answer-frame json reply req r parsed encoded fits₂ in
        (
          ap (λ (x : R × List ℕ). x.0) at,
          ap (λ bytes. send_request client request (record { sent = []; incoming = bytes }))
                (ap (λ (x : R × List ℕ). x.1) at ∙ sym (append-nil (frame reply)))
              ∙ send_request-frame request json reply [] sent fits₂,
        )
