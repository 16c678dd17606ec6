-- ===== src/Server/Frames.antt =====
-- What a client that frames its messages as the daemon does gets of a connection.
use mathlib.Core.List.{flatten}
use sqlite_daemon.Prelude.{
  ℕ, zero, suc, ◌+◌, ◌≤◌, ◌<◌, ◌≡◌, ◌≢◌, refl, sym, ap, ◌∙◌, List, [], ◌∷◌, ◌++◌, map, Option, none,
  some, ok, Io, pure, ◌>>=◌, length, take, drop, ltb, lt→ltb, le→ltb, Option-cases, inl, inr, arith,
  length-append, All, take-length_append, drop-length_append, length-drop, false,
}
use sqlite_daemon.Protocol.{Json, Request}
use sqlite_daemon.Server.Words.{to_le_bytes, get_u32_le}
use sqlite_daemon.Server.{
  max_message_size, Peer, Ending, disconnected, answer, is_shutdown, serve, bytes_of,
  handle_connection,
}
use sqlite_daemon.Server.Buffer.{reads_of, NonEmpty}
use sqlite_daemon.Server.Chunks.{serve_stream, serve-serve_stream, stream_over, stream_next}

-- A message behind its length.
abbrev pub frame : List ℕ → List ℕ
frame message = to_le_bytes (length message) ++ message

abbrev pub Fits : List ℕ → Type 0
Fits message = length message ≤ max_message_size

length-frame : (m rest : List ℕ) → length (frame m ++ rest) ≡ 4 + length (m ++ rest)
unfolding to_le_bytes
length-frame m rest = omega arith

size-frame : (m rest : List ℕ) → Fits m → get_u32_le (take 4 (frame m ++ rest)) ≡ length m
unfolding to_le_bytes
size-frame m rest fits = unfold get_u32_le in omega arith

body-frame : (m rest : List ℕ) → drop 4 (frame m ++ rest) ≡ m ++ rest
unfolding to_le_bytes
body-frame m rest = refl

module _ {J : Json} (S : Peer J) where
  open S use {World}

  -- The messages answered one after the other, until one ends the connection or the client leaves.
  unfoldable pub answer_all : List (List ℕ) → Io World (Option (Ending S))
  answer_all [] = pure (some disconnected)
  answer_all (m ∷ ms) = do
    over ← answer S m
    elim over [ some ending ↦ pure (some ending) | none ↦ answer_all ms ]

  answer_all_over :
      (m : List ℕ) (ms : List (List ℕ)) (w : World) (ending : Ending S)
      → (answer S m w).0 ≡ some ending
      → answer_all (m ∷ ms) w ≡ (some ending, (answer S m w).1)
  unfolding answer_all
  answer_all_over m ms w ending e = ground arith

  answer_all_next :
      (m : List ℕ) (ms : List (List ℕ)) (w : World)
      → (answer S m w).0 ≡ none
      → answer_all (m ∷ ms) w ≡ answer_all ms (answer S m w).1
  unfolding answer_all
  answer_all_next m ms w e = ground arith

  serve_stream-frame :
      (f : ℕ) (m : List ℕ) (ms : List (List ℕ)) (rest : List ℕ) (w : World)
      → Fits m
      → ((v : World) → serve_stream S f rest v ≡ answer_all ms v)
      → serve_stream S (suc f) (frame m ++ rest) w ≡ answer_all (m ∷ ms) w
  serve_stream-frame f m ms rest w fits later =
      let stream = frame m ++ rest in
      let size = size-frame m rest fits in
      let long = length-frame m rest in
      let whole : ltb (length stream) 4 ≡ false = le→ltb _ _ (omega arith) in
      let small : ltb max_message_size (get_u32_le (take 4 stream)) ≡ false =
        le→ltb _ _ (omega arith) in
      let there : ltb (length stream) (4 + get_u32_le (take 4 stream)) ≡ false =
        le→ltb _ _ (omega (arith, length-append m rest)) in
      let message : take (get_u32_le (take 4 stream)) (drop 4 stream) ≡ m =
        rw (size, body-frame m rest) (take-length_append m rest) in
      let left : drop (get_u32_le (take 4 stream)) (drop 4 stream) ≡ rest =
        rw (size, body-frame m rest) (drop-length_append m rest) in
      let a = ap (λ l. answer S l w) message in
      elim (Option-cases (answer S m w).0) [
        | inr (ending, e) ↦
            stream_over S f stream w whole small there ending
              (ap (λ (x : Option (Ending S) × World). x.0) a ∙ e)
            ∙ ap (λ (x : Option (Ending S) × World). (some ending, x.1)) a
            ∙ sym (answer_all_over m ms w ending e)
        | inl e ↦
            stream_next S f stream w whole small there
              (ap (λ (x : Option (Ending S) × World). x.0) a ∙ e)
            ∙ ap
                (λ l.
                  serve_stream S f l
                    (answer S (take (get_u32_le (take 4 stream)) (drop 4 stream)) w).1)
                left
            ∙ ap (λ (x : Option (Ending S) × World). serve_stream S f rest x.1) a
            ∙ later (answer S m w).1
            ∙ sym (answer_all_next m ms w e)
      ]

  serve_stream-frames :
      (f : ℕ) (ms : List (List ℕ)) (w : World)
      → All Fits ms
      → length (flatten (map frame ms)) < f
      → serve_stream S f (flatten (map frame ms)) w ≡ answer_all ms w
  unfolding flatten
  serve_stream-frames zero ms w fits enough = absurd (omega arith)
  serve_stream-frames (suc f) [] w fits enough = unfold serve_stream answer_all in refl
  serve_stream-frames (suc f) (m ∷ ms) w (fit, fits) enough =
      let rest = flatten (map frame ms) in
      serve_stream-frame f m ms rest w fit (λ v.
        serve_stream-frames f ms v fits (omega (arith, length-frame m rest, length-append m rest)))

  bytes_of-reads_of :
      (chunks : List (List ℕ)) → bytes_of S (reads_of chunks) ≡ length (flatten chunks)
  unfolding flatten
  bytes_of-reads_of [] = refl
  bytes_of-reads_of (c ∷ chunks) =
      omega (arith, bytes_of-reads_of chunks, length-append c (flatten chunks))

  -- However the stream of a client that frames its messages is cut into reads, none of them empty:
  -- each message is answered by itself, in order, until an answer ends the connection (a write that
  -- fails, or a shutdown), and after the last one the connection ends as the client disconnects.
  pub handle_connection-frames :
      (ms chunks : List (List ℕ)) (w : World)
      → All Fits ms
      → NonEmpty chunks
      → flatten chunks ≡ flatten (map frame ms)
      → handle_connection S (reads_of chunks) w ≡ answer_all ms w
  unfolding handle_connection
  handle_connection-frames ms chunks w fits full e =
      let f = suc (bytes_of S (reads_of chunks)) in
      let enough : length (flatten (map frame ms)) < f =
        omega (arith, bytes_of-reads_of chunks, ap length e) in
      serve-serve_stream S f [] chunks w full
      ∙ ap (λ l. serve_stream S f l w) e
      ∙ serve_stream-frames f ms w fits enough

  serve_stream_total :
      (f : ℕ) (stream : List ℕ) (w : World)
      → length stream < f
      → (serve_stream S f stream w).0 ≢ none
  unfolding serve_stream
  serve_stream_total zero stream w h = absurd (omega arith)
  serve_stream_total (suc f) stream w h =
      let size = get_u32_le (take 4 stream) in
      let rest = drop size (drop 4 stream) in
      let v = (answer S (take size (drop 4 stream)) w).1 in
      ground
        (arith, length-drop 4 stream, length-drop size (drop 4 stream), serve_stream_total f rest v)

  -- The fuel suffices: on every stream, well framed or not and however cut, the handler ends.
  pub handle_connection_total :
      (chunks : List (List ℕ)) (w : World)
      → NonEmpty chunks
      → (ending : Ending S) × ((handle_connection S (reads_of chunks) w).0 ≡ some ending)
  unfolding handle_connection
  handle_connection_total chunks w full =
      let f = suc (bytes_of S (reads_of chunks)) in
      let enough : length (flatten chunks) < f = omega (arith, bytes_of-reads_of chunks) in
      let e = serve-serve_stream S f [] chunks w full in
      elim (Option-cases (serve S f [] (reads_of chunks) w).0) [
        | inr found ↦ found
        | inl none_left ↦ absurd (
            serve_stream_total f (flatten chunks) w enough
              (ap (λ (x : Option (Ending S) × World). x.0) (sym e) ∙ none_left))
      ]

  -- A response whose encoding is longer than the limit is not written, and the connection goes on:
  -- the client gets no byte of an answer to this request.
  answer_oversized :
      (message json : List ℕ) (request : Request J) (w : World)
      → S.from_slice message ≡ ok request
      → is_shutdown S request ≡ false
      → S.to_vec (S.route_request request w).0 ≡ ok json
      → max_message_size < length json
      → answer S message w ≡ (none, (S.route_request request w).1)
  unfolding answer
  answer_oversized message json request w parsed other encoded long =
      let big = lt→ltb max_message_size (length json) long in ground arith
