-- ===== src/Server/Chunks.antt =====
-- The connection handler against a reference that has the whole stream at hand.
use mathlib.Core.List.{flatten}
use sqlite_daemon.Prelude.{
  ℕ, zero, suc, ◌+◌, ◌≤◌, ◌<◌, ◌≡◌, refl, sym, ap, ◌∙◌, List, ◌++◌, Option, none, some, Result, Io,
  pure, ◌>>=◌, length, take, drop, ltb, ltb→le, ltb→lt, Bool-cases, Option-cases, true, false, inl,
  inr, arith, if◌then◌else◌, take-append, drop-append, length-drop,
}
use sqlite_daemon.Protocol.{Json}
use sqlite_daemon.Server.Words.{get_u32_le}
use sqlite_daemon.Server.{
  max_message_size, Peer, ready, ended, fill, Ending, disconnected_mid_message, message_too_large,
  answer, at_end, serve,
}
use sqlite_daemon.Server.Buffer.{reads_of, NonEmpty, fill_ready, fill_ended}

module _ {J : Json} (S : Peer J) where
  open S use {World}

  -- The reference: the next message is cut from the front of what is left of the stream.
  unfoldable pub serve_stream : ℕ → List ℕ → Io World (Option (Ending S))
  serve_stream zero stream = pure none
  serve_stream (suc fuel) stream =
      let size = get_u32_le (take 4 stream) in
      let body = drop 4 stream in
      if ltb (length stream) 4
      then pure (some (at_end S stream))
      else if ltb max_message_size size
      then pure (some message_too_large)
      else if ltb (length stream) (4 + size)
      then pure (some disconnected_mid_message)
      else do
        over ← answer S (take size body)
        elim over [ some ending ↦ pure (some ending) | none ↦ serve_stream fuel (drop size body) ]

  -- The stages of one message.
  module _ (f : ℕ) (buf : List ℕ) (reads : List (Result S.Error (List ℕ))) (w : World) where
    serve_short :
        (b : List ℕ)
        → fill 4 buf reads ≡ ended b
        → serve S (suc f) buf reads w ≡ (some (at_end S b), w)
    unfolding serve
    serve_short b e = ground arith

    module _ (b : List ℕ) (reads₁ : List (Result S.Error (List ℕ)))
        (e : fill 4 buf reads ≡ ready b reads₁) where
      serve_large :
          ltb max_message_size (get_u32_le (take 4 b)) ≡ true
          → serve S (suc f) buf reads w ≡ (some message_too_large, w)
      unfolding serve
      serve_large large = ground arith

      module _ (fits : ltb max_message_size (get_u32_le (take 4 b)) ≡ false) where
        serve_cut :
            (c : List ℕ)
            → fill (4 + get_u32_le (take 4 b)) b reads₁ ≡ ended c
            → serve S (suc f) buf reads w ≡ (some disconnected_mid_message, w)
        unfolding serve
        serve_cut c e₂ = ground arith

        module _ (c : List ℕ) (reads₂ : List (Result S.Error (List ℕ)))
            (e₂ : fill (4 + get_u32_le (take 4 b)) b reads₁ ≡ ready c reads₂) where
          serve_over :
              (ending : Ending S)
              → (answer S (take (get_u32_le (take 4 b)) (drop 4 c)) w).0 ≡ some ending
              → serve S (suc f) buf reads w
                ≡ (some ending, (answer S (take (get_u32_le (take 4 b)) (drop 4 c)) w).1)
          unfolding serve
          serve_over ending e₃ = ground arith

          serve_next :
              (answer S (take (get_u32_le (take 4 b)) (drop 4 c)) w).0 ≡ none
              → serve S (suc f) buf reads w
                ≡ serve S f
                    (drop (get_u32_le (take 4 b)) (drop 4 c))
                    reads₂
                    (answer S (take (get_u32_le (take 4 b)) (drop 4 c)) w).1
          unfolding serve
          serve_next e₃ = ground arith

  -- The same stages of the reference.
  module _ (f : ℕ) (stream : List ℕ) (w : World) where
    pub stream_short :
        ltb (length stream) 4 ≡ true → serve_stream (suc f) stream w ≡ (some (at_end S stream), w)
    unfolding serve_stream
    stream_short e = ground arith

    module _ (whole : ltb (length stream) 4 ≡ false) where
      pub stream_large :
          ltb max_message_size (get_u32_le (take 4 stream)) ≡ true
          → serve_stream (suc f) stream w ≡ (some message_too_large, w)
      unfolding serve_stream
      stream_large large = ground arith

      module _ (fits : ltb max_message_size (get_u32_le (take 4 stream)) ≡ false) where
        pub stream_cut :
            ltb (length stream) (4 + get_u32_le (take 4 stream)) ≡ true
            → serve_stream (suc f) stream w ≡ (some disconnected_mid_message, w)
        unfolding serve_stream
        stream_cut cut = ground arith

        module _ (there : ltb (length stream) (4 + get_u32_le (take 4 stream)) ≡ false) where
          pub stream_over :
              (ending : Ending S)
              → (answer S (take (get_u32_le (take 4 stream)) (drop 4 stream)) w).0 ≡ some ending
              → serve_stream (suc f) stream w
                ≡ (some ending, (answer S (take (get_u32_le (take 4 stream)) (drop 4 stream)) w).1)
          unfolding serve_stream
          stream_over ending e = ground arith

          pub stream_next :
              (answer S (take (get_u32_le (take 4 stream)) (drop 4 stream)) w).0 ≡ none
              → serve_stream (suc f) stream w
                ≡ serve_stream f
                    (drop (get_u32_le (take 4 stream)) (drop 4 stream))
                    (answer S (take (get_u32_le (take 4 stream)) (drop 4 stream)) w).1
          unfolding serve_stream
          stream_next e = ground arith

  -- What is cut from a buffer is cut from the stream that it begins.
  body_of :
      (n : ℕ) (c r stream : List ℕ)
      → c ++ r ≡ stream
      → 4 + n ≤ length c
      → (take n (drop 4 c) ≡ take n (drop 4 stream))
        × (drop n (drop 4 c) ++ r ≡ drop n (drop 4 stream))
  body_of n c r stream e there =
      let left : n ≤ length (drop 4 c) = omega (arith, length-drop 4 c) in
      let p : drop 4 c ++ r ≡ drop 4 stream =
        sym (drop-append 4 c r (omega arith)) ∙ ap (drop 4) e in
      (
        sym (take-append n (drop 4 c) r left) ∙ ap (take n) p,
        sym (drop-append n (drop 4 c) r left) ∙ ap (drop n) p,
      )

  -- With all of the header in both, what the handler does with a buffer `b` and the reads that follow
  -- is what the reference does.
  module _ (f : ℕ) (buf : List ℕ) (chunks : List (List ℕ)) (w : World) (full : NonEmpty chunks)
      (later : (buf : List ℕ) (chunks : List (List ℕ)) (w : World)
        → NonEmpty chunks
        → serve S f buf (reads_of chunks) w ≡ serve_stream f (buf ++ flatten chunks) w) where
    abbrev stream : List ℕ
    stream = buf ++ flatten chunks

    serve_headed :
        (b : List ℕ) (rest : List (List ℕ))
        → ltb (length stream) 4 ≡ false
        → fill {E = S.Error} 4 buf (reads_of chunks) ≡ ready b (reads_of rest)
        → b ++ flatten rest ≡ stream
        → 4 ≤ length b
        → NonEmpty rest
        → (n : ℕ) → get_u32_le (take 4 b) ≡ n
        → get_u32_le (take 4 stream) ≡ n
        → serve S (suc f) buf (reads_of chunks) w ≡ serve_stream (suc f) stream w
    serve_headed b rest whole e kept there full₁ n size_b size =
        let reads = reads_of chunks in
        let reads₁ = reads_of rest in
        elim (Bool-cases (ltb max_message_size n)) [
          | inl large ↦
              serve_large f buf reads w b reads₁ e (rw size_b large)
              ∙ sym (stream_large f stream w whole (rw size large))
          | inr fits ↦
              let fits_b : ltb max_message_size (get_u32_le (take 4 b)) ≡ false = rw size_b fits in
              let fits_s : ltb max_message_size (get_u32_le (take 4 stream)) ≡ false =
                rw size fits in
              elim (Bool-cases (ltb (length stream) (4 + n))) [
                | inl cut ↦
                    let shorter : length (b ++ flatten rest) < 4 + get_u32_le (take 4 b) =
                      rw (size_b, kept) (ltb→lt _ _ cut) in
                    serve_cut f buf reads w b reads₁ e fits_b (b ++ flatten rest)
                      (fill_ended (4 + get_u32_le (take 4 b)) b rest full₁ shorter)
                    ∙ sym (stream_cut f stream w whole fits_s (rw size cut))
                | inr whole₂ ↦
                    let m = get_u32_le (take 4 b) in
                    let k = get_u32_le (take 4 stream) in
                    let same : m ≡ k = size_b ∙ sym size in
                    let enough : 4 + m ≤ length (b ++ flatten rest) =
                      rw (size_b, kept) (ltb→le _ _ whole₂) in
                    let (c, rest₂, e₂, kept₂, there₂, full₂) =
                      fill_ready {E = S.Error} (4 + m) b rest full₁ enough in
                    let (body, left) = body_of m c (flatten rest₂) stream (kept₂ ∙ kept) there₂ in
                    let a = ap (λ l. answer S l w) (body ∙ ap (λ j. take j (drop 4 stream)) same) in
                    let t = left ∙ ap (λ j. drop j (drop 4 stream)) same in
                    let whole_s : ltb (length stream) (4 + k) ≡ false = rw size whole₂ in
                    elim (Option-cases (answer S (take m (drop 4 c)) w).0) [
                      | inr (ending, e₃) ↦
                          serve_over f buf reads w b reads₁ e fits_b c (reads_of rest₂) e₂ ending e₃
                          ∙ ap (λ (x : Option (Ending S) × World). (some ending, x.1)) a
                          ∙ sym (
                              stream_over f stream w whole fits_s whole_s ending
                                (ap (λ (x : Option (Ending S) × World). x.0) (sym a) ∙ e₃))
                      | inl e₃ ↦
                          serve_next f buf reads w b reads₁ e fits_b c (reads_of rest₂) e₂ e₃
                          ∙ later (drop m (drop 4 c)) rest₂ (answer S (take m (drop 4 c)) w).1 full₂
                          ∙ ap (λ l. serve_stream f l (answer S (take m (drop 4 c)) w).1) t
                          ∙ ap
                              (λ (x : Option (Ending S) × World).
                                serve_stream f (drop k (drop 4 stream)) x.1)
                              a
                          ∙ sym (
                              stream_next f stream w whole fits_s whole_s
                                (ap (λ (x : Option (Ending S) × World). x.0) (sym a) ∙ e₃))
                    ]
              ]
        ]

  -- However the stream is cut into reads, the handler does what the reference does with the whole of
  -- it: the same calls in the same order, the same writes, the same ending.
  pub serve-serve_stream :
      (f : ℕ) (buf : List ℕ) (chunks : List (List ℕ)) (w : World)
      → NonEmpty chunks
      → serve S f buf (reads_of chunks) w ≡ serve_stream f (buf ++ flatten chunks) w
  unfolding serve serve_stream
  serve-serve_stream zero buf chunks w full = refl
  serve-serve_stream (suc f) buf chunks w full =
      let stream = buf ++ flatten chunks in
      elim (Bool-cases (ltb (length stream) 4)) [
        | inl short ↦
            serve_short f buf (reads_of chunks) w stream
              (fill_ended 4 buf chunks full (ltb→lt _ _ short))
            ∙ sym (stream_short f stream w short)
        | inr whole ↦
            let (b, rest, e, kept, there, full₁) =
              fill_ready {E = S.Error} 4 buf chunks full (ltb→le _ _ whole) in
            let heads : take 4 b ≡ take 4 stream =
              sym (take-append 4 b (flatten rest) there) ∙ ap (take 4) kept in
            serve_headed f buf chunks w full (serve-serve_stream f) b rest whole e kept there full₁
              (get_u32_le (take 4 stream)) (ap get_u32_le heads) refl
      ]
