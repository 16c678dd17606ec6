-- ===== src/Server/Buffer.antt =====
-- What the reading loops leave in the buffer, however the stream is cut into reads.
use mathlib.Core.List.{flatten}
use sqlite_daemon.Prelude.{
  ℕ, ◌≤◌, ◌<◌, ◌≡◌, refl, sym, ap, ◌∙◌, List, [], ◌∷◌, ◌++◌, map, Result, ok, length, ltb, lt→ltb,
  le→ltb, ltb→le, length-append, Bool-cases, inl, inr, append_assoc, append-nil, arith, subst,
}
use sqlite_daemon.Server.{ready, ended, fill}

-- A read that adds no byte is the end of the stream.
abbrev pub NonEmpty : List (List ℕ) → Type 0
NonEmpty [] = Unit
NonEmpty ([] ∷ chunks) = ⊥
NonEmpty ((b ∷ bytes) ∷ chunks) = NonEmpty chunks

module _ {E : Type 0} where
  abbrev pub reads_of : List (List ℕ) → List (Result E (List ℕ))
  reads_of chunks = map ok chunks

  -- The loop leaves the reads that it did not need, and loses no byte.
  pub fill_ready :
      (target : ℕ) (buf : List ℕ) (chunks : List (List ℕ))
      → NonEmpty chunks
      → target ≤ length (buf ++ flatten chunks)
      → (b : List ℕ) × (rest : List (List ℕ)) × (fill {E = E} target buf (reads_of chunks)
          ≡ ready b (reads_of rest))
        × (b ++ flatten rest ≡ buf ++ flatten chunks)
        × (target ≤ length b)
        × NonEmpty rest
  unfolding fill flatten
  fill_ready target buf [] full enough =
      let there : target ≤ length buf = subst (λ l. target ≤ length l) (append-nil buf) enough in
      (buf, [], rw (le→ltb _ _ there), refl, there, tt)
  fill_ready target buf ([] ∷ chunks) full enough = absurd full
  fill_ready target buf ((c ∷ bytes) ∷ chunks) full enough =
      elim (Bool-cases (ltb (length buf) target)) [
        | inl more ↦
            let same = append_assoc buf (c ∷ bytes) (flatten chunks) in
            let (b, rest, e, kept, there, full') =
              fill_ready target (buf ++ c ∷ bytes) chunks full
                (subst (λ l. target ≤ length l) (sym same) enough) in
            (b, rest, rw more e, kept ∙ same, there, full')
        | inr done ↦ (buf, (c ∷ bytes) ∷ chunks, rw done, refl, ltb→le _ _ done, full)
      ]

  pub fill_ended :
      (target : ℕ) (buf : List ℕ) (chunks : List (List ℕ))
      → NonEmpty chunks
      → length (buf ++ flatten chunks) < target
      → fill {E = E} target buf (reads_of chunks) ≡ ended (buf ++ flatten chunks)
  unfolding fill flatten
  fill_ended target buf [] full short =
      let few : length buf < target = subst (λ l. length l < target) (append-nil buf) short in
      rw (lt→ltb _ _ few) (ap ended (sym (append-nil buf)))
  fill_ended target buf ([] ∷ chunks) full short = absurd full
  fill_ended target buf ((c ∷ bytes) ∷ chunks) full short =
      let same = append_assoc buf (c ∷ bytes) (flatten chunks) in
      let few : length buf < target =
        omega (arith, length-append buf ((c ∷ bytes) ++ flatten chunks)) in
      rw (lt→ltb _ _ few) (
        fill_ended target (buf ++ c ∷ bytes) chunks full
          (subst (λ l. length l < target) (sym same) short)
        ∙ ap ended same)
