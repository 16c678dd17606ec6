-- ===== src/Text/Case.antt =====
-- Occurrences of a pattern under trimming and upper case.
use mathlib.Core.List.{reverse, reverse-append, reverse-reverse}
use sqlite_daemon.Prelude.{
  ℕ, ◌≡◌, ◌≤◌, ◌<◌, refl, sym, ap, ◌∙◌, false, List, [], ◌∷◌, ◌++◌, map, arith, lt→ltb,
  append_assoc, Bool-cases, inl, inr, subst, All,
}
use sqlite_daemon.Text.{is_whitespace, trim_start, trim, ascii_upper, to_uppercase}
use sqlite_daemon.Text.Occurs.{Occurs}

-- The first and the last character are no white space.
trim_start-Occurs :
    (c : ℕ) (p s : List ℕ)
    → is_whitespace c ≡ false
    → Occurs (c ∷ p) s
    → Occurs (c ∷ p) (trim_start s)
unfolding trim_start
trim_start-Occurs c p [] solid ([], after, e) = absurd (cc)
trim_start-Occurs c p [] solid (b ∷ before, after, e) = absurd (cc)
trim_start-Occurs c p (d ∷ s) solid ([], after, e) =
    let q : d ≡ c = cc in
    let r : trim_start (d ∷ s) ≡ d ∷ s = rw q (ground arith) in ([], after, r ∙ e)
trim_start-Occurs c p (d ∷ s) solid (b ∷ before, after, e) =
    let q : s ≡ before ++ (c ∷ p ++ after) = cc in
    elim (Bool-cases (is_whitespace d)) [
      | inl white ↦
          let r : trim_start (d ∷ s) ≡ trim_start s = ground arith in
          let o = trim_start-Occurs c p s solid (before, after, q) in (o.0, o.1, r ∙ o.2)
      | inr solid' ↦ let r : trim_start (d ∷ s) ≡ d ∷ s = ground arith in (b ∷ before, after, r ∙ e)
    ]

Occurs-reverse : (p s : List ℕ) → Occurs p s → Occurs (reverse p) (reverse s)
Occurs-reverse p s (before, after, e) = (
  reverse after,
  reverse before,
  ap reverse e
      ∙ reverse-append before (p ++ after)
      ∙ ap (λ l. l ++ reverse before) (reverse-append p after)
      ∙ append_assoc (reverse after) (reverse p) (reverse before),
)

-- A pattern with no white space at its ends stands in the trimmed text if it stands in the text.
pub trim-Occurs :
    (c d : ℕ) (p q s : List ℕ)
    → is_whitespace c ≡ false
    → is_whitespace d ≡ false
    → reverse (c ∷ p) ≡ d ∷ q
    → Occurs (c ∷ p) s
    → Occurs (c ∷ p) (trim s)
unfolding trim
trim-Occurs c d p q s solid_c solid_d back o =
    let o₁ = trim_start-Occurs c p s solid_c o in
    let o₂ = Occurs-reverse (c ∷ p) (trim_start s) o₁ in
    let o₃ =
      trim_start-Occurs d q (reverse (trim_start s)) solid_d
        (subst (λ l. Occurs l (reverse (trim_start s))) back o₂) in
    let o₄ = Occurs-reverse (d ∷ q) (trim_start (reverse (trim_start s))) o₃ in
    subst (λ l. Occurs l (reverse (trim_start (reverse (trim_start s)))))
      (ap reverse (sym back) ∙ reverse-reverse (c ∷ p)) o₄

module _ (upper : ℕ → List ℕ) where
  to_uppercase-append :
      (s t : List ℕ) → to_uppercase upper (s ++ t) ≡ to_uppercase upper s ++ to_uppercase upper t
  unfolding to_uppercase
  to_uppercase-append [] t = refl
  to_uppercase-append (c ∷ s) t = simp (to_uppercase-append s t, append_assoc)

  to_uppercase_ascii :
      (s : List ℕ) → All (λ c. c < 128) s → to_uppercase upper s ≡ map ascii_upper s
  unfolding to_uppercase
  to_uppercase_ascii [] h = refl
  to_uppercase_ascii (c ∷ s) (h, hs) =
      rw (lt→ltb c 128 h) (ap (λ l. ascii_upper c ∷ l) (to_uppercase_ascii s hs))

  -- Upper case takes an ASCII pattern to its upper case, wherever it stands.
  pub to_uppercase-Occurs :
      (p s : List ℕ)
      → All (λ c. c < 128) p
      → Occurs p s
      → Occurs (map ascii_upper p) (to_uppercase upper s)
  to_uppercase-Occurs p s small (before, after, e) = (
    to_uppercase upper before,
    to_uppercase upper after,
    ap (to_uppercase upper) e
        ∙ to_uppercase-append before (p ++ after)
        ∙ ap (λ l. to_uppercase upper before ++ l) (to_uppercase-append p after)
        ∙ ap (λ l. to_uppercase upper before ++ (l ++ to_uppercase upper after))
            (to_uppercase_ascii p small),
  )

ascii_of_upper : (c : ℕ) → ascii_upper c < 128 → c < 128
unfolding ascii_upper
ascii_of_upper c h = ground arith

pub All-ascii_of_upper :
    (p : List ℕ) → All (λ c. c < 128) (map ascii_upper p) → All (λ c. c < 128) p
All-ascii_of_upper [] h = tt
All-ascii_of_upper (c ∷ p) (h, hs) = (ascii_of_upper c h, All-ascii_of_upper p hs)

-- A letter, in either case, is no white space.
pub solid_of_upper : (c u : ℕ) → ascii_upper c ≡ u → 65 ≤ u → u ≤ 90 → is_whitespace c ≡ false
unfolding ascii_upper is_whitespace
solid_of_upper c u h lo hi = ground arith
