-- ===== src/Text/Occurs.antt =====
-- `str::contains` on code points, and what it decides: that the pattern occurs in the text.
use sqlite_daemon.Prelude.{
  ℕ, ◌≡◌, refl, sym, ap, ◌↔◌, inl, inr, Bool, true, false, ◌&&◌, ◌||◌, List, [], ◌∷◌, ◌++◌, arith,
  ◌==◌, subst, Bool-cases,
}

pub is_prefix : List ℕ → List ℕ → Bool
is_prefix [] s = true
is_prefix (c ∷ p) [] = false
is_prefix (c ∷ p) (d ∷ s) = c == d && is_prefix p s

unfoldable pub contains : List ℕ → List ℕ → Bool
unfolding is_prefix
contains p [] = is_prefix p []
contains p (c ∷ s) = is_prefix p (c ∷ s) || contains p s

-- `p` stands somewhere in `s`.
abbrev pub Occurs : List ℕ → List ℕ → Type 0
Occurs p s = (before : List ℕ) × (after : List ℕ) × (s ≡ before ++ (p ++ after))

is_prefix-append : (p after : List ℕ) → is_prefix p (p ++ after) ≡ true
unfolding is_prefix
is_prefix-append [] after = refl
is_prefix-append (c ∷ p) after = ground (arith, is_prefix-append p after)

is_prefix_sound : (p s : List ℕ) → is_prefix p s ≡ true → (after : List ℕ) × (s ≡ p ++ after)
unfolding is_prefix
is_prefix_sound [] s h = (s, refl)
is_prefix_sound (c ∷ p) [] h = cc
is_prefix_sound (c ∷ p) (d ∷ s) h =
    let r = is_prefix_sound p s (ground arith) in let e : c ≡ d = ground arith in (r.0, cc (r.1, e))

contains-append : (p before after : List ℕ) → contains p (before ++ (p ++ after)) ≡ true
unfolding contains
contains-append [] [] [] = refl
contains-append [] [] (d ∷ after) = refl
contains-append (c ∷ p) [] after = ground (arith, is_prefix-append p after)
contains-append p (c ∷ before) after = ground (arith, contains-append p before after)

contains_sound : (p s : List ℕ) → contains p s ≡ true → Occurs p s
unfolding contains
contains_sound p [] h = let r = is_prefix_sound p [] h in ([], r.0, r.1)
contains_sound p (c ∷ s) h = elim (Bool-cases (is_prefix p (c ∷ s))) [
  | inl e ↦ let r = is_prefix_sound p (c ∷ s) e in ([], r.0, r.1)
  | inr e ↦
      let r = contains_sound p s (ground arith) in (c ∷ r.0, r.1, ap (λ (l : List ℕ). c ∷ l) r.2)
]

-- `contains` decides occurrence.
pub contains_iff : (p s : List ℕ) → (contains p s ≡ true) ↔ Occurs p s
contains_iff p s = (
  contains_sound p s,
  λ o. subst (λ t. contains p t ≡ true) (sym o.2) (contains-append p o.0 o.1),
)
