-- ===== src/SingleInstance/Owners.antt =====
-- Families of stages, by process, of which one at most is an owner's.
use sqlite_daemon.Prelude.{
  ℕ, ◌≡◌, sym, ◌∙◌, subst, ◌==◌, ==_iff, Bool-cases, inl, inr, if◌then◌else◌,
}
use sqlite_daemon.SingleInstance.{set}

module _ {A : Type 0} (Owns : A → Type 0) where
  abbrev pub IsExclusive : (ℕ → A) → Type 0
  IsExclusive s = (p q : ℕ) → Owns (s p) → Owns (s q) → p ≡ q

  -- A process that owned before may own after, and no other.
  pub set-IsExclusive :
      (s : ℕ → A) (p : ℕ) (a : A) → (Owns a → Owns (s p)) → IsExclusive s → IsExclusive (set s p a)
  set-IsExclusive s p a back h i j own_i own_j = h i j (before i own_i) (before j own_j)
    where
      before : (k : ℕ) → Owns (set s p a k) → Owns (s k)
      before k o = elim (Bool-cases (k == p)) [
        | inl x ↦
            subst (λ m. Owns (s m)) (sym ((==_iff k p).0 x))
              (back (subst (λ b. Owns (if b then a else s k)) x o))
        | inr x ↦ subst (λ b. Owns (if b then a else s k)) x o
      ]

  -- Where there is no owner, a process that becomes one is the only one.
  pub set_first-IsExclusive :
      (s : ℕ → A) (p : ℕ) (a : A) → ((q : ℕ) → Owns (s q) → ⊥) → IsExclusive (set s p a)
  set_first-IsExclusive s p a free i j own_i own_j = owner i own_i ∙ sym (owner j own_j)
    where
      owner : (k : ℕ) → Owns (set s p a k) → k ≡ p
      owner k o = elim (Bool-cases (k == p)) [
        | inl x ↦ (==_iff k p).0 x
        | inr x ↦ absurd (free k (subst (λ b. Owns (if b then a else s k)) x o))
      ]
