-- ===== src/Worker/Validate/Pragma.antt =====
-- daemon/src/worker.rs: `validate_statement` on a text that holds the pragma.
use mathlib.Core.List.{reverse, reverse_aux}
use sqlite_daemon.Prelude.{
  ℕ, ◌≡◌, ◌<◌, refl, sym, ap, ◌∙◌, List, [], ◌∷◌, map, ok, All, subst, arith,
}
use sqlite_daemon.Protocol.{Json, Statement}
use sqlite_daemon.Text.{codes, trim, ascii_upper}
use sqlite_daemon.Text.Occurs.{Occurs}
use sqlite_daemon.Text.Case.{trim-Occurs, to_uppercase-Occurs, All-ascii_of_upper, solid_of_upper}
use sqlite_daemon.Worker.Validate.{validate_statement}
use sqlite_daemon.Worker.Validate.Accepts.{pragma, normalized, validate_statement_iff}

map-reverse_aux :
    (f : ℕ → ℕ) (l r : List ℕ) → map f (reverse_aux l r) ≡ reverse_aux (map f l) (map f r)
map-reverse_aux f [] r = refl
map-reverse_aux f (x ∷ l) r = map-reverse_aux f l (x ∷ r)

trim-Occurs-pragma :
    (p q s : List ℕ)
    → map ascii_upper p ≡ pragma
    → reverse p ≡ q
    → map ascii_upper q ≡ reverse pragma
    → Occurs p s
    → Occurs p (trim s)
trim-Occurs-pragma [] q s is back kcab o = absurd (cc)
trim-Occurs-pragma (c ∷ p) [] s is back kcab o = absurd (cc)
trim-Occurs-pragma (c ∷ p) (d ∷ q) s is back kcab o =
    trim-Occurs c d p q s (solid_of_upper c 80 (cc) (omega arith) (omega arith))
      (solid_of_upper d 65 (cc) (omega arith) (omega arith)) back o

module _ {J : Json} (upper : ℕ → List ℕ) where
  normalized-Occurs :
      (stmt : Statement J) (p : List ℕ)
      → map ascii_upper p ≡ pragma
      → Occurs p (codes stmt.sql)
      → Occurs pragma (normalized upper stmt)
  normalized-Occurs stmt p is o =
      let trimmed =
        trim-Occurs-pragma p (reverse p) (codes stmt.sql) is refl
          (map-reverse_aux ascii_upper p [] ∙ ap reverse is) o in
      let small : All (λ c. c < 128) pragma = omega arith in
      subst (λ l. Occurs l (normalized upper stmt)) is
        (to_uppercase-Occurs upper p (trim (codes stmt.sql))
          (All-ascii_of_upper p (subst (All (λ c. c < 128)) (sym is) small)) trimmed)

  -- A statement whose text holds the pragma, each letter in upper or lower case, is refused, wherever
  -- in the text it stands and whatever the case table makes of the characters beyond ASCII.
  pub validate_statement-pragma :
      (stmt : Statement J) (p : List ℕ)
      → map ascii_upper p ≡ pragma
      → Occurs p (codes stmt.sql)
      → ¬ (validate_statement upper stmt ≡ ok tt)
  validate_statement-pragma stmt p is o accepted =
      ((validate_statement_iff upper stmt).0 accepted).2 (normalized-Occurs stmt p is o)
