-- ===== src/Worker/Validate/Accepts.antt =====
-- What `validate_statement` accepts, and which statement of a batch is reported.
use Prim.Native.String.{len, ◌++◌}
use sqlite_daemon.Prelude.{
  ℕ, suc, ◌+◌, ◌≤◌, ◌≡◌, ◌↔◌, refl, sym, ◌∙◌, String, List, [], ◌∷◌, Option, none, some, ok, err,
  Result-cases, inl, inr, All, take, length, get_elem?, show, arith, Bool-cases, ap, subst,
}
use sqlite_daemon.Protocol.{Json, Statement, Response}
use sqlite_daemon.Protocol.Responses.{error}
use sqlite_daemon.Text.{codes, trim, to_uppercase}
use sqlite_daemon.Text.Occurs.{contains, Occurs, contains_iff}
use sqlite_daemon.Worker.Validate.{validate_statement, first_refused}

abbrev pub pragma : List ℕ
pragma = codes "PRAGMA WRITABLE_SCHEMA"

module _ {J : Json} (upper : ℕ → List ℕ) where
  abbrev pub normalized : Statement J → List ℕ
  normalized stmt = to_uppercase upper (trim (codes stmt.sql))

  -- A statement is accepted exactly if its text has at most 100 000 bytes, it has at most 999
  -- parameters, and the pragma does not occur in its trimmed text in upper case.
  pub validate_statement_iff :
      (stmt : Statement J)
      → (validate_statement upper stmt ≡ ok tt) ↔ (
          (len stmt.sql ≤ 100_000)
          × (length stmt.params ≤ 999)
          × (¬ Occurs pragma (normalized stmt)))
  unfolding validate_statement
  validate_statement_iff stmt = (
    λ h. (
      ground arith,
      ground arith,
      λ o. ground (arith, (contains_iff pragma (normalized stmt)).1 o),
    ),
    λ h. elim (Bool-cases (contains pragma (normalized stmt))) [
      | inl e ↦ absurd (h.2 ((contains_iff pragma (normalized stmt)).0 e))
      | inr e ↦ ground arith
    ],
  )

  abbrev pub IsAccepted : Statement J → Type 0
  IsAccepted stmt = validate_statement upper stmt ≡ ok tt

  -- The response names the first statement, counted from `i`, that is refused, and why.
  abbrev pub Reports : ℕ → List (Statement J) → Response → Type 0
  Reports i stmts r =
      (k : ℕ) × (stmt : Statement J) × (reason : String) × (get_elem? stmts k ≡ some stmt)
      × (validate_statement upper stmt ≡ err reason)
      × All IsAccepted (take k stmts)
      × (r ≡ error ("Statement " ++ show (i + k) ++ ": " ++ reason))

  -- What the validation loop has found.
  abbrev pub Found : ℕ → List (Statement J) → Option Response → Type 0
  Found i stmts none = All IsAccepted stmts
  Found i stmts (some r) = Reports i stmts r

  Found-cons :
      (i : ℕ) (stmt : Statement J) (stmts : List (Statement J)) (o : Option Response)
      → IsAccepted stmt
      → Found (suc i) stmts o
      → Found i (stmt ∷ stmts) o
  Found-cons i stmt stmts none good h = (good, h)
  Found-cons i stmt stmts (some r) good (k, s, reason, at, bad, before, is) =
      let e : suc i + k ≡ i + suc k = omega arith in
      (
        suc k,
        s,
        reason,
        at,
        bad,
        (good, before),
        is ∙ ap (λ n. error ("Statement " ++ show n ++ ": " ++ reason)) e,
      )

  -- The loop passes a batch exactly if every statement is accepted; else it reports the first that
  -- is not, with its index and the reason.
  pub first_refused-Found :
      (i : ℕ) (stmts : List (Statement J)) → Found i stmts (first_refused upper i stmts)
  unfolding first_refused
  first_refused-Found i [] = tt
  first_refused-Found i (stmt ∷ stmts) = elim (Result-cases (validate_statement upper stmt)) [
    | inl (u, e) ↦
        let p : first_refused upper i (stmt ∷ stmts) ≡ first_refused upper (suc i) stmts =
          ground arith in
        subst (Found i (stmt ∷ stmts)) (sym p)
          (Found-cons i stmt stmts _ e (first_refused-Found (suc i) stmts))
    | inr (reason, e) ↦
        let r = error ("Statement " ++ show i ++ ": " ++ reason) in
        let p : first_refused upper i (stmt ∷ stmts) ≡ some r = ground arith in
        let q : i ≡ i + 0 = omega arith in
        subst (Found i (stmt ∷ stmts)) (sym p) (
          0,
          stmt,
          reason,
          refl,
          e,
          tt,
          ap (λ n. error ("Statement " ++ show n ++ ": " ++ reason)) q,
        )
  ]
