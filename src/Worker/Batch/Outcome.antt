-- ===== src/Worker/Batch/Outcome.antt =====
-- The statement loop against a specification: the queries run one after the other.
use sqlite_daemon.Prelude.{
  ℕ, suc, ◌+◌, ◌≡◌, refl, sym, ap, ◌∙◌, List, [], ◌∷◌, map, take, get_elem?, some, u64_add, Result,
  ok, err, Io, All, arith, subst, inl, inr, Result-cases,
}
use sqlite_daemon.Platform.{Platform}
use sqlite_daemon.Protocol.{Statement}
use sqlite_daemon.Sqlx.{Query}
use sqlite_daemon.Worker.Sqlite.{TransactionLaws}
use sqlite_daemon.Worker.Batch.{statement_query, execute_from}
use sqlite_daemon.Worker.Batch.Steps.{execute_from_step_ok, execute_from_step_err}

module _ (P : Platform) (L : TransactionLaws P.sqlx) where
  open P use {json}
  open P.sqlx use {World, Error}
  open L use {Content, Runs, IsPlain}

  abbrev pub queries : List (Statement json) → List (Query json.Float)
  queries = map (statement_query json)

  abbrev pub AllPlain : List (Statement json) → Type 0
  AllPlain stmts = All IsPlain (queries stmts)

  -- The queries, run in order from the content `c` with `t` rows counted, end in `d` with `u`.
  abbrev pub RunsAll : List (Query json.Float) → ℕ → Content → ℕ → Content → Type 0
  RunsAll [] t c u d = (u ≡ t) × (d ≡ c)
  RunsAll (q ∷ qs) t c u d = (n : ℕ) × (e : Content) × Runs q c n e × RunsAll qs (u64_add t n) e u d

  -- What the loop from index `i` with `t` rows has done to the content `c`: all of the queries, or,
  -- with the index of the failed one, those before it and then what a failed one leaves behind.
  abbrev pub LoopOutcome :
      (Query json.Float → Content → Content → Type 0)
      → List (Statement json)
      → ℕ
      → ℕ
      → Content
      → Result (ℕ × Error) ℕ
      → Content
      → Type 0
  LoopOutcome Leaves stmts i t c (ok u) d = RunsAll (queries stmts) t c u d
  LoopOutcome Leaves stmts i t c (err (j, x)) d =
      (k : ℕ) × (u : ℕ) × (e : Content) × (q : Query json.Float) × (j ≡ i + k)
      × (get_elem? (queries stmts) k ≡ some q)
      × RunsAll (take k (queries stmts)) t c u e
      × Leaves q e d

  LoopOutcome-cons :
      (stmt : Statement json) (stmts : List (Statement json)) (i t n : ℕ) (c e d : Content)
      (r : Result (ℕ × Error) ℕ) (Leaves : Query json.Float → Content → Content → Type 0)
      → Runs (statement_query json stmt) c n e
      → LoopOutcome Leaves stmts (suc i) (u64_add t n) e r d
      → LoopOutcome Leaves (stmt ∷ stmts) i t c r d
  LoopOutcome-cons stmt stmts i t n c e d (ok u) Leaves ran rest = (n, e, ran, rest)
  LoopOutcome-cons stmt stmts i t n c e d (err (j, x)) Leaves ran
        (k, u, f, q, at, there, rest, left) =
      (suc k, u, f, q, omega arith, there, (n, e, ran, rest), left)

  -- `view` shows the effect of what runs a query.
  module _ (run : Query json.Float → Io World (Result Error ℕ)) (view : World → Content)
      (runs : (q : Query json.Float) (w : World) (n : ℕ)
        → IsPlain q
        → (run q w).0 ≡ ok n
        → Runs q (view w) n (view (run q w).1))
      (Leaves : Query json.Float → Content → Content → Type 0)
      (fails : (q : Query json.Float) (w : World) (e : Error)
        → IsPlain q
        → (run q w).0 ≡ err e
        → Leaves q (view w) (view (run q w).1)) where
    pub execute_from-LoopOutcome :
        (stmts : List (Statement json)) (i t : ℕ) (w : World)
        → AllPlain stmts
        → let (r, w') = execute_from P run i t stmts w in
          LoopOutcome Leaves stmts i t (view w) r (view w')
    unfolding execute_from
    execute_from-LoopOutcome [] i t w plain = (refl, refl)
    execute_from-LoopOutcome (stmt ∷ stmts) i t w (plain, rest) =
        let q = statement_query json stmt in
        elim (Result-cases (run q w).0) [
          | inl (n, e) ↦
              subst (λ x. LoopOutcome Leaves (stmt ∷ stmts) i t (view w) x.0 (view x.1))
                (sym (execute_from_step_ok P run stmt stmts i t w n e))
                (LoopOutcome-cons stmt stmts i t n _ _ _ _ Leaves (runs q w n plain e)
                  (execute_from-LoopOutcome stmts (suc i) (u64_add t n) (run q w).1 rest))
          | inr (x, e) ↦
              subst (λ x. LoopOutcome Leaves (stmt ∷ stmts) i t (view w) x.0 (view x.1))
                (sym (execute_from_step_err P run stmt stmts i t w x e))
                (0, t, view w, q, omega arith, refl, (refl, refl), fails q w x plain e)
        ]

  -- What every plain query leaves alone, the loop leaves alone.
  module _ {X : Type 0} (run : Query json.Float → Io World (Result Error ℕ)) (kept : World → X)
      (keeps : (q : Query json.Float) (w : World) → IsPlain q → kept (run q w).1 ≡ kept w) where
    pub execute_from_keeps :
        (stmts : List (Statement json)) (i t : ℕ) (w : World)
        → AllPlain stmts
        → kept (execute_from P run i t stmts w).1 ≡ kept w
    unfolding execute_from
    execute_from_keeps [] i t w plain = refl
    execute_from_keeps (stmt ∷ stmts) i t w (plain, rest) =
        let q = statement_query json stmt in
        elim (Result-cases (run q w).0) [
          | inl (n, e) ↦
              ap (λ x. kept x.1) (execute_from_step_ok P run stmt stmts i t w n e)
              ∙ execute_from_keeps stmts (suc i) (u64_add t n) (run q w).1 rest
              ∙ keeps q w plain
          | inr (x, e) ↦
              ap (λ y. kept y.1) (execute_from_step_err P run stmt stmts i t w x e)
              ∙ keeps q w plain
        ]
