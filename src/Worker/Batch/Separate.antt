-- ===== src/Worker/Batch/Separate.antt =====
-- `execute_separate_batch` against its specification.
use sqlite_daemon.Prelude.{
  ℕ, ◌≡◌, refl, sym, ap, ◌∙◌, ◌⊎◌, List, take, get_elem?, some, ℤ, Result, ok, Result-cases, inl,
  inr, arith, subst, subst₂,
}
use sqlite_daemon.Platform.{Platform}
use sqlite_daemon.Protocol.{Statement, Response, ResponseData}
use sqlite_daemon.Protocol.Responses.{ok_exec, error}
use sqlite_daemon.Worker.Database.{
  update_meta, get_current_rev, bump_revision, checkpoint_wal_passive,
}
use sqlite_daemon.Worker.Sqlite.{TransactionLaws}
use sqlite_daemon.Worker.Batch.{statement_error, execute_statements_in_pool, execute_separate_batch}
use sqlite_daemon.Worker.Batch.Outcome.{
  queries, AllPlain, RunsAll, LoopOutcome, execute_from-LoopOutcome,
}
use sqlite_daemon.Sqlx.{Query}
use sqlite_daemon.Worker.Batch.Atomic.{BatchThenBump, checkpoint_wal_passive-committed}

module _ (P : Platform) (L : TransactionLaws P.sqlx) where
  open P use {json}
  open P.sqlx use {World, Error, Pool, execute, fetch_one, unix_timestamp}
  open L use {
    committed, Content, Runs, Fails, rev_of, execute_runs, execute_err, fetch_committed, fetch_rev,
    clock_committed, update_plain,
  }

  -- The statements before the failed one are committed, and then what that one has left.
  abbrev pub PartlyRun : List (Statement json) → Content → Response → Content → Type 0
  PartlyRun stmts c response d =
      (k : ℕ) × (x : Error) × (u : ℕ) × (e : Content) × (q : Query json.Float) × (get_elem?
          (queries P L stmts) k
        ≡ some q)
      × (response ≡ statement_error P (k, x))
      × RunsAll P L (take k (queries P L stmts)) 0 c u e
      × Fails q e d

  -- The statements are all committed; the update of the revision has failed, or is committed too.
  abbrev pub RevUnknown : List (Statement json) → Content → Response → Content → Type 0
  RevUnknown stmts c response d =
      (e : Content) × (u : ℕ) × (response ≡ error "Failed to read revision")
      × RunsAll P L (queries P L stmts) 0 c u e
      × ((ts : ℤ) × (Fails (update_meta ts) e d ⊎ ((n : ℕ) × Runs (update_meta ts) e n d)))

  abbrev pub SeparateOutcome : List (Statement json) → Content → Response → Content → Type 0
  SeparateOutcome stmts c (Response.ok (ResponseData.exec_batch rev rows)) d =
      BatchThenBump P L stmts c rows rev d
  SeparateOutcome stmts c (Response.ok _) d = ⊥
  SeparateOutcome stmts c (Response.error message code) d =
      let response = Response.error message code in
      PartlyRun stmts c response d ⊎ RevUnknown stmts c response d

  get_current_rev-committed :
      (pool : Pool) (w : World) → committed (get_current_rev P pool w).1 ≡ committed w
  unfolding get_current_rev
  get_current_rev-committed pool w = ground (arith, fetch_committed pool w)

  -- A bump that fails has, or has not, run the update.
  bump_revision_runs :
      (pool : Pool) (w : World)
      → let (r, w') = bump_revision P pool w in
        ((ts : ℤ) × Fails (update_meta ts) (committed w) (committed w')
          × ((rev : ℤ) → ¬ (r ≡ ok rev)))
        ⊎ ((ts : ℤ) × (n : ℕ) × Runs (update_meta ts) (committed w) n (committed w')
            × ((rev : ℤ) → r ≡ ok rev → rev_of (committed w') ≡ some rev))
  unfolding bump_revision
  bump_revision_runs pool w =
      let (ts, w₁) = unix_timestamp w in
      let (r, w₂) = execute pool (update_meta ts) w₁ in
      elim (Result-cases r) [
        | inl (n, e) ↦
            let p : committed (bump_revision P pool w).1 ≡ committed w₂ =
              ground (arith, fetch_committed pool w₂) in
            let ran = execute_runs pool (update_meta ts) w₁ n (update_plain ts) e in
            inr (
              ts,
              n,
              subst₂ (λ c d. Runs (update_meta ts) c n d) (clock_committed w) (sym p) ran,
              λ rev h. ap rev_of p ∙ fetch_rev pool w₂ rev (ground arith),
            )
        | inr (x, e) ↦
            let p : committed (bump_revision P pool w).1 ≡ committed w₂ = ground arith in
            let failed = execute_err pool (update_meta ts) w₁ x (update_plain ts) e in
            inl (
              ts,
              subst₂ (λ c d. Fails (update_meta ts) c d) (clock_committed w) (sym p) failed,
              λ rev h. ground arith,
            )
      ]

  loop-LoopOutcome :
      (stmts : List (Statement json)) (pool : Pool) (w : World)
      → AllPlain P L stmts
      → let (r, w') = execute_statements_in_pool P stmts pool w in
        LoopOutcome P L Fails stmts 0 0 (committed w) r (committed w')
  unfolding execute_statements_in_pool
  loop-LoopOutcome stmts pool w plain =
      execute_from-LoopOutcome P L (execute pool) committed (λ q v n h. execute_runs pool q v n h)
        Fails (λ q v e p h. execute_err pool q v e p h) stmts 0 0 w plain

  -- Of plain statements: success means all of them, the update, and the revision then committed.
  -- The response "Statement k: …" means that the first `k` statements ran in order and are
  -- committed, and then what the failed one, the one at place `k`, leaves behind. The only other error
  -- means that all statements are committed, and then the update of the revision, or what it leaves
  -- behind as it fails.
  pub execute_separate_batch-SeparateOutcome :
      (stmts : List (Statement json)) (pool : Pool) (w : World)
      → AllPlain P L stmts
      → let (r, w') = execute_separate_batch P stmts pool w in
        SeparateOutcome stmts (committed w) r (committed w')
  unfolding execute_separate_batch
  execute_separate_batch-SeparateOutcome stmts pool w plain =
      let (r, w₁) = execute_statements_in_pool P stmts pool w in
      let (s, w₂) = bump_revision P pool w₁ in
      let ran = loop-LoopOutcome stmts pool w plain in
      let leaf =
        λ (x : Response × World) (p : execute_separate_batch P stmts pool w ≡ x)
            (o : SeparateOutcome stmts (committed w) x.0 (committed x.1)).
          subst (λ y. SeparateOutcome stmts (committed w) y.0 (committed y.1)) (sym p) o in
      let outcome = λ (x : Result (ℕ × Error) ℕ).
        LoopOutcome P L Fails stmts 0 0 (committed w) x (committed w₁) in
      elim (Result-cases r) [
        | inr ((j, x), e) ↦
            let (k, u, f, q, at, there, some_ran, left) = subst outcome e ran in
            let index : j ≡ k = omega arith in
            leaf (statement_error P (j, x), w₁) (ground arith)
              (inl (k, x, u, f, q, there, ap (λ i. statement_error P (i, x)) index, some_ran, left))
        | inl (rows, e) ↦
            let all = subst outcome e ran in
            elim (Result-cases s) [
              | inr (x, f) ↦
                  leaf (error "Failed to read revision", w₂) (ground arith)
                    (inr (
                      committed w₁,
                      rows,
                      refl,
                      all,
                      elim (bump_revision_runs pool w₁) [
                        | inl (ts, failed, _) ↦ (ts, inl failed)
                        | inr (ts, n, bumped, _) ↦ (ts, inr (n, bumped))
                      ],
                    ))
              | inl (rev, f) ↦ elim (bump_revision_runs pool w₁) [
                | inl (ts, _, never) ↦ absurd (never rev f)
                | inr (ts, n, bumped, shows) ↦
                    let last = checkpoint_wal_passive-committed P L pool w₂ in
                    leaf (ok_exec rev rows, (checkpoint_wal_passive P pool w₂).1) (ground arith)
                      (
                        committed w₁,
                        ts,
                        n,
                        all,
                        subst (λ d. Runs (update_meta ts) (committed w₁) n d) (sym last) bumped,
                        ap rev_of last ∙ shows rev f,
                      )
              ]
            ]
      ]
