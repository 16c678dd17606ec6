-- ===== src/Worker/Batch/Atomic.antt =====
-- `execute_atomic_batch` against its specification.
use sqlite_daemon.Prelude.{
  ℕ, ◌≡◌, sym, ap, ◌∙◌, List, some, ℤ, ok, Result-cases, inl, inr, arith, subst, subst₂,
}
use sqlite_daemon.Platform.{Platform}
use sqlite_daemon.Protocol.{Statement, Response, ResponseData}
use sqlite_daemon.Protocol.Responses.{ok_exec, error, error_with_code}
use sqlite_daemon.Worker.Database.{update_meta, bump_revision_in_tx, checkpoint_wal_passive}
use sqlite_daemon.Worker.Sqlite.{TransactionLaws}
use sqlite_daemon.Worker.Batch.{
  statement_error, execute_statements_in_tx, execute_begun, execute_atomic_batch,
}
use sqlite_daemon.Worker.Batch.Outcome.{
  queries, AllPlain, RunsAll, LoopOutcome, execute_from-LoopOutcome, execute_from_keeps,
}

module _ (P : Platform) (L : TransactionLaws P.sqlx) where
  open P use {json}
  open P.sqlx use {
    World, Pool, Transaction, execute_tx, fetch_one_tx, begin, commit, drop_tx, unix_timestamp,
    to_string,
  }
  open L use {
    committed, pending, Content, Runs, rev_of, begin_committed, begin_pending, execute_tx_committed,
    execute_tx_runs, fetch_tx_committed, fetch_tx_pending, fetch_tx_rev, commit_ok, commit_err,
    drop_committed, clock_committed, clock_pending, passive_committed, update_plain,
  }

  -- The content after the batch and one run of the revision's update, which shows `rev`.
  abbrev pub BatchThenBump : List (Statement json) → Content → ℕ → ℤ → Content → Type 0
  BatchThenBump stmts c rows rev d =
      (e : Content) × (ts : ℤ) × (n : ℕ) × RunsAll P L (queries P L stmts) 0 c rows e
      × Runs (update_meta ts) e n d
      × (rev_of d ≡ some rev)

  -- What the committed contents before and after show beside each response.
  abbrev pub AtomicOutcome : List (Statement json) → Content → Response → Content → Type 0
  AtomicOutcome stmts c (Response.ok (ResponseData.exec_batch rev rows)) d =
      BatchThenBump stmts c rows rev d
  AtomicOutcome stmts c (Response.ok _) d = ⊥
  AtomicOutcome stmts c (Response.error message code) d = d ≡ c

  bump_revision_in_tx-committed :
      (tx : Transaction) (w : World) → committed (bump_revision_in_tx P tx w).1 ≡ committed w
  unfolding bump_revision_in_tx
  bump_revision_in_tx-committed tx w =
      let (ts, w₁) = unix_timestamp w in
      let w₂ = (execute_tx tx (update_meta ts) w₁).1 in
      ground (
        arith,
        clock_committed w,
        execute_tx_committed tx (update_meta ts) w₁ (update_plain ts),
        fetch_tx_committed tx w₂,
      )

  bump_revision_in_tx_runs :
      (tx : Transaction) (w : World) (rev : ℤ)
      → (bump_revision_in_tx P tx w).0 ≡ ok rev
      → let d = pending tx (bump_revision_in_tx P tx w).1 in
        (ts : ℤ) × (n : ℕ) × Runs (update_meta ts) (pending tx w) n d × (rev_of d ≡ some rev)
  unfolding bump_revision_in_tx
  bump_revision_in_tx_runs tx w rev h =
      let (ts, w₁) = unix_timestamp w in
      let (r, w₂) = execute_tx tx (update_meta ts) w₁ in
      elim (Result-cases r) [
        | inl (n, e) ↦
            let p : pending tx (bump_revision_in_tx P tx w).1 ≡ pending tx w₂ =
              ground (arith, fetch_tx_pending tx w₂) in
            let ran = execute_tx_runs tx (update_meta ts) w₁ n (update_plain ts) e in
            (
              ts,
              n,
              subst₂ (λ c d. Runs (update_meta ts) c n d) (clock_pending tx w) (sym p) ran,
              ap rev_of p ∙ fetch_tx_rev tx w₂ rev (ground arith),
            )
        | inr (x, e) ↦ absurd (ground arith)
      ]

  pub checkpoint_wal_passive-committed :
      (pool : Pool) (w : World) → committed (checkpoint_wal_passive P pool w).1 ≡ committed w
  unfolding checkpoint_wal_passive
  checkpoint_wal_passive-committed pool w = ground (arith, passive_committed pool w)

  module _ (stmts : List (Statement json)) (tx : Transaction) (w : World)
      (plain : AllPlain P L stmts) where
    loop-committed : committed (execute_statements_in_tx P stmts tx w).1 ≡ committed w
    unfolding execute_statements_in_tx
    loop-committed =
        execute_from_keeps P L (execute_tx tx) committed (λ q v h. execute_tx_committed tx q v h)
          stmts 0 0 w plain

    loop_runs :
        (rows : ℕ)
        → (execute_statements_in_tx P stmts tx w).0 ≡ ok rows
        → RunsAll P L
            (queries P L stmts)
            0
            (pending tx w)
            rows
            (pending tx (execute_statements_in_tx P stmts tx w).1)
    unfolding execute_statements_in_tx
    loop_runs rows h =
        subst
          (λ r.
            LoopOutcome P L (λ _ _ _. Unit {0}) stmts 0 0 (pending tx w) r
              (pending tx (execute_statements_in_tx P stmts tx w).1))
          h
          (execute_from-LoopOutcome P L (execute_tx tx) (pending tx)
            (λ q v n h. execute_tx_runs tx q v n h) (λ _ _ _. Unit) (λ q v e p h. tt) stmts 0 0 w
            plain)

  -- The transaction from `begin` on, where it reads what is committed.
  execute_begun-AtomicOutcome :
      (stmts : List (Statement json)) (pool : Pool) (tx : Transaction) (w : World)
      → AllPlain P L stmts
      → pending tx w ≡ committed w
      → let (r, w') = execute_begun P stmts pool tx w in
        AtomicOutcome stmts (committed w) r (committed w')
  unfolding execute_begun
  execute_begun-AtomicOutcome stmts pool tx w plain reads =
      let (r, w₁) = execute_statements_in_tx P stmts tx w in
      let (s, w₂) = bump_revision_in_tx P tx w₁ in
      let (c, w₃) = commit tx w₂ in
      let same₁ = loop-committed stmts tx w plain in
      let same₂ = bump_revision_in_tx-committed tx w₁ ∙ same₁ in
      let leaf =
        λ (x : Response × World) (p : execute_begun P stmts pool tx w ≡ x)
            (o : AtomicOutcome stmts (committed w) x.0 (committed x.1)).
          subst (λ y. AtomicOutcome stmts (committed w) y.0 (committed y.1)) (sym p) o in
      elim (Result-cases r) [
        | inr (x, e) ↦
            leaf (statement_error P x, (drop_tx tx w₁).1) (ground arith)
              (drop_committed tx w₁ ∙ same₁)
        | inl (rows, e) ↦ elim (Result-cases s) [
          | inr (x, f) ↦
              leaf (error "Failed to update revision", (drop_tx tx w₂).1) (ground arith)
                (drop_committed tx w₂ ∙ same₂)
          | inl (rev, f) ↦ elim (Result-cases c) [
            | inr (x, g) ↦
                leaf (error_with_code (to_string x) "TX_COMMIT_FAILED", (drop_tx tx w₃).1)
                  (ground arith) (drop_committed tx w₃ ∙ commit_err tx w₂ x g ∙ same₂)
            | inl (u, g) ↦
                let (ts, n, ran, shows) = bump_revision_in_tx_runs tx w₁ rev f in
                let all = loop_runs stmts tx w plain rows e in
                let last = checkpoint_wal_passive-committed pool w₃ ∙ commit_ok tx w₂ g in
                leaf (ok_exec rev rows, (checkpoint_wal_passive P pool w₃).1) (ground arith)
                  (
                    pending tx w₁,
                    ts,
                    n,
                    subst (λ d. RunsAll P L (queries P L stmts) 0 d rows (pending tx w₁)) reads all,
                    subst (λ d. Runs (update_meta ts) (pending tx w₁) n d) (sym last) ran,
                    ap rev_of last ∙ shows,
                  )
          ]
        ]
      ]

  -- Of a batch of plain statements: a successful response means that all of the statements ran in
  -- order on the committed content, that `rows` is the sum of their rows on u64, that the update
  -- of the revision ran after them, and that `rev` is the revision then committed. Any error
  -- response means that the committed content is what it was.
  pub execute_atomic_batch-AtomicOutcome :
      (stmts : List (Statement json)) (pool : Pool) (w : World)
      → AllPlain P L stmts
      → let (r, w') = execute_atomic_batch P stmts pool w in
        AtomicOutcome stmts (committed w) r (committed w')
  unfolding execute_atomic_batch
  execute_atomic_batch-AtomicOutcome stmts pool w plain =
      let (b, w₁) = begin pool w in
      let leaf =
        λ (x : Response × World) (p : execute_atomic_batch P stmts pool w ≡ x)
            (o : AtomicOutcome stmts (committed w) x.0 (committed x.1)).
          subst (λ y. AtomicOutcome stmts (committed w) y.0 (committed y.1)) (sym p) o in
      elim (Result-cases b) [
        | inr (x, e) ↦
            leaf (error_with_code (to_string x) "TX_BEGIN_FAILED", w₁) (ground arith)
              (begin_committed pool w)
        | inl (tx, e) ↦
            let same = begin_committed pool w in
            let x = execute_begun P stmts pool tx w₁ in
            leaf x (ground arith) (
              subst (λ c. AtomicOutcome stmts c x.0 (committed x.1)) same
                (execute_begun-AtomicOutcome stmts pool tx w₁ plain
                  (begin_pending pool w tx e ∙ sym same)))
      ]
