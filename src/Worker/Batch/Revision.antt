-- ===== src/Worker/Batch/Revision.antt =====
-- The revision that a successful batch answers with.
use sqlite_daemon.Prelude.{
  ℕ, ◌≡◌, ◌≢◌, ◌∙◌, List, [], ◌∷◌, All, some, ℤ, pos, i64_max, ◌+ℤ◌, u64_add, subst, ap,
}
use sqlite_daemon.Platform.{Platform}
use sqlite_daemon.Protocol.{Statement}
use sqlite_daemon.Protocol.Responses.{ok_exec}
use sqlite_daemon.Sqlx.{Query}
use sqlite_daemon.Worker.Sqlite.{TransactionLaws}
use sqlite_daemon.Worker.Batch.{execute_atomic_batch, execute_separate_batch}
use sqlite_daemon.Worker.Batch.Outcome.{queries, AllPlain, RunsAll}
use sqlite_daemon.Worker.Batch.Atomic.{
  BatchThenBump, AtomicOutcome, execute_atomic_batch-AtomicOutcome,
}
use sqlite_daemon.Worker.Batch.Separate.{SeparateOutcome, execute_separate_batch-SeparateOutcome}

module _ (P : Platform) (L : TransactionLaws P.sqlx) where
  open P use {json}
  open P.sqlx use {World, Pool}
  open L use {committed, Content, Runs, rev_of, update_rev}

  -- The query does not touch the revision.
  abbrev pub KeepsRev : Query json.Float → Type 0
  KeepsRev q = (c d : Content) (n : ℕ) → Runs q c n d → rev_of d ≡ rev_of c

  RunsAll-rev :
      (qs : List (Query json.Float)) (t u : ℕ) (c d : Content)
      → All KeepsRev qs
      → RunsAll P L qs t c u d
      → rev_of d ≡ rev_of c
  RunsAll-rev [] t u c d keeps (rows, same) = ap rev_of same
  RunsAll-rev (q ∷ qs) t u c d (keep, keeps) (n, e, ran, rest) =
      RunsAll-rev qs (u64_add t n) u e d keeps rest ∙ keep c e n ran

  BatchThenBump-rev :
      (stmts : List (Statement json)) (c d : Content) (rows : ℕ) (old rev : ℤ)
      → All KeepsRev (queries P L stmts)
      → rev_of c ≡ some old
      → old ≢ i64_max
      → BatchThenBump P L stmts c rows rev d
      → rev ≡ old +ℤ pos 1
  BatchThenBump-rev stmts c d rows old rev keeps at_old small (e, ts, n, all, bump, shows) =
      let kept = RunsAll-rev (queries P L stmts) 0 rows c e keeps all in
      cc (shows, update_rev ts e d n old bump (kept ∙ at_old) small)

  module _ (stmts : List (Statement json)) (pool : Pool) (w : World) (rev old : ℤ) (rows : ℕ)
      (plain : AllPlain P L stmts) (keeps : All KeepsRev (queries P L stmts))
      (at_old : rev_of (committed w) ≡ some old) (small : old ≢ i64_max) where
    -- A successful atomic batch of plain statements that do not touch the revision answers with
    -- the committed revision plus one, if that is not the largest i64, and that is then committed.
    pub execute_atomic_batch-rev :
        (execute_atomic_batch P stmts pool w).0 ≡ ok_exec rev rows
        → (rev ≡ old +ℤ pos 1)
          × (rev_of (committed (execute_atomic_batch P stmts pool w).1) ≡ some rev)
    execute_atomic_batch-rev h =
        let d = committed (execute_atomic_batch P stmts pool w).1 in
        let o =
          subst (λ r. AtomicOutcome P L stmts (committed w) r d) h
            (execute_atomic_batch-AtomicOutcome P L stmts pool w plain) in
        (BatchThenBump-rev stmts (committed w) d rows old rev keeps at_old small o, o.5)

    -- The same of a batch in separate transactions.
    pub execute_separate_batch-rev :
        (execute_separate_batch P stmts pool w).0 ≡ ok_exec rev rows
        → (rev ≡ old +ℤ pos 1)
          × (rev_of (committed (execute_separate_batch P stmts pool w).1) ≡ some rev)
    execute_separate_batch-rev h =
        let d = committed (execute_separate_batch P stmts pool w).1 in
        let o =
          subst (λ r. SeparateOutcome P L stmts (committed w) r d) h
            (execute_separate_batch-SeparateOutcome P L stmts pool w plain) in
        (BatchThenBump-rev stmts (committed w) d rows old rev keeps at_old small o, o.5)
