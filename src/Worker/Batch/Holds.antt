-- ===== src/Worker/Batch/Holds.antt =====
-- daemon/src/worker.rs: which pools are held across a batch, and across the other queries on a pool.
use sqlite_daemon.Prelude.{
  ℕ, suc, ◌≡◌, refl, ap, ◌∙◌, List, [], ◌∷◌, u64_add, Result, Io, Result-cases, inl, inr, arith,
}
use sqlite_daemon.Platform.{Platform}
use sqlite_daemon.Protocol.{Statement}
use sqlite_daemon.Sqlx.{Query}
use sqlite_daemon.Worker.Database.{
  select_rev, update_meta, checkpoint_truncate, checkpoint_passive, get_current_rev, bump_revision,
  bump_revision_in_tx, checkpoint_wal, checkpoint_wal_passive,
}
use sqlite_daemon.Worker.Sqlite.{PoolLaws}
use sqlite_daemon.Worker.Batch.{
  statement_query, execute_from, execute_statements_in_tx, execute_statements_in_pool,
  execute_begun, execute_atomic_batch, execute_separate_batch,
}
use sqlite_daemon.Worker.Batch.Steps.{execute_from_step_ok, execute_from_step_err}

module _ (P : Platform) (L : PoolLaws P.sqlx) where
  open P use {json}
  open P.sqlx use {
    World, Error, Pool, Transaction, execute, execute_tx, fetch_one_tx, begin, commit, drop_tx,
    unix_timestamp,
  }
  open L use {
    Holds, execute_holds, fetch_holds, begin_holds, execute_tx_holds, fetch_tx_holds, commit_holds,
    drop_tx_holds, clock_holds,
  }

  execute_from-Holds :
      (run : Query json.Float → Io World (Result Error ℕ))
      (keeps : (q : Query json.Float) (w : World) → Holds (run q w).1 ≡ Holds w)
      (stmts : List (Statement json)) (i t : ℕ) (w : World)
      → Holds (execute_from P run i t stmts w).1 ≡ Holds w
  unfolding execute_from
  execute_from-Holds run keeps [] i t w = refl
  execute_from-Holds run keeps (stmt ∷ stmts) i t w =
      let q = statement_query json stmt in
      elim (Result-cases (run q w).0) [
        | inl (n, e) ↦
            ap (λ x. Holds x.1) (execute_from_step_ok P run stmt stmts i t w n e)
            ∙ execute_from-Holds run keeps stmts (suc i) (u64_add t n) (run q w).1
            ∙ keeps q w
        | inr (x, e) ↦
            ap (λ y. Holds y.1) (execute_from_step_err P run stmt stmts i t w x e) ∙ keeps q w
      ]

  pub get_current_rev-Holds :
      (pool : Pool) (w : World) → Holds (get_current_rev P pool w).1 ≡ Holds w
  unfolding get_current_rev
  get_current_rev-Holds pool w = ground (arith, fetch_holds pool select_rev w)

  pub checkpoint_wal-Holds : (pool : Pool) (w : World) → Holds (checkpoint_wal P pool w).1 ≡ Holds w
  unfolding checkpoint_wal
  checkpoint_wal-Holds pool w = ground (arith, execute_holds pool checkpoint_truncate w)

  checkpoint_wal_passive-Holds :
      (pool : Pool) (w : World) → Holds (checkpoint_wal_passive P pool w).1 ≡ Holds w
  unfolding checkpoint_wal_passive
  checkpoint_wal_passive-Holds pool w = ground (arith, execute_holds pool checkpoint_passive w)

  bump_revision-Holds : (pool : Pool) (w : World) → Holds (bump_revision P pool w).1 ≡ Holds w
  unfolding bump_revision
  bump_revision-Holds pool w =
      let (ts, w₁) = unix_timestamp w in
      let w₂ = (execute pool (update_meta ts) w₁).1 in
      ground (
        arith,
        clock_holds w,
        execute_holds pool (update_meta ts) w₁,
        fetch_holds pool select_rev w₂,
      )

  bump_revision_in_tx-Holds :
      (tx : Transaction) (w : World) → Holds (bump_revision_in_tx P tx w).1 ≡ Holds w
  unfolding bump_revision_in_tx
  bump_revision_in_tx-Holds tx w =
      let (ts, w₁) = unix_timestamp w in
      let w₂ = (execute_tx tx (update_meta ts) w₁).1 in
      ground (
        arith,
        clock_holds w,
        execute_tx_holds tx (update_meta ts) w₁,
        fetch_tx_holds tx select_rev w₂,
      )

  execute_begun-Holds :
      (stmts : List (Statement json)) (pool : Pool) (tx : Transaction) (w : World)
      → Holds (execute_begun P stmts pool tx w).1 ≡ Holds w
  unfolding execute_begun execute_statements_in_tx
  execute_begun-Holds stmts pool tx w =
      let w₁ = (execute_statements_in_tx P stmts tx w).1 in
      let w₂ = (bump_revision_in_tx P tx w₁).1 in
      let w₃ = (commit tx w₂).1 in
      ground (
        arith,
        execute_from-Holds (execute_tx tx) (execute_tx_holds tx) stmts 0 0 w,
        drop_tx_holds tx w₁,
        bump_revision_in_tx-Holds tx w₁,
        drop_tx_holds tx w₂,
        commit_holds tx w₂,
        drop_tx_holds tx w₃,
        checkpoint_wal_passive-Holds pool w₃,
      )

  pub execute_atomic_batch-Holds :
      (stmts : List (Statement json)) (pool : Pool) (w : World)
      → Holds (execute_atomic_batch P stmts pool w).1 ≡ Holds w
  unfolding execute_atomic_batch
  execute_atomic_batch-Holds stmts pool w =
      let (b, w₁) = begin pool w in
      elim (Result-cases b) [
        | inl (tx, e) ↦ ground (arith, begin_holds pool w, execute_begun-Holds stmts pool tx w₁)
        | inr (x, e) ↦ ground (arith, begin_holds pool w)
      ]

  pub execute_separate_batch-Holds :
      (stmts : List (Statement json)) (pool : Pool) (w : World)
      → Holds (execute_separate_batch P stmts pool w).1 ≡ Holds w
  unfolding execute_separate_batch execute_statements_in_pool
  execute_separate_batch-Holds stmts pool w =
      let w₁ = (execute_statements_in_pool P stmts pool w).1 in
      let w₂ = (bump_revision P pool w₁).1 in
      ground (
        arith,
        execute_from-Holds (execute pool) (execute_holds pool) stmts 0 0 w,
        bump_revision-Holds pool w₁,
        checkpoint_wal_passive-Holds pool w₂,
      )
