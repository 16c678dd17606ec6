-- ===== src/Actor/Same.antt =====
-- daemon/src/worker.rs against daemon/src/actor.rs and daemon/src/db.rs: what the worker has kept.
use sqlite_daemon.Prelude.{
  ℕ, String, ◌≡◌, refl, List, ℤ, ok, err, Result-cases, Io, pure, ◌>>=◌, ◌>>◌, inl, inr, ◌⊎◌, arith,
  subst,
}
use sqlite_daemon.Platform.{Platform}
use sqlite_daemon.Protocol.{Statement, Response}
use sqlite_daemon.Protocol.Responses.{ok_exec, error, error_with_code}
use sqlite_daemon.Worker.Database.{
  init_database, checkpoint_wal_passive, bump_revision_in_tx, select_rev, update_meta,
}
use sqlite_daemon.Worker.Batch.{
  execute_atomic_batch, execute_begun, execute_from, execute_statements_in_tx,
}
use sqlite_daemon.Actor.Database.{init_db}
use sqlite_daemon.Actor.{actor_atomic_batch, actor_commit}

module _ (P : Platform) where
  open P.sqlx use {
    World, Pool, Transaction, begin, execute_tx, unix_timestamp, fetch_one_tx, commit, drop_tx,
    to_string,
  }
  open P use {json}

  -- The two ways to open a database are the same.
  pub init_db-same : (path : String) (w : World) → init_db P path w ≡ init_database P path w
  unfolding init_db init_database
  init_db-same path w = refl

  -- What the actor and the worker come to on one world: the same; or the same success, after which the
  -- worker has moved the log's pages; or an error for the same reason with another text.
  abbrev pub Agree : Pool → Response × World → Response × World → Type 0
  Agree pool (r, w) (r', w') =
      ((r' ≡ r) × (w' ≡ w))
      ⊎ (((rev : ℤ) × (rows : ℕ) × (r ≡ ok_exec rev rows)
            × (r' ≡ r)
            × (w' ≡ (checkpoint_wal_passive P pool w).1))
          ⊎ ((r ≡ error "Failed to read revision")
              × (r' ≡ error "Failed to update revision")
              × (w' ≡ w)))

  -- What the worker does after the statements.
  abbrev worker_commit : Transaction → Pool → ℕ → Io World Response
  worker_commit tx pool total_rows = do
    bumped ← bump_revision_in_tx P tx
    elim bumped [
      | err e ↦ do drop_tx tx; pure (error "Failed to update revision")
      | ok rev ↦ do
        committed ← commit tx
        elim committed [
          | err e ↦ do drop_tx tx; pure (error_with_code (to_string e) "TX_COMMIT_FAILED")
          | ok _ ↦ do checkpoint_wal_passive P pool; pure (ok_exec rev total_rows)
        ]
    ]

  actor_commit-Agree :
      (tx : Transaction) (pool : Pool) (total_rows : ℕ) (w : World)
      → Agree pool (actor_commit P tx total_rows w) (worker_commit tx pool total_rows w)
  unfolding actor_commit bump_revision_in_tx
  actor_commit-Agree tx pool total_rows w =
      let w₁ = (unix_timestamp w).1 in
      let w₂ = (execute_tx tx (update_meta (unix_timestamp w).0) w₁).1 in
      let w₃ = (fetch_one_tx tx select_rev w₂).1 in
      elim (Result-cases (execute_tx tx (update_meta (unix_timestamp w).0) w₁).0) [
        | inr (e, failed) ↦ ground arith
        | inl (n, updated) ↦ elim (Result-cases (fetch_one_tx tx select_rev w₂).0) [
          | inr (e, failed) ↦ inr (inr (ground arith, ground arith, ground arith))
          | inl (rev, fetched) ↦ elim (Result-cases (commit tx w₃).0) [
            | inr (e, failed) ↦ inl (ground arith, ground arith)
            | inl (u, committed) ↦
                inr (inl (rev, total_rows, ground arith, ground arith, ground arith))
          ]
        ]
      ]

  -- On every platform, pool and world, the actor's atomic batch and the worker's do the same in the same
  -- order up to the commit. Either both end in the same world with the same response; or both have
  -- committed and answer with the same revision and the same count of rows, and the worker has also
  -- asked for a passive checkpoint; or the revision could not be read, both end in the same world, and
  -- the two errors differ in their text.
  pub actor_atomic_batch-Agree :
      (stmts : List (Statement json)) (pool : Pool) (w : World)
      → Agree pool (actor_atomic_batch P stmts pool w) (execute_atomic_batch P stmts pool w)
  unfolding actor_atomic_batch execute_atomic_batch execute_begun execute_statements_in_tx
      bump_revision_in_tx
  actor_atomic_batch-Agree stmts pool w =
      let w₁ = (begin pool w).1 in
      elim (Result-cases (begin pool w).0) [
        | inr (e, failed) ↦ inl (ground arith, ground arith)
        | inl (tx, begun) ↦
            let w₂ = (execute_from P (execute_tx tx) 0 0 stmts w₁).1 in
            elim (Result-cases (execute_from P (execute_tx tx) 0 0 stmts w₁).0) [
              | inr (at, failed) ↦ inl (ground arith, ground arith)
              | inl (total_rows, executed) ↦
                  subst (λ x. Agree pool x (execute_atomic_batch P stmts pool w)) (ground arith)
                    (subst (Agree pool (actor_commit P tx total_rows w₂)) (ground arith)
                      (actor_commit-Agree tx pool total_rows w₂))
            ]
      ]
