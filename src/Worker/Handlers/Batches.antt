-- ===== src/Worker/Handlers/Batches.antt =====
-- An `ExecBatch` request as a whole: the state of the database, the checks, the execution.
use sqlite_daemon.Prelude.{
  ◌≡◌, refl, sym, ap, List, [], ◌∷◌, Option-cases, inl, inr, arith, subst, All, ◌⊎◌, String,
}
use sqlite_daemon.Platform.{Platform}
use sqlite_daemon.Protocol.{exec_batch, Statement, TransactionMode, Response}
use sqlite_daemon.Worker.State.{DatabaseState, opened, preparing, closed, WorkerState}
use sqlite_daemon.Worker.Validate.{first_refused}
use sqlite_daemon.Worker.Validate.Accepts.{IsAccepted, Reports, Found, first_refused-Found}
use sqlite_daemon.Worker.Sqlite.{TransactionLaws}
use sqlite_daemon.Worker.Batch.{execute_atomic_batch, execute_separate_batch}
use sqlite_daemon.Worker.Batch.Outcome.{AllPlain}
use sqlite_daemon.Worker.Batch.Atomic.{AtomicOutcome, execute_atomic_batch-AtomicOutcome}
use sqlite_daemon.Worker.Handlers.{
  execute_batch, validate_and_execute, handle_exec_batch, handle_request,
}

module _ (P : Platform) where
  open P use {json, upper}
  open P.sqlx use {World, Pool}

  -- What a transaction mode asks for: one transaction for all, or each statement by itself
  abbrev pub Executed :
      TransactionMode → List (Statement json) → Pool → World → Response × World → Type 0
  Executed TransactionMode.atomic stmts pool w x = x ≡ execute_atomic_batch P stmts pool w
  Executed TransactionMode.none stmts pool w x = x ≡ execute_separate_batch P stmts pool w

  execute_batch-Executed :
      (tx : TransactionMode) (stmts : List (Statement json)) (pool : Pool) (w : World)
      (x : Response × World)
      → x ≡ execute_batch P stmts tx pool w
      → Executed tx stmts pool w x
  unfolding execute_batch
  execute_batch-Executed TransactionMode.atomic stmts pool w x e = e
  execute_batch-Executed TransactionMode.none stmts pool w x e = e

  -- A batch that is not empty is executed, as the transaction mode says, if all of its statements are
  -- accepted; else nothing is called, and the response reports the first that is refused.
  abbrev pub Checked :
      List (Statement json) → TransactionMode → Pool → World → Response × World → Type 0
  Checked stmts tx pool w x =
      (All (IsAccepted upper) stmts × Executed tx stmts pool w x)
      ⊎ (Reports upper 0 stmts x.0 × (x.1 ≡ w))

  validate_and_execute-Checked :
      (stmt : Statement json) (stmts : List (Statement json)) (tx : TransactionMode) (pool : Pool)
      (w : World)
      → Checked (stmt ∷ stmts) tx pool w (validate_and_execute P (stmt ∷ stmts) tx pool w)
  unfolding validate_and_execute
  validate_and_execute-Checked stmt stmts tx pool w =
      let o = first_refused upper 0 (stmt ∷ stmts) in
      let found = first_refused-Found upper 0 (stmt ∷ stmts) in
      elim (Option-cases o) [
        | inl e ↦ inl (
          subst (Found upper 0 (stmt ∷ stmts)) e found,
          execute_batch-Executed tx (stmt ∷ stmts) pool w _ (ground arith),
        )
        | inr (r, e) ↦
            let p : validate_and_execute P (stmt ∷ stmts) tx pool w ≡ (r, w) = ground arith in
            let reports : Reports upper 0 (stmt ∷ stmts) r =
              subst (Found upper 0 (stmt ∷ stmts)) e found in
            inr (
              subst (Reports upper 0 (stmt ∷ stmts)) (sym (ap (λ (x : Response × World). x.0) p))
                  reports,
              ap (λ (x : Response × World). x.1) p,
            )
      ]

  -- On an open database, a batch that is not empty is executed if all of its statements are accepted: an
  -- atomic one by `execute_atomic_batch`, one of mode none by `execute_separate_batch`; otherwise the response reports the first that is refused, with its index
  -- and the reason, and the outside world is as it was.
  pub handle_exec_batch-Checked :
      (stmt : Statement json) (stmts : List (Statement json)) (tx : TransactionMode) (pool : Pool)
      (state : WorkerState P) (w : World)
      → state.db_state ≡ opened pool
      → Checked (stmt ∷ stmts) tx pool w (handle_exec_batch P (stmt ∷ stmts) tx state w)
  unfolding handle_exec_batch
  handle_exec_batch-Checked stmt stmts tx pool state w is =
      let p : handle_exec_batch P (stmt ∷ stmts) tx state w
          ≡ validate_and_execute P (stmt ∷ stmts) tx pool w =
        ground arith in
      subst (Checked (stmt ∷ stmts) tx pool w) (sym p)
        (validate_and_execute-Checked stmt stmts tx pool w)

  module _ (L : TransactionLaws P.sqlx) where
    open L use {committed, Content}

    refused-AtomicOutcome :
        (stmts : List (Statement json)) (c d : Content) (r : Response)
        → Reports upper 0 stmts r
        → d ≡ c
        → AtomicOutcome P L stmts c r d
    refused-AtomicOutcome stmts c d r reports same =
        subst (λ x. AtomicOutcome P L stmts c x d) (sym reports.6) same

    Checked-AtomicOutcome :
        (stmts : List (Statement json)) (pool : Pool) (w : World) (x : Response × World)
        → AllPlain P L stmts
        → Checked stmts TransactionMode.atomic pool w x
        → AtomicOutcome P L stmts (committed w) x.0 (committed x.1)
    Checked-AtomicOutcome stmts pool w x plain (inl (good, e)) =
        subst (λ y. AtomicOutcome P L stmts (committed w) y.0 (committed y.1)) (sym e)
          (execute_atomic_batch-AtomicOutcome P L stmts pool w plain)
    Checked-AtomicOutcome stmts pool w x plain (inr (reports, e)) =
        refused-AtomicOutcome stmts (committed w) (committed x.1) x.0 reports (ap committed e)

    exec_batch-AtomicOutcome :
        (stmts : List (Statement json)) (d : DatabaseState P) (state : WorkerState P) (w : World)
        → AllPlain P L stmts
        → let (r, w') =
            handle_exec_batch P stmts TransactionMode.atomic (record state { db_state = d }) w in
          AtomicOutcome P L stmts (committed w) r (committed w')
    unfolding handle_exec_batch
    exec_batch-AtomicOutcome stmts preparing state w plain = refl
    exec_batch-AtomicOutcome stmts closed state w plain = refl
    exec_batch-AtomicOutcome [] (opened pool) state w plain = unfold validate_and_execute in refl
    exec_batch-AtomicOutcome (stmt ∷ stmts) (opened pool) state w plain =
        Checked-AtomicOutcome (stmt ∷ stmts) pool w _ plain
          (validate_and_execute-Checked stmt stmts TransactionMode.atomic pool w)

    -- An atomic `ExecBatch` of plain statements, in any state of the worker: a successful response
    -- means that all of the statements ran in order on the committed content, that `rows_affected` is
    -- the sum of their rows on u64, that the update of the revision ran after them and all this is
    -- committed, and that `rev` is the revision it shows. An error response, whichever it is, means
    -- that the committed content is what it was. No other response is given.
    pub handle_request-AtomicOutcome :
        (db : String) (stmts : List (Statement json)) (state : WorkerState P) (w : World)
        → AllPlain P L stmts
        → let ((r, s), w') =
            handle_request P (exec_batch db stmts TransactionMode.atomic) state w in
          AtomicOutcome P L stmts (committed w) r (committed w')
    unfolding handle_request
    handle_request-AtomicOutcome db stmts state w plain =
        exec_batch-AtomicOutcome stmts state.db_state state w plain
