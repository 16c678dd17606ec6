-- ===== src/Worker/Handlers/Pools.antt =====
-- Which pools hold the database's files, beside the state of the worker.
use sqlite_daemon.Prelude.{
  ◌≡◌, refl, sym, String, List, [], ◌∷◌, ok, err, Result, Result-cases, Option-cases, inl, inr,
  arith, subst, subst₂,
}
use Prim.Native.String.{◌++◌}
use sqlite_daemon.Platform.{Platform}
use sqlite_daemon.Protocol.{
  Request, ping, exec_batch, prepare_for_maintenance, close_database, reopen_database, shutdown,
  Statement, TransactionMode, Response,
}
use sqlite_daemon.Worker.State.{DatabaseState, opened, preparing, closed, WorkerState}
use sqlite_daemon.Worker.Database.{
  wal_autocheckpoint, create_meta, insert_meta, connect_options, set_up, keep_or_drop,
  init_database, get_current_rev, checkpoint_wal,
}
use sqlite_daemon.Worker.Sqlite.{PoolLaws}
use sqlite_daemon.Worker.Batch.Holds.{
  get_current_rev-Holds, checkpoint_wal-Holds, execute_atomic_batch-Holds,
  execute_separate_batch-Holds,
}
use sqlite_daemon.Worker.Handlers.{
  handle_ping, validate_and_execute, handle_exec_batch, handle_prepare_maintenance,
  handle_close_database, reopen, handle_reopen_database, handle_request,
}

module _ (P : Platform) (L : PoolLaws P.sqlx) where
  open P use {json, upper}
  open P.sqlx use {World, Error, Pool, from_str, connect_with, execute, drop_pool, close, to_string}
  open L use {
    Holds, connect_holds, connect_only, connect_err, close_releases, close_only, drop_releases,
    drop_only, execute_holds,
  }

  abbrev pub NoneHeld : (Pool → Type 0) → Type 0
  NoneHeld H = (q : Pool) → ¬ H q

  abbrev pub OnlyHeld : (Pool → Type 0) → Pool → Type 0
  OnlyHeld H p = H p × ((q : Pool) → H q → q ≡ p)

  -- An open database is held by its pool and by no other; else no pool is open.
  abbrev pub HeldBy : (Pool → Type 0) → DatabaseState P → Type 0
  HeldBy H (opened p) = OnlyHeld H p
  HeldBy H preparing = NoneHeld H
  HeldBy H closed = NoneHeld H

  abbrev pub Opens : Result String Pool → (Pool → Type 0) → Type 0
  Opens (ok p) H = OnlyHeld H p
  Opens (err e) H = NoneHeld H

  set_up-Holds : (p : Pool) (w : World) → Holds (set_up P p w).1 ≡ Holds w
  unfolding set_up
  set_up-Holds p w =
      let w₁ = (execute p wal_autocheckpoint w).1 in
      let w₂ = (execute p create_meta w₁).1 in
      ground (
        arith,
        execute_holds p wal_autocheckpoint w,
        execute_holds p create_meta w₁,
        execute_holds p insert_meta w₂,
      )

  pub drop_only_held :
      (p : Pool) (w : World) → OnlyHeld (Holds w) p → NoneHeld (Holds (drop_pool p w).1)
  drop_only_held p w (_, only) q held =
      let e = only q (drop_only p q w held) in
      drop_releases p w (subst (λ r. Holds (drop_pool p w).1 r) e held)

  close_only_held : (p : Pool) (w : World) → OnlyHeld (Holds w) p → NoneHeld (Holds (close p w).1)
  close_only_held p w (_, only) q held =
      let e = only q (close_only p q w held) in
      close_releases p w (subst (λ r. Holds (close p w).1 r) e held)

  keep_or_drop-Opens :
      (p : Pool) (r : Result String (Unit {0})) (w : World)
      → OnlyHeld (Holds w) p
      → let (o, w') = keep_or_drop P p r w in Opens o (Holds w')
  unfolding keep_or_drop
  keep_or_drop-Opens p (ok u) w h = h
  keep_or_drop-Opens p (err e) w h = drop_only_held p w h

  pub init_database-Opens :
      (path : String) (w : World)
      → NoneHeld (Holds w)
      → let (o, w') = init_database P path w in Opens o (Holds w')
  unfolding init_database
  init_database-Opens path w free =
      let options = connect_options P ("sqlite:" ++ path) in
      let (c, w₁) = connect_with options w in
      let leaf =
        λ (x : Result String Pool × World) (p : init_database P path w ≡ x)
            (o : Opens x.0 (Holds x.1)).
          subst (λ y. Opens y.0 (Holds y.1)) (sym p) o in
      elim (Option-cases (from_str ("sqlite:" ++ path))) [
        | inr (x, e) ↦ leaf (err (to_string x), w) (ground arith) free
        | inl e ↦ elim (Result-cases c) [
          | inr (x, f) ↦
              leaf (err "Failed to connect to database", w₁) (ground arith)
                (λ q held. free q (connect_err options w x q f held))
          | inl (p, f) ↦
              let (s, w₂) = set_up P p w₁ in
              let only : OnlyHeld (Holds w₁) p = (
                connect_holds options w p f,
                λ q held. elim (connect_only options w p q f held) [
                  | inl same ↦ same
                  | inr old ↦ absurd (free q old)
                ],
              ) in
              leaf (keep_or_drop P p s w₂) (ground arith) (
                keep_or_drop-Opens p s w₂
                  (subst (λ H. OnlyHeld H p) (sym (set_up-Holds p w₁)) only))
        ]
      ]

  handle_ping-Holds :
      (d : DatabaseState P) (state : WorkerState P) (w : World)
      → Holds (handle_ping P (record state { db_state = d }) w).1 ≡ Holds w
  unfolding handle_ping
  handle_ping-Holds (opened p) state w = ground (arith, get_current_rev-Holds P L p w)
  handle_ping-Holds preparing state w = refl
  handle_ping-Holds closed state w = refl

  validate_and_execute-Holds :
      (stmts : List (Statement json)) (tx : TransactionMode) (p : Pool) (w : World)
      → Holds (validate_and_execute P stmts tx p w).1 ≡ Holds w
  unfolding validate_and_execute
  validate_and_execute-Holds [] tx p w = refl
  validate_and_execute-Holds (s ∷ stmts) TransactionMode.atomic p w =
      ground (arith, execute_atomic_batch-Holds P L (s ∷ stmts) p w)
  validate_and_execute-Holds (s ∷ stmts) TransactionMode.none p w =
      ground (arith, execute_separate_batch-Holds P L (s ∷ stmts) p w)

  handle_exec_batch-Holds :
      (stmts : List (Statement json)) (tx : TransactionMode) (d : DatabaseState P)
      (state : WorkerState P) (w : World)
      → Holds (handle_exec_batch P stmts tx (record state { db_state = d }) w).1 ≡ Holds w
  unfolding handle_exec_batch
  handle_exec_batch-Holds stmts tx (opened p) state w = validate_and_execute-Holds stmts tx p w
  handle_exec_batch-Holds stmts tx preparing state w = refl
  handle_exec_batch-Holds stmts tx closed state w = refl

  held_after :
      (x : (Response × WorkerState P) × World) (w : World) (d : DatabaseState P)
      → x.1 ≡ w
      → x.0.1.db_state ≡ d
      → HeldBy (Holds w) d
      → HeldBy (Holds x.1) x.0.1.db_state
  held_after x w d at is h = subst₂ (λ v c. HeldBy (Holds v) c) (sym at) (sym is) h

  handle_prepare_maintenance-HeldBy :
      (d : DatabaseState P) (state : WorkerState P) (w : World)
      → HeldBy (Holds w) d
      → let ((r, s), w') = handle_prepare_maintenance P (record state { db_state = d }) w in
        HeldBy (Holds w') s.db_state
  unfolding handle_prepare_maintenance
  handle_prepare_maintenance-HeldBy (opened p) state w h =
      let (r, w₁) = checkpoint_wal P p w in
      let open_still = subst (λ H. OnlyHeld H p) (sym (checkpoint_wal-Holds P L p w)) h in
      elim (Result-cases r) [
        | inl (u, e) ↦
            held_after (handle_prepare_maintenance P (record state { db_state = opened p }) w)
              (close p w₁).1 preparing (ground arith) (ground arith)
              (close_only_held p w₁ open_still)
        | inr (x, e) ↦
            held_after (handle_prepare_maintenance P (record state { db_state = opened p }) w) w₁
              (opened p) (ground arith) (ground arith) open_still
      ]
  handle_prepare_maintenance-HeldBy preparing state w h = h
  handle_prepare_maintenance-HeldBy closed state w h = h

  handle_close_database-HeldBy :
      (d : DatabaseState P) (state : WorkerState P) (w : World)
      → HeldBy (Holds w) d
      → let ((r, s), w') = handle_close_database P (record state { db_state = d }) w in
        HeldBy (Holds w') s.db_state
  unfolding handle_close_database
  handle_close_database-HeldBy (opened p) state w h =
      close_only_held p (checkpoint_wal P p w).1
        (subst (λ H. OnlyHeld H p) (sym (checkpoint_wal-Holds P L p w)) h)
  handle_close_database-HeldBy preparing state w h = h
  handle_close_database-HeldBy closed state w h = h

  reopen-HeldBy :
      (state : WorkerState P) (w : World)
      → NoneHeld (Holds w)
      → ((H : Pool → Type 0) → NoneHeld H → HeldBy H state.db_state)
      → let ((r, s), w') = reopen P state w in HeldBy (Holds w') s.db_state
  unfolding reopen
  reopen-HeldBy state w free shut =
      let (o, w₁) = init_database P state.db_path w in
      let opens = init_database-Opens state.db_path w free in
      elim (Result-cases o) [
        | inl (p, e) ↦
            let w₂ = (get_current_rev P p w₁).1 in
            held_after (reopen P state w) w₂ (opened p) (ground arith) (ground arith) (
              subst (λ H. OnlyHeld H p) (sym (get_current_rev-Holds P L p w₁))
                (subst (λ r. Opens r (Holds w₁)) e opens))
        | inr (x, e) ↦
            let none_held = subst (λ r. Opens r (Holds w₁)) e opens in
            held_after (reopen P state w) w₁ state.db_state (ground arith) (ground arith)
              (shut (Holds w₁) none_held)
      ]

  handle_reopen_database-HeldBy :
      (d : DatabaseState P) (state : WorkerState P) (w : World)
      → HeldBy (Holds w) d
      → let ((r, s), w') = handle_reopen_database P (record state { db_state = d }) w in
        HeldBy (Holds w') s.db_state
  unfolding handle_reopen_database
  handle_reopen_database-HeldBy (opened p) state w h = h
  handle_reopen_database-HeldBy preparing state w h =
      reopen-HeldBy (record state { db_state = preparing }) w h (λ H free. free)
  handle_reopen_database-HeldBy closed state w h =
      reopen-HeldBy (record state { db_state = closed }) w h (λ H free. free)

  -- Every request, whatever its outcome, keeps this: an open database is held by its pool and by no
  -- other pool, and while it is preparing or closed no pool holds its files.
  pub handle_request-HeldBy :
      (req : Request json) (state : WorkerState P) (w : World)
      → HeldBy (Holds w) state.db_state
      → let ((r, s), w') = handle_request P req state w in HeldBy (Holds w') s.db_state
  unfolding handle_request
  handle_request-HeldBy (ping db) state w h =
      subst (λ H. HeldBy H state.db_state) (sym (handle_ping-Holds state.db_state state w)) h
  handle_request-HeldBy (exec_batch db stmts tx) state w h =
      subst (λ H. HeldBy H state.db_state)
        (sym (handle_exec_batch-Holds stmts tx state.db_state state w)) h
  handle_request-HeldBy (prepare_for_maintenance db) state w h =
      handle_prepare_maintenance-HeldBy state.db_state state w h
  handle_request-HeldBy (close_database db) state w h =
      handle_close_database-HeldBy state.db_state state w h
  handle_request-HeldBy (reopen_database db) state w h =
      handle_reopen_database-HeldBy state.db_state state w h
  handle_request-HeldBy shutdown state w h = h
