-- ===== src/Worker/Handlers/Transitions.antt =====
-- The maintenance protocol that the handlers implement: which request moves a database between
-- open, preparing and closed, and with which response.
use sqlite_daemon.Prelude.{◌≡◌, ◌≢◌, sym, String, List, ℤ, Result-cases, inl, inr, arith, subst}
use Prim.Native.String.{◌++◌}
use sqlite_daemon.Platform.{Platform}
use sqlite_daemon.Protocol.{
  Json, Request, ping, exec_batch, prepare_for_maintenance, close_database, reopen_database,
  shutdown, Statement, TransactionMode, Response,
}
use sqlite_daemon.Protocol.Responses.{
  ok_shutdown, ok_prepare_maintenance, ok_close_database, ok_reopen_database, error,
}
use sqlite_daemon.Worker.State.{DatabaseState, WorkerState}
use sqlite_daemon.Worker.Database.{init_database, get_current_rev, checkpoint_wal}
use sqlite_daemon.Worker.Handlers.{
  handle_prepare_maintenance, handle_close_database, reopen, handle_reopen_database, handle_request,
}

-- A database's state without its pool.
pub data Phase : Type 0 where
  opened preparing closed : Phase

module _ {J : Json} where
  -- `Permits req before response after`
  pub data Permits : Request J → Phase → Response → Phase → Type 0 where
    pinged : {db : String} {p : Phase} {r : Response} → Permits (ping db) p r p
    executed :
        {db : String} {stmts : List (Statement J)} {tx : TransactionMode} {p : Phase} {r : Response}
        → Permits (exec_batch db stmts tx) p r p
    prepared :
        {db : String} → Permits (prepare_for_maintenance db) opened ok_prepare_maintenance preparing
    not_prepared :
        {db : String} {p : Phase} (message : String)
        → Permits (prepare_for_maintenance db) p (error message) p
    shut :
        {db : String} {p : Phase}
        → p ≢ closed
        → Permits (close_database db) p ok_close_database closed
    not_shut :
        {db : String} (message : String) → Permits (close_database db) closed (error message) closed
    reopened :
        {db : String} {p : Phase} (rev : ℤ)
        → p ≢ opened
        → Permits (reopen_database db) p (ok_reopen_database rev) opened
    reopened_unread :
        {db : String} {p : Phase} (reason : String)
        → p ≢ opened
        → Permits
            (reopen_database db)
            p
            (error ("Database opened but failed to get revision: " ++ reason))
            opened
    not_reopened :
        {db : String} {p : Phase} (reason : String)
        → p ≢ opened
        → Permits (reopen_database db) p (error ("Failed to open database: " ++ reason)) p
    still_open :
        {db : String}
        → Permits (reopen_database db) opened (error "Database is already open") opened
    acknowledged : {p : Phase} → Permits shutdown p ok_shutdown p

module _ (P : Platform) where
  open P use {json}
  open P.sqlx use {World}

  abbrev pub phase : DatabaseState P → Phase
  phase (DatabaseState.opened pool) = opened
  phase DatabaseState.preparing = preparing
  phase DatabaseState.closed = closed

  Permits-at :
      (req : Request json) (before : Phase) (x : (Response × WorkerState P) × World) (r : Response)
      (after : Phase)
      → x.0.0 ≡ r
      → phase x.0.1.db_state ≡ after
      → Permits req before r after
      → Permits req before x.0.0 (phase x.0.1.db_state)
  Permits-at req before x r after p q h =
      subst (λ y. Permits req before y (phase x.0.1.db_state)) (sym p)
        (subst (λ y. Permits req before r y) (sym q) h)

  handle_prepare_maintenance-Permits :
      (db : String) (d : DatabaseState P) (state : WorkerState P) (w : World)
      → let ((r, s), w') = handle_prepare_maintenance P (record state { db_state = d }) w in
        Permits {J = json} (prepare_for_maintenance db) (phase d) r (phase s.db_state)
  unfolding handle_prepare_maintenance
  handle_prepare_maintenance-Permits db (DatabaseState.opened p) state w =
      let x = handle_prepare_maintenance P (record state { db_state = DatabaseState.opened p }) w in
      elim (Result-cases (checkpoint_wal P p w).0) [
        | inl (u, e) ↦
            Permits-at (prepare_for_maintenance db) opened x ok_prepare_maintenance preparing
              (ground arith) (ground arith) prepared
        | inr (m, e) ↦
            Permits-at (prepare_for_maintenance db) opened x
              (error ("Failed to checkpoint WAL: " ++ m)) opened (ground arith) (ground arith)
              (not_prepared ("Failed to checkpoint WAL: " ++ m))
      ]
  handle_prepare_maintenance-Permits db DatabaseState.preparing state w = not_prepared _
  handle_prepare_maintenance-Permits db DatabaseState.closed state w = not_prepared _

  handle_close_database-Permits :
      (db : String) (d : DatabaseState P) (state : WorkerState P) (w : World)
      → let ((r, s), w') = handle_close_database P (record state { db_state = d }) w in
        Permits {J = json} (close_database db) (phase d) r (phase s.db_state)
  unfolding handle_close_database
  handle_close_database-Permits db (DatabaseState.opened p) state w = shut (λ e. cc)
  handle_close_database-Permits db DatabaseState.preparing state w = shut (λ e. cc)
  handle_close_database-Permits db DatabaseState.closed state w = not_shut _

  reopen-Permits :
      (db : String) (state : WorkerState P) (w : World)
      → phase state.db_state ≢ opened
      → let ((r, s), w') = reopen P state w in
        Permits {J = json} (reopen_database db) (phase state.db_state) r (phase s.db_state)
  unfolding reopen
  reopen-Permits db state w shut_now =
      let x = reopen P state w in
      let before = phase state.db_state in
      let (o, w₁) = init_database P state.db_path w in
      elim (Result-cases o) [
        | inr (m, e) ↦
            Permits-at (reopen_database db) before x (error ("Failed to open database: " ++ m))
              before (ground arith) (ground arith) (not_reopened m shut_now)
        | inl (p, e) ↦ elim (Result-cases (get_current_rev P p w₁).0) [
          | inl (rev, f) ↦
              Permits-at (reopen_database db) before x (ok_reopen_database rev) opened
                (ground arith) (ground arith) (reopened rev shut_now)
          | inr (m, f) ↦
              Permits-at (reopen_database db) before x
                (error ("Database opened but failed to get revision: " ++ m)) opened (ground arith)
                (ground arith) (reopened_unread m shut_now)
        ]
      ]

  handle_reopen_database-Permits :
      (db : String) (d : DatabaseState P) (state : WorkerState P) (w : World)
      → let ((r, s), w') = handle_reopen_database P (record state { db_state = d }) w in
        Permits {J = json} (reopen_database db) (phase d) r (phase s.db_state)
  unfolding handle_reopen_database
  handle_reopen_database-Permits db (DatabaseState.opened p) state w = still_open
  handle_reopen_database-Permits db DatabaseState.preparing state w =
      reopen-Permits db (record state { db_state = DatabaseState.preparing }) w (λ e. cc)
  handle_reopen_database-Permits db DatabaseState.closed state w =
      reopen-Permits db (record state { db_state = DatabaseState.closed }) w (λ e. cc)

  -- Every request moves the database, and answers, as the protocol permits: only a preparation of an
  -- open database makes it preparing, with the success response; a close succeeds exactly from open
  -- and preparing; only a reopening of a database that is not open opens it, with the revision, or with
  -- the error that the database was opened and its revision cannot be read; all else leaves the phase,
  -- a reopening that fails to open the database included, with an error where the request asks for a
  -- move.
  pub handle_request-Permits :
      (req : Request json) (state : WorkerState P) (w : World)
      → let ((r, s), w') = handle_request P req state w in
        Permits req (phase state.db_state) r (phase s.db_state)
  unfolding handle_request
  handle_request-Permits (ping db) state w = pinged
  handle_request-Permits (exec_batch db stmts tx) state w = executed
  handle_request-Permits (prepare_for_maintenance db) state w =
      handle_prepare_maintenance-Permits db state.db_state state w
  handle_request-Permits (close_database db) state w =
      handle_close_database-Permits db state.db_state state w
  handle_request-Permits (reopen_database db) state w =
      handle_reopen_database-Permits db state.db_state state w
  handle_request-Permits shutdown state w = acknowledged
