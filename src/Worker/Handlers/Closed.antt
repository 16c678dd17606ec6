-- ===== src/Worker/Handlers/Closed.antt =====
-- daemon/src/worker.rs: the handlers while a database is preparing or closed.
use sqlite_daemon.Prelude.{◌≡◌, refl}
use sqlite_daemon.Platform.{Platform}
use sqlite_daemon.Protocol.{
  Request, ping, exec_batch, prepare_for_maintenance, close_database, reopen_database, shutdown,
  Response,
}
use sqlite_daemon.Protocol.Responses.{ok_shutdown, ok_close_database, error}
use sqlite_daemon.Worker.State.{DatabaseState, opened, preparing, closed, WorkerState}
use sqlite_daemon.Worker.Handlers.{
  is_preparing, is_closed, handle_ping, handle_exec_batch, handle_prepare_maintenance,
  handle_close_database, handle_request,
}

module _ (P : Platform) where
  open P use {json}
  open P.sqlx use {World}

  abbrev pub IsShut : DatabaseState P → Type 0
  IsShut (opened pool) = ⊥
  IsShut preparing = Unit
  IsShut closed = Unit

  abbrev pub NoReopen : Request json → Type 0
  NoReopen (reopen_database db) = ⊥
  NoReopen _ = Unit

  -- What a shut database answers to a request that is no reopening.
  abbrev pub shut_response : DatabaseState P → Request json → Response
  shut_response preparing (ping db) = is_preparing
  shut_response preparing (exec_batch db stmts tx) = is_preparing
  shut_response preparing (prepare_for_maintenance db) = error "Database is already preparing"
  shut_response preparing (close_database db) = ok_close_database
  shut_response d (ping db) = is_closed
  shut_response d (exec_batch db stmts tx) = is_closed
  shut_response d (prepare_for_maintenance db) = error "Database is already closed"
  shut_response d (close_database db) = error "Database is already closed"
  shut_response d _ = ok_shutdown

  abbrev pub shut_state : DatabaseState P → Request json → DatabaseState P
  shut_state d (close_database db) = closed
  shut_state d _ = d

  shut_lem :
      (req : Request json) (d : DatabaseState P) (state : WorkerState P) (w : World)
      → IsShut d
      → NoReopen req
      → handle_request P req (record state { db_state = d }) w
        ≡ ((shut_response d req, record state { db_state = shut_state d req }), w)
  unfolding handle_request handle_ping handle_exec_batch handle_prepare_maintenance
      handle_close_database
  shut_lem req (opened pool) state w h n = elim h [ ]
  shut_lem (ping db) preparing state w h n = refl
  shut_lem (exec_batch db stmts tx) preparing state w h n = refl
  shut_lem (prepare_for_maintenance db) preparing state w h n = refl
  shut_lem (close_database db) preparing state w h n = refl
  shut_lem (reopen_database db) preparing state w h n = elim n [ ]
  shut_lem shutdown preparing state w h n = refl
  shut_lem (ping db) closed state w h n = refl
  shut_lem (exec_batch db stmts tx) closed state w h n = refl
  shut_lem (prepare_for_maintenance db) closed state w h n = refl
  shut_lem (close_database db) closed state w h n = refl
  shut_lem (reopen_database db) closed state w h n = elim n [ ]
  shut_lem shutdown closed state w h n = refl

  pub handle_request_shut :
      (req : Request json) (state : WorkerState P) (w : World)
      → IsShut state.db_state
      → NoReopen req
      → handle_request P req state w ≡ (
        (
          shut_response state.db_state req,
          record state { db_state = shut_state state.db_state req },
        ),
        w,
      )
  handle_request_shut req state w h n = shut_lem req state.db_state state w h n

  pub shut_state-IsShut :
      (d : DatabaseState P) (req : Request json) → IsShut d → IsShut (shut_state d req)
  shut_state-IsShut (opened pool) req h = elim h [ ]
  shut_state-IsShut preparing (close_database db) h = tt
  shut_state-IsShut preparing _ h = tt
  shut_state-IsShut closed (close_database db) h = tt
  shut_state-IsShut closed _ h = tt
