-- ===== src/Worker/Handlers.antt =====
-- `handle_request` and the handler of each request. A handler that mutates the state returns the
-- new one beside its response.
pub mod Pools
pub mod Transitions
pub mod Closed
pub mod Batches
use Prim.Native.String.{◌++◌}
use sqlite_daemon.Prelude.{
  String, List, [], ◌∷◌, Option, none, some, Result, ok, err, Io, pure, ◌>>=◌, ◌>>◌,
}
use sqlite_daemon.Platform.{Platform}
use sqlite_daemon.Protocol.{
  Request, ping, exec_batch, prepare_for_maintenance, close_database, reopen_database, shutdown,
  Statement, TransactionMode, Response,
}
use sqlite_daemon.Protocol.Responses.{
  ok_ping, ok_shutdown, ok_prepare_maintenance, ok_close_database, ok_reopen_database, error,
  error_with_code,
}
use sqlite_daemon.Worker.State.{DatabaseState, opened, preparing, closed, WorkerState}
use sqlite_daemon.Worker.Validate.{first_refused}
use sqlite_daemon.Worker.Database.{init_database, get_current_rev, checkpoint_wal}
use sqlite_daemon.Worker.Batch.{execute_atomic_batch, execute_separate_batch}

-- `env!("CARGO_PKG_VERSION")`, from daemon/Cargo.toml
abbrev pub version : String
version = "1.0.0"

abbrev pub is_preparing : Response
is_preparing = error_with_code "Database is preparing for maintenance" "DATABASE_PREPARING"

abbrev pub is_closed : Response
is_closed = error_with_code "Database is closed for maintenance" "DATABASE_CLOSED"

module _ (P : Platform) where
  open P.sqlx use {World, Pool, close}
  open P use {json, upper}

  abbrev pub Handled : Type 0
  Handled = Io World (Response × WorkerState P)

  unfoldable pub handle_ping : WorkerState P → Io World Response
  handle_ping state = elim state.db_state [
    | opened pool ↦ do
      r ← get_current_rev P pool
      elim r [
        | ok rev ↦ pure (ok_ping version state.db_path rev)
        | err e ↦ pure (error ("Failed to get revision: " ++ e))
      ]
    | preparing ↦ pure is_preparing
    | closed ↦ pure is_closed
  ]

  -- After the check that the batch is not empty.
  unfoldable pub execute_batch : List (Statement json) → TransactionMode → Pool → Io World Response
  execute_batch stmts TransactionMode.atomic pool = execute_atomic_batch P stmts pool
  execute_batch stmts TransactionMode.none pool = execute_separate_batch P stmts pool

  unfoldable pub validate_and_execute :
      List (Statement json) → TransactionMode → Pool → Io World Response
  unfolding execute_batch
  validate_and_execute [] tx_mode pool = pure (error "Empty statement batch")
  validate_and_execute (stmt ∷ stmts) tx_mode pool = elim (first_refused upper 0 (stmt ∷ stmts)) [
    | some response ↦ pure response
    | none ↦ execute_batch (stmt ∷ stmts) tx_mode pool
  ]

  unfoldable pub handle_exec_batch :
      List (Statement json) → TransactionMode → WorkerState P → Io World Response
  unfolding validate_and_execute
  handle_exec_batch stmts tx_mode state = elim state.db_state [
    | opened pool ↦ validate_and_execute stmts tx_mode pool
    | preparing ↦ pure is_preparing
    | closed ↦ pure is_closed
  ]

  unfoldable pub handle_prepare_maintenance : WorkerState P → Handled
  handle_prepare_maintenance state = elim state.db_state [
    | opened pool ↦ do
      r ← checkpoint_wal P pool
      elim r [
        | err e ↦ pure (error ("Failed to checkpoint WAL: " ++ e), state)
        | ok _ ↦ do close pool; pure (ok_prepare_maintenance, record state { db_state = preparing })
      ]
    | preparing ↦ pure (error "Database is already preparing", state)
    | closed ↦ pure (error "Database is already closed", state)
  ]

  -- A failed checkpoint is logged only.
  unfoldable pub handle_close_database : WorkerState P → Handled
  handle_close_database state = elim state.db_state [
    | opened pool ↦ do
      checkpoint_wal P pool
      close pool
      pure (ok_close_database, record state { db_state = closed })
    | preparing ↦ pure (ok_close_database, record state { db_state = closed })
    | closed ↦ pure (error "Database is already closed", state)
  ]

  unfoldable pub reopen : WorkerState P → Handled
  reopen state = do
    opening ← init_database P state.db_path
    elim opening [
      | err e ↦ pure (error ("Failed to open database: " ++ e), state)
      | ok pool ↦ do
        r ← get_current_rev P pool
        elim r [
          | err e ↦ pure (
            error ("Database opened but failed to get revision: " ++ e),
            record state { db_state = opened pool },
          )
          | ok rev ↦ pure (ok_reopen_database rev, record state { db_state = opened pool })
        ]
    ]

  unfoldable pub handle_reopen_database : WorkerState P → Handled
  unfolding reopen
  handle_reopen_database state = elim state.db_state [
    | opened pool ↦ pure (error "Database is already open", state)
    | preparing ↦ reopen state
    | closed ↦ reopen state
  ]

  unfoldable pub handle_request : Request json → WorkerState P → Handled
  handle_request (ping db) state = do r ← handle_ping state; pure (r, state)
  handle_request (exec_batch db stmts tx) state = do
    r ← handle_exec_batch stmts tx state
    pure (r, state)
  handle_request (prepare_for_maintenance db) state = handle_prepare_maintenance state
  handle_request (close_database db) state = handle_close_database state
  handle_request (reopen_database db) state = handle_reopen_database state
  handle_request shutdown state = pure (ok_shutdown, state)
