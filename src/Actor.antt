-- ===== src/Actor.antt =====
-- daemon/src/actor.rs and daemon/src/db.rs: the daemon for one database that the router and its workers have
-- replaced. No crate has these files any more. Where a function of actor.rs is line for line one of
-- daemon/src/worker.rs, it is this one here.
pub mod Database
pub mod Same
mod Examples
use Prim.Native.String.{◌++◌}
use sqlite_daemon.Prelude.{
  ℕ, ◌-◌, ◌*◌, String, Bool, ◌&&◌, List, [], ◌∷◌, Option, none, some, ok, err, Io, pure, ◌>>=◌,
  ◌>>◌, Result, leb, if◌then◌else◌, true, false,
}
use sqlite_daemon.Platform.{Platform}
use sqlite_daemon.Protocol.{Json, Value, Statement, TransactionMode, Response}
use sqlite_daemon.Protocol.Responses.{ok_ping, ok_exec, ok_shutdown, error, error_with_code}
use sqlite_daemon.Sqlx.{Query}
use sqlite_daemon.Worker.Database.{select_rev, update_meta}
use sqlite_daemon.Worker.Handlers.{version}
use sqlite_daemon.Worker.Validate.{validate_statement, first_refused}
use sqlite_daemon.Worker.Batch.{bind_param, execute_from, statement_error}
use Database.{db_current_rev}

-- `IDLE_TIMEOUT`, in nanoseconds
abbrev pub idle_timeout : ℕ
idle_timeout = 15 * 60 * 1_000_000_000

-- The requests that actor.rs matches on.
pub data ActorRequest (J : Json) : Type 0 where
  ping : ActorRequest J
  exec_batch : (stmts : List (Statement J)) (tx : TransactionMode) → ActorRequest J
  shutdown : ActorRequest J

pub data ActorEvent (J : Json) : Type 0 where
  command : (now : ℕ) → ActorRequest J → ActorEvent J
  channel_closed : ActorEvent J
  sleep : (now : ℕ) (is_empty : Bool) → ActorEvent J

unfoldable pub actor_bind_param : (J : Json) → Query J.Float → Value J → Query J.Float
actor_bind_param J = bind_param J

unfoldable pub actor_validate_statement :
    {J : Json} → (ℕ → List ℕ) → Statement J → Result String (Unit {0})
actor_validate_statement upper = validate_statement upper

module _ (P : Platform) where
  open P.sqlx use {
    World, Pool, Transaction, to_string, execute, execute_tx, fetch_one_tx, begin, commit, drop_tx,
    unix_timestamp,
  }
  open P use {json, upper}

  unfoldable pub actor_ping : Pool → String → Io World Response
  actor_ping pool db_path = do
    r ← db_current_rev P pool
    elim r [
      | ok rev ↦ pure (ok_ping version db_path rev)
      | err e ↦ pure (error ("Failed to get revision: " ++ e))
    ]

  -- From `UPDATE meta` to the end.
  unfoldable pub actor_commit : Transaction → ℕ → Io World Response
  actor_commit tx total_rows = do
    ts ← unix_timestamp
    updated ← execute_tx tx (update_meta ts)
    elim updated [
      | err e ↦ do drop_tx tx; pure (error "Failed to update revision")
      | ok _ ↦ do
        r ← fetch_one_tx tx select_rev
        elim r [
          | err e ↦ do drop_tx tx; pure (error "Failed to read revision")
          | ok rev ↦ do
            committed ← commit tx
            elim committed [
              | err e ↦ do drop_tx tx; pure (error_with_code (to_string e) "TX_COMMIT_FAILED")
              | ok _ ↦ pure (ok_exec rev total_rows)
            ]
        ]
    ]

  unfoldable pub actor_atomic_batch : List (Statement json) → Pool → Io World Response
  unfolding actor_commit
  actor_atomic_batch stmts pool = do
    begun ← begin pool
    elim begun [
      | err e ↦ pure (error_with_code (to_string e) "TX_BEGIN_FAILED")
      | ok tx ↦ do
        executed ← execute_from P (execute_tx tx) 0 0 stmts
        elim executed [
          | err at ↦ do drop_tx tx; pure (statement_error P at)
          | ok total_rows ↦ actor_commit tx total_rows
        ]
    ]

  unfoldable pub actor_separate_batch : List (Statement json) → Pool → Io World Response
  actor_separate_batch stmts pool = do
    executed ← execute_from P (execute pool) 0 0 stmts
    elim executed [
      | err at ↦ pure (statement_error P at)
      | ok total_rows ↦ do
        ts ← unix_timestamp
        updated ← execute pool (update_meta ts)
        elim updated [
          | err e ↦ pure (error "Failed to update revision")
          | ok _ ↦ do
            r ← db_current_rev P pool
            elim r [
              | err e ↦ pure (error "Failed to read revision")
              | ok rev ↦ pure (ok_exec rev total_rows)
            ]
        ]
    ]

  unfoldable pub actor_execute : List (Statement json) → TransactionMode → Pool → Io World Response
  unfolding actor_atomic_batch actor_separate_batch
  actor_execute stmts TransactionMode.atomic pool = actor_atomic_batch stmts pool
  actor_execute stmts TransactionMode.none pool = actor_separate_batch stmts pool

  unfoldable pub actor_exec_batch :
      List (Statement json) → TransactionMode → Pool → Io World Response
  unfolding actor_execute
  actor_exec_batch [] tx_mode pool = pure (error "Empty statement batch")
  actor_exec_batch (stmt ∷ stmts) tx_mode pool = elim (first_refused upper 0 (stmt ∷ stmts)) [
    | some response ↦ pure response
    | none ↦ actor_execute (stmt ∷ stmts) tx_mode pool
  ]

  unfoldable pub actor_request : ActorRequest json → Pool → String → Io World Response
  unfolding actor_ping actor_exec_batch
  actor_request ping pool db_path = actor_ping pool db_path
  actor_request (exec_batch stmts tx) pool db_path = actor_exec_batch stmts tx pool
  actor_request shutdown pool db_path = pure ok_shutdown

  -- The replies, and whether the loop goes on.
  unfoldable pub actor_loop :
      List (ActorEvent json) → Pool → String → ℕ → Io World (List Response × Bool)
  unfolding actor_request
  actor_loop [] pool db_path last_activity = pure ([], true)
  actor_loop (command now req ∷ events) pool db_path last_activity = do
    resp ← actor_request req pool db_path
    (replies, on) ← actor_loop events pool db_path now
    pure (resp ∷ replies, on)
  actor_loop (channel_closed ∷ events) pool db_path last_activity = pure ([], false)
  actor_loop (sleep now is_empty ∷ events) pool db_path last_activity =
      let rest = actor_loop events pool db_path last_activity in
      if is_empty && leb idle_timeout (now - last_activity) then pure ([], false) else rest
