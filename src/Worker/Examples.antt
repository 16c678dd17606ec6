-- ===== src/Worker/Examples.antt =====
-- The worker's theorems at concrete inputs, over the small engine of Worker/Sqlite/Log.
use sqlite_daemon.Prelude.{
  ◌≡◌, refl, ap, u64_add, negsuc, suc, ◌+◌, ◌^◌, ℕ, true, [], ◌∷◌, some, pos, ◌+ℤ◌, ok, arith, ◌↔◌,
  ◌≤◌, length,
}
use Prim.Native.String.{len}
use sqlite_daemon.Protocol.{
  exec_batch, prepare_for_maintenance, close_database, Statement, TransactionMode,
}
use sqlite_daemon.Text.Occurs.{Occurs}
use sqlite_daemon.Text.{codes, ascii_upper}
use sqlite_daemon.Worker.State.{opened, closed, WorkerState}
use sqlite_daemon.Worker.Validate.{validate_statement}
use sqlite_daemon.Worker.Validate.Accepts.{pragma, normalized, validate_statement_iff}
use sqlite_daemon.Worker.Validate.Pragma.{validate_statement-pragma}
use sqlite_daemon.Worker.Sqlite.Log.{
  log_json, log_platform, log_transactions, log_pools, log_migrations, Content, empty, one_open,
}
use sqlite_daemon.Worker.Batch.{
  number_arg, execute_atomic_batch, execute_separate_batch, execute_begun, execute_statements_in_tx,
  execute_statements_in_pool, statement_query,
}
use sqlite_daemon.Worker.Database.{
  init_database, bump_revision, bump_revision_in_tx, checkpoint_wal_passive,
}
use sqlite_daemon.Worker.Database.Migrations.{Migrated, init_database-Migrated}
use sqlite_daemon.Sqlx.{Arg}
use sqlite_daemon.Worker.Batch.Bound.{number_arg_negative}
use sqlite_daemon.Worker.Batch.Atomic.{AtomicOutcome}
use sqlite_daemon.Worker.Batch.Separate.{SeparateOutcome, execute_separate_batch-SeparateOutcome}
use sqlite_daemon.Worker.Batch.Revision.{execute_atomic_batch-rev}
use sqlite_daemon.Worker.Handlers.{handle_request, handle_exec_batch}
use sqlite_daemon.Worker.Handlers.Batches.{
  Checked, handle_exec_batch-Checked, handle_request-AtomicOutcome,
}
use sqlite_daemon.Worker.Handlers.Pools.{HeldBy, NoneHeld}
use sqlite_daemon.Worker.Handlers.Closed.{IsShut}
use sqlite_daemon.Worker.Handlers.Transitions.{Permits, phase, handle_request-Permits}
use sqlite_daemon.Worker.Loop.{command, channel_closed, sleep, loop, worker_loop}
use sqlite_daemon.Worker.Loop.Lives.{Left, loop-IsShut, worker_loop-HeldBy}

abbrev insert : Statement log_json
insert = record { sql = "INSERT INTO t VALUES (1)"; params = [] }

abbrev failing : Statement log_json
failing = record { sql = "fail"; params = [] }

abbrev sneaky : Statement log_json
sneaky = record { sql = " Pragma Writable_schema=1"; params = [] }

abbrev open_state : WorkerState log_platform
open_state = record { db_state = opened 0; db_path = "a.db"; db_name = "a.db"; last_activity = 0 }

abbrev closed_state : WorkerState log_platform
closed_state = record open_state { db_state = closed }

handle_request-AtomicOutcome_example :
    let ((r, s), w) =
      handle_request log_platform
        (exec_batch "a.db" (insert ∷ failing ∷ []) TransactionMode.atomic)
        open_state
        one_open in
    AtomicOutcome log_platform log_transactions
      (insert ∷ failing ∷ [])
      one_open.committed
      r
      w.committed
handle_request-AtomicOutcome_example =
    handle_request-AtomicOutcome log_platform log_transactions "a.db" (insert ∷ failing ∷ [])
      open_state one_open (tt, (tt, tt))

handle_exec_batch-Checked_example :
    Checked log_platform (insert ∷ sneaky ∷ []) TransactionMode.none 0 one_open (
      handle_exec_batch log_platform
        (insert ∷ sneaky ∷ [])
        TransactionMode.none
        open_state
        one_open)
handle_exec_batch-Checked_example =
    handle_exec_batch-Checked log_platform insert (sneaky ∷ []) TransactionMode.none 0 open_state
      one_open refl

execute_separate_batch-SeparateOutcome_example :
    let (r, w) = execute_separate_batch log_platform (insert ∷ failing ∷ []) 0 one_open in
    SeparateOutcome log_platform log_transactions
      (insert ∷ failing ∷ [])
      one_open.committed
      r
      w.committed
execute_separate_batch-SeparateOutcome_example =
    execute_separate_batch-SeparateOutcome log_platform log_transactions (insert ∷ failing ∷ []) 0
      one_open (tt, (tt, tt))

execute_atomic_batch-rev_example :
    (pos 1 ≡ pos 0 +ℤ pos 1)
    × (some (execute_atomic_batch log_platform (insert ∷ []) 0 one_open).1.committed.rev
        ≡ some (pos 1))
unfolding execute_atomic_batch execute_begun execute_statements_in_tx statement_query
    bump_revision_in_tx checkpoint_wal_passive u64_add ◌+ℤ◌
execute_atomic_batch-rev_example =
    execute_atomic_batch-rev log_platform log_transactions (insert ∷ []) 0 one_open (pos 1) (pos 0)
      1 (tt, tt) ((λ c d n ran. ap (λ (x : Content). some x.rev) ran.1), tt) refl
      (λ e. ground arith) refl

handle_request-Permits_example :
    let ((r, s), w) =
      handle_request log_platform (prepare_for_maintenance "a.db") open_state one_open in
    Permits {J = log_json}
      (prepare_for_maintenance "a.db")
      (phase log_platform (opened 0))
      r
      (phase log_platform s.db_state)
handle_request-Permits_example =
    handle_request-Permits log_platform (prepare_for_maintenance "a.db") open_state one_open

loop-IsShut_example :
    let ((replies, end), w) =
      loop log_platform
        (command 1 (exec_batch "a.db" (insert ∷ []) TransactionMode.atomic)
          ∷ sleep 400_000_000_000 true
          ∷ [])
        closed_state
        empty in
    Left log_platform (λ v d. IsShut log_platform d × (v ≡ empty)) (λ v. v ≡ empty) end w
loop-IsShut_example =
    loop-IsShut log_platform
      (command 1 (exec_batch "a.db" (insert ∷ []) TransactionMode.atomic)
        ∷ sleep 400_000_000_000 true
        ∷ [])
      closed_state empty (tt, (tt, tt)) tt

worker_loop-HeldBy_example :
    let ((replies, end), w) =
      worker_loop log_platform
        (command 1 (close_database "a.db") ∷ channel_closed ∷ [])
        "a.db"
        "a.db"
        0
        empty in
    Left log_platform
      (λ v d. HeldBy log_platform log_pools (λ q. v.holds q ≡ true) d)
      (λ v. NoneHeld log_platform log_pools (λ q. v.holds q ≡ true))
      end
      w
worker_loop-HeldBy_example =
    worker_loop-HeldBy log_platform log_pools
      (command 1 (close_database "a.db") ∷ channel_closed ∷ []) "a.db" "a.db" 0 empty (λ q h. cc)

validate_statement_iff_example :
    (validate_statement {J = log_json} (λ c. c ∷ []) insert ≡ ok tt) ↔ (
      (len insert.sql ≤ 100_000)
      × (length insert.params ≤ 999)
      × (¬ Occurs pragma (normalized {J = log_json} (λ c. c ∷ []) insert)))
validate_statement_iff_example = validate_statement_iff (λ c. c ∷ []) insert

validate_statement-pragma_example :
    ¬ (validate_statement {J = log_json} (λ c. c ∷ []) sneaky ≡ ok tt)
unfolding ascii_upper
validate_statement-pragma_example =
    validate_statement-pragma (λ c. c ∷ []) sneaky (codes "Pragma Writable_schema") refl
      (codes " ", codes "=1", refl)

-- The atomic batch leaves nothing of its first statement; the separate one leaves it.
failed_batches :
    ((execute_atomic_batch log_platform (insert ∷ failing ∷ []) 0 one_open).1.committed.ran ≡ [])
    × ((execute_separate_batch log_platform (insert ∷ failing ∷ []) 0 one_open).1.committed.ran
        ≡ "INSERT INTO t VALUES (1)" ∷ [])
unfolding execute_atomic_batch execute_begun execute_statements_in_tx statement_query
    bump_revision_in_tx checkpoint_wal_passive execute_separate_batch execute_statements_in_pool
    bump_revision
failed_batches = (refl, refl)

number_arg_negative_example :
    (k : ℕ) × (number_arg log_json 18446744073709551615 ≡ Arg.integer (negsuc k))
    × (18446744073709551615 + suc k ≡ 2 ^ 64)
number_arg_negative_example =
    number_arg_negative log_json 18446744073709551615 18446744073709551615 refl refl (omega arith)
      (omega arith)

init_database-Migrated_example :
    let (r, w) = init_database log_platform "a.db" one_open in
    Migrated log_platform log_transactions log_migrations r one_open.committed w.committed
init_database-Migrated_example =
    init_database-Migrated log_platform log_transactions log_migrations "a.db" one_open
