-- ===== src/Worker/Batch.antt =====
-- Parameters, the statement loops, and the two ways to execute a batch.
pub mod Bound
pub mod Steps
pub mod Outcome
pub mod Atomic
pub mod Separate
pub mod Revision
pub mod Holds
use Prim.Native.String.{◌++◌}
use sqlite_daemon.Prelude.{
  ℕ, suc, ◌+◌, String, Bool, true, false, List, [], ◌∷◌, Option, none, some, ℤ, pos, u64_as_i64,
  u64_add, Result, ok, err, Io, pure, ◌>>=◌, ◌>>◌, show,
}
use sqlite_daemon.Platform.{Platform}
use sqlite_daemon.Protocol.{
  Json, Value, null, bool, number, string, array, object, Statement, Response,
}
use sqlite_daemon.Protocol.Responses.{ok_exec, error, error_with_code}
use sqlite_daemon.Sqlx.{Query, query, bind, Arg}
use sqlite_daemon.Worker.Database.{bump_revision, bump_revision_in_tx, checkpoint_wal_passive}

module _ (J : Json) where
  open J use {Number, Float, as_i64, as_u64, as_f64, array_to_string, object_to_string}

  -- `*b as i64`
  abbrev bool_as_i64 : Bool → ℤ
  bool_as_i64 true = pos 1
  bool_as_i64 false = pos 0

  unfoldable pub number_arg : Number → Arg Float
  number_arg n = elim (as_i64 n) [
    | some i ↦ Arg.integer i
    | none ↦ elim (as_u64 n) [
      | some u ↦ Arg.integer (u64_as_i64 u)
      | none ↦ elim (as_f64 n) [ some f ↦ Arg.real f | none ↦ Arg.null ]
    ]
  ]

  unfoldable pub bind_param : Query Float → Value J → Query Float
  unfolding number_arg
  bind_param q null = bind q Arg.null
  bind_param q (bool b) = bind q (Arg.integer (bool_as_i64 b))
  bind_param q (number n) = bind q (number_arg n)
  bind_param q (string s) = bind q (Arg.text s)
  bind_param q (array a) = bind q (Arg.text (array_to_string a))
  bind_param q (object m) = bind q (Arg.text (object_to_string m))

  unfoldable pub bind_params : Query Float → List (Value J) → Query Float
  unfolding bind_param
  bind_params q [] = q
  bind_params q (param ∷ params) = bind_params (bind_param q param) params

  -- The query that both loops build of a statement.
  unfoldable pub statement_query : Statement J → Query Float
  unfolding bind_params
  statement_query stmt = bind_params (query stmt.sql) stmt.params

module _ (P : Platform) where
  open P.sqlx use {
    World, Error, Pool, Transaction, to_string, execute, execute_tx, begin, commit, drop_tx,
  }
  open P use {json}

  -- Both loops: they differ in what executes a query. `i` is the index of the next statement.
  unfoldable pub execute_from :
      (Query json.Float → Io World (Result Error ℕ))
      → ℕ
      → ℕ
      → List (Statement json)
      → Io World (Result (ℕ × Error) ℕ)
  execute_from run i total_rows [] = pure (ok total_rows)
  execute_from run i total_rows (stmt ∷ stmts) = do
    r ← run (statement_query json stmt)
    elim r [
      | ok rows ↦ execute_from run (suc i) (u64_add total_rows rows) stmts
      | err e ↦ pure (err (i, e))
    ]

  unfoldable pub execute_statements_in_tx :
      List (Statement json) → Transaction → Io World (Result (ℕ × Error) ℕ)
  unfolding execute_from
  execute_statements_in_tx stmts tx = execute_from (execute_tx tx) 0 0 stmts

  unfoldable pub execute_statements_in_pool :
      List (Statement json) → Pool → Io World (Result (ℕ × Error) ℕ)
  unfolding execute_from
  execute_statements_in_pool stmts pool = execute_from (execute pool) 0 0 stmts

  abbrev pub statement_error : ℕ × Error → Response
  statement_error (i, e) =
      error_with_code ("Statement " ++ show i ++ ": " ++ to_string e) "SQL_ERROR"

  -- The transaction after `begin`. Every early return drops it, uncommitted; so does a failed
  -- commit, which consumes it.
  unfoldable pub execute_begun : List (Statement json) → Pool → Transaction → Io World Response
  execute_begun stmts pool tx = do
    executed ← execute_statements_in_tx stmts tx
    elim executed [
      | err at ↦ do drop_tx tx; pure (statement_error at)
      | ok total_rows ↦ do
        bumped ← bump_revision_in_tx P tx
        elim bumped [
          | err e ↦ do drop_tx tx; pure (error "Failed to update revision")
          | ok rev ↦ do
            committed ← commit tx
            elim committed [
              | err e ↦ do drop_tx tx; pure (error_with_code (to_string e) "TX_COMMIT_FAILED")
              | ok _ ↦ do checkpoint_wal_passive P pool; pure (ok_exec rev total_rows)
            ]
        ]
    ]

  unfoldable pub execute_atomic_batch : List (Statement json) → Pool → Io World Response
  unfolding execute_begun
  execute_atomic_batch stmts pool = do
    begun ← begin pool
    elim begun [
      | err e ↦ pure (error_with_code (to_string e) "TX_BEGIN_FAILED")
      | ok tx ↦ execute_begun stmts pool tx
    ]

  unfoldable pub execute_separate_batch : List (Statement json) → Pool → Io World Response
  execute_separate_batch stmts pool = do
    executed ← execute_statements_in_pool stmts pool
    elim executed [
      | err at ↦ pure (statement_error at)
      | ok total_rows ↦ do
        bumped ← bump_revision P pool
        elim bumped [
          | err e ↦ pure (error "Failed to read revision")
          | ok rev ↦ do checkpoint_wal_passive P pool; pure (ok_exec rev total_rows)
        ]
    ]
