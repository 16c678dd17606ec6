-- ===== src/Worker/Batch/Steps.antt =====
-- One turn of the statement loop, by the answer of the query.
use sqlite_daemon.Prelude.{ℕ, suc, ◌≡◌, List, ◌∷◌, u64_add, Result, ok, err, Io, arith}
use sqlite_daemon.Platform.{Platform}
use sqlite_daemon.Protocol.{Statement}
use sqlite_daemon.Sqlx.{Query}
use sqlite_daemon.Worker.Batch.{statement_query, execute_from}

module _ (P : Platform) where
  open P use {json}
  open P.sqlx use {World, Error}

  module _ (run : Query json.Float → Io World (Result Error ℕ)) (stmt : Statement json)
      (stmts : List (Statement json)) (i t : ℕ) (w : World) where
    pub execute_from_step_ok :
        (n : ℕ)
        → (run (statement_query json stmt) w).0 ≡ ok n
        → execute_from P run i t (stmt ∷ stmts) w
          ≡ execute_from P run (suc i) (u64_add t n) stmts (run (statement_query json stmt) w).1
    unfolding execute_from
    execute_from_step_ok n h = ground arith

    pub execute_from_step_err :
        (e : Error)
        → (run (statement_query json stmt) w).0 ≡ err e
        → execute_from P run i t (stmt ∷ stmts) w
          ≡ (err (i, e), (run (statement_query json stmt) w).1)
    unfolding execute_from
    execute_from_step_err e h = ground arith
