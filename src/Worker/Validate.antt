-- ===== src/Worker/Validate.antt =====
-- `validate_statement`, and the loop of `handle_exec_batch` that calls it.
pub mod Accepts
pub mod Pragma
use Prim.Native.String.{len, ◌++◌}
use sqlite_daemon.Prelude.{
  ℕ, suc, ◌+◌, String, List, [], ◌∷◌, Option, none, some, Result, ok, err, length, ltb, show,
  if◌then◌else◌,
}
use sqlite_daemon.Protocol.{Json, Statement, Response}
use sqlite_daemon.Protocol.Responses.{error}
use sqlite_daemon.Text.{codes, trim, to_uppercase}
use sqlite_daemon.Text.Occurs.{contains}

module _ {J : Json} (upper : ℕ → List ℕ) where
  unfoldable pub validate_statement : Statement J → Result String (Unit {0})
  validate_statement stmt =
      if ltb 100_000 (len stmt.sql)
      then err "SQL statement too long (max 100KB)"
      else if ltb 999 (length stmt.params)
      then err "Too many parameters (SQLite limit is 999)"
      else if contains (codes "PRAGMA WRITABLE_SCHEMA") (to_uppercase upper (trim (codes stmt.sql)))
      then err "Dangerous pragma rejected"
      else ok tt

  -- The first statement, from index `i` on, that is refused, as the response that reports it.
  unfoldable pub first_refused : ℕ → List (Statement J) → Option Response
  first_refused i [] = none
  first_refused i (stmt ∷ stmts) =
      let rest = first_refused (suc i) stmts in
      elim (validate_statement stmt) [
        | ok _ ↦ rest
        | err e ↦ some (error ("Statement " ++ show i ++ ": " ++ e))
      ]
