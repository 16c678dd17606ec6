-- ===== src/Startup/Run.antt =====
-- `main` of daemon/src/main.rs as one process runs it: the guard, the database directory, the server, and
-- how the process ends. Logging is left out.
use sqlite_daemon.Prelude.{
  String, List, ◌∷◌, Option, none, some, Result, ok, err, Io, pure, ◌>>=◌, ◌>>◌,
}

-- What `main` calls. An error is given by its `Display`.
pub record Calls : Type 1 where
  pub World : Type 0
  pub try_acquire : Io World (Result String (Unit {0}))
  pub current_dir : Io World (Result String String)
  -- the server that a router on this directory has: it returns when its listener fails
  pub run_server : (pipe_name db_dir : String) → Io World (Result String (Unit {0}))
  -- the guard goes out of scope
  pub drop_guard : Io World (Unit {0})

pub data Outcome : Type 0 where
  success : Outcome
  -- `main` returns an error, which the runtime prints with its cause
  failure : (context cause : String) → Outcome
  panic : Outcome

-- the error of the guard, with its context
abbrev pub not_acquired : String → Outcome
not_acquired e = failure "Failed to acquire single-instance lock" e

abbrev pub pipe_name : String
pipe_name = "/tmp/skylinedb-v1.sock"

module _ (C : Calls) where
  open C use {World, try_acquire, current_dir, run_server, drop_guard}

  -- `args().nth(1)`, or else the current directory; `none` is the panic of `expect`.
  unfoldable pub choose_db_dir : List String → Io World (Option String)
  choose_db_dir (program ∷ dir ∷ args) = pure (some dir)
  choose_db_dir args = do r ← current_dir; elim r [ ok dir ↦ pure (some dir) | err e ↦ pure none ]

  unfoldable pub run : List String → Io World Outcome
  unfolding choose_db_dir
  run args = do
    acquired ← try_acquire
    elim acquired [
      | err e ↦ pure (not_acquired e)
      | ok _ ↦ do
        db_dir ← choose_db_dir args
        elim db_dir [
          | none ↦ do drop_guard; pure panic
          | some dir ↦ do server_result ← run_server pipe_name dir; drop_guard; pure success
        ]
    ]
