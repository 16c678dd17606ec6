-- ===== src/Worker/State.antt =====
-- The state of a worker. `Open` is spelled `opened`; an `Instant` is a number of nanoseconds.
use sqlite_daemon.Prelude.{ℕ, ◌*◌, String}
use sqlite_daemon.Platform.{Platform}

-- Five minutes.
abbrev pub worker_idle_timeout : ℕ
worker_idle_timeout = 5 * 60 * 1_000_000_000

module _ (P : Platform) where
  pub data DatabaseState : Type 0 where
    opened : P.sqlx.Pool → DatabaseState
    preparing : DatabaseState
    closed : DatabaseState

  pub record WorkerState : Type 0 where
    pub db_state : DatabaseState
    pub db_path : String
    pub db_name : String
    pub last_activity : ℕ
