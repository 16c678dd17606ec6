-- ===== src/Service/Serial/Defs.antt =====
-- What a database's history leads to, and how it stands to the running workers.
use sqlite_daemon.Prelude.{ℕ, ◌≤◌, String, ◌≡◌, ◌≢◌, List, Option, none}
use sqlite_daemon.Platform.{Platform}
use sqlite_daemon.Worker.State.{WorkerState}
use sqlite_daemon.Router.{Router, running}
use sqlite_daemon.Service.History.{Action, run, Current}
use sqlite_daemon.Service.{Service}

module _ (P : Platform) (path : String → String) (first : String → P.sqlx.World) where
  open P use {json}
  open P.sqlx use {World}

  -- A database's history, run by itself.
  abbrev pub replay : String → List (Action P) → Current P
  replay name actions = run P (path name) name actions (none, first name)

  -- The worker that runs for a database is where the history leaves it, and without a worker the world
  -- is where the history leaves it.
  pub record IsSerial (r : Router) (stage : ℕ → Option (WorkerState P)) (world : String → World)
      (history : String → List (Action P)) : Type 0 where
    pub current :
        (w : ℕ)
        → r.life w ≡ running
        → replay (r.db_name w) (history (r.db_name w)) ≡ (stage w, world (r.db_name w))
    pub quiet :
        (name : String)
        → ((w : ℕ) → r.life w ≡ running → r.db_name w ≢ name)
        → replay name (history name) ≡ (none, world name)
    pub unborn : (w : ℕ) → r.next_worker ≤ w → stage w ≡ none

  abbrev pub IsSerialNow : Service P → Type 0
  IsSerialNow s = IsSerial s.router s.stage s.world s.history
