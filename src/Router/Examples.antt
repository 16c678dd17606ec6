-- ===== src/Router/Examples.antt =====
-- The router with two tasks that find, and use, workers for one database.
use sqlite_daemon.Prelude.{◌≡◌, refl, arith}
use sqlite_daemon.Router.{
  forward, running, Router, new, begin, fast_path, slow_path, terminate, begins, looks, creates,
  terminates, Reach, here, next,
}
use sqlite_daemon.Router.Twice.{two_workers_of_one_db}

-- Task 0 has spawned a worker of `a.db` and is about to send to it.
abbrev spawned : Router
spawned = slow_path 0 (fast_path 0 (begin 0 new (forward "a.db")) "a.db") "a.db"

spawned_reached : Reach new spawned
unfolding begin fast_path slow_path
spawned_reached =
    next (next (next here (begins 0 (forward "a.db") refl)) (looks 0 "a.db" refl))
      (creates 0 "a.db" refl)

-- Its worker stops meanwhile.
abbrev stopped : Router
stopped = terminate 0 spawned

stopped_reached : Reach new stopped
unfolding begin fast_path slow_path terminate
stopped_reached = next spawned_reached (terminates 0 refl)

two_workers_of_one_db_example :
    (s : Router) × Reach stopped s
    × (s.life 1 ≡ running)
    × (s.life 2 ≡ running)
    × (s.db_name 1 ≡ "a.db")
    × (s.db_name 2 ≡ "a.db")
unfolding begin fast_path slow_path terminate
two_workers_of_one_db_example =
    two_workers_of_one_db 0 1 (λ e. ground arith) "a.db" 0 stopped stopped_reached refl refl refl
