-- ===== src/SingleInstance/Mutex/Examples.antt =====
-- The mutex with two processes: 0 runs, 1 finds that the mutex exists and has not closed its handle.
use sqlite_daemon.Prelude.{ℕ, ◌≡◌, refl, true, false}
use sqlite_daemon.SingleInstance.Mutex.{
  Processes, create_mutex, check_existed, creates, opens, checks, MutexReach, here, next,
  none_started,
}
use sqlite_daemon.SingleInstance.Mutex.Exclusion.{mutex_daemon_unique}

abbrev one_runs : Processes
one_runs = create_mutex 1 (check_existed 0 (create_mutex 0 none_started false) false) true

one_runs_reached : MutexReach none_started one_runs
unfolding create_mutex check_existed
one_runs_reached =
    next (next (next here (creates 0 refl (λ q h. absurd h))) (checks 0 false refl))
      (opens 1 0 refl tt)

mutex_daemon_unique_example : ◌≡◌ {A = ℕ} 0 0
unfolding create_mutex check_existed
mutex_daemon_unique_example = mutex_daemon_unique one_runs 0 0 one_runs_reached refl refl
