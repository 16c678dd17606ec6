-- ===== src/SingleInstance/Examples.antt =====
-- The lock file with three processes: 0 runs, 1 has opened the file, 2 has not started.
use sqlite_daemon.Prelude.{ℕ, ◌≡◌, refl, true, arith}
use sqlite_daemon.SingleInstance.{
  holding, System, open_lock_file, flock, write_pid, opens, locks, writes, fresh,
}
use sqlite_daemon.SingleInstance.Exclusion.{Reach, here, next, daemon_unique}
use sqlite_daemon.SingleInstance.Removal.{drop_lets_two_in}

abbrev running : System
running = open_lock_file 1 (write_pid 0 (flock 0 (open_lock_file 0 fresh) 0) 0 true)

running_reached : Reach fresh running
unfolding open_lock_file flock write_pid
running_reached =
    next (next (next (next here (opens 0 refl)) (locks 0 0 refl)) (writes 0 0 true refl))
      (opens 1 refl)

daemon_unique_example : ◌≡◌ {A = ℕ} 0 0
unfolding open_lock_file flock write_pid running_reached
daemon_unique_example =
    daemon_unique running 0 0 0 0 running_reached ((((tt, tt), tt), tt), tt) refl refl

drop_lets_two_in_example :
    (t : System) × Reach running t
    × (t.stage 1 ≡ holding 0)
    × (t.stage 2 ≡ holding running.next_inode)
unfolding open_lock_file flock write_pid
drop_lets_two_in_example =
    drop_lets_two_in running 0 1 2 0 (λ e. ground arith) (λ e. ground arith) (λ e. ground arith)
      running_reached refl refl refl
