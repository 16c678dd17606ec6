-- ===== src/SingleInstance.antt =====
-- daemon/src/single_instance.rs on Unix: any number of processes that start, lock the file
-- /var/run/skylinedb-v1.lock and stop, interleaved call by call. Processes and files (inodes) are
-- numbers.
pub mod Exclusion
pub mod Removal
pub mod Owners
pub mod Mutex
mod Examples
use sqlite_daemon.Prelude.{ℕ, suc, ◌≡◌, Bool, Option, none, some, ◌==◌, if◌then◌else◌}

-- How far a process is: in `try_acquire_unix` up to `holding`, then in `drop`.
pub data Stage : Type 0 where
  start : Stage
  opened : (inode : ℕ) → Stage
  locked : (inode : ℕ) → Stage
  holding : (inode : ℕ) → Stage
  removed : (inode : ℕ) → Stage
  stopped : Stage

pub record System : Type 0 where
  -- the file that the path names
  pub entry : Option ℕ
  pub next_inode : ℕ
  -- which process has the exclusive `flock` of a file
  pub owner : ℕ → Option ℕ
  pub stage : ℕ → Stage

abbrev pub set {ℓ} : {A : Type ℓ} → (ℕ → A) → ℕ → A → ℕ → A
set f k a j = if j == k then a else f j

module _ (p : ℕ) (s : System) where
  -- `OpenOptions::new().create(true).write(true).open(lock_path)`
  unfoldable pub open_lock_file : System
  open_lock_file = elim s.entry [
    | some i ↦ record s { stage = set s.stage p (opened i) }
    | none ↦ record s {
      entry = some s.next_inode;
      next_inode = suc s.next_inode;
      stage = set s.stage p (opened s.next_inode);
    }
  ]

  -- `flock(fd, LOCK_EX | LOCK_NB)`; on failure the function bails out and the file is closed.
  unfoldable pub flock : ℕ → System
  flock i = elim (s.owner i) [
    | none ↦ record s { owner = set s.owner i (some p); stage = set s.stage p (locked i) }
    | some q ↦ record s { stage = set s.stage p stopped }
  ]

  -- A file that is closed loses its lock. So it does when its process dies.
  unfoldable pub close_file : ℕ → System
  close_file i = record s { owner = set s.owner i none; stage = set s.stage p stopped }

  -- `write!(file, "{}", pid)?`: on an error the file goes out of scope.
  unfoldable pub write_pid : ℕ → Bool → System
  unfolding close_file
  write_pid i written =
      if written then record s { stage = set s.stage p (holding i) } else close_file i

  -- `std::fs::remove_file(lock_path)` in `drop`, whatever file the path names by now.
  unfoldable pub remove_lock_file : ℕ → System
  remove_lock_file i = record s { entry = none; stage = set s.stage p (removed i) }

-- One call of one process. A process may die at any stage.
pub data Step (s : System) : System → Type 0 where
  opens : (p : ℕ) → s.stage p ≡ start → Step s (open_lock_file p s)
  locks : (p i : ℕ) → s.stage p ≡ opened i → Step s (flock p s i)
  writes : (p i : ℕ) (written : Bool) → s.stage p ≡ locked i → Step s (write_pid p s i written)
  removes : (p i : ℕ) → s.stage p ≡ holding i → Step s (remove_lock_file p s i)
  closes : (p i : ℕ) → s.stage p ≡ removed i → Step s (close_file p s i)
  dies_locked : (p i : ℕ) → s.stage p ≡ locked i → Step s (close_file p s i)
  dies_holding : (p i : ℕ) → s.stage p ≡ holding i → Step s (close_file p s i)

-- No process has started.
abbrev pub fresh : System
fresh = record { entry = none; next_inode = 0; owner = λ i. none; stage = λ p. start }

-- The process has locked the file, and not yet closed it.
abbrev pub Owns : Stage → ℕ → Type 0
Owns (locked i) j = i ≡ j
Owns (holding i) j = i ≡ j
Owns (removed i) j = i ≡ j
Owns _ j = ⊥
