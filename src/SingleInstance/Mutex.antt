-- ===== src/SingleInstance/Mutex.antt =====
-- daemon/src/single_instance.rs on Windows: any number of processes that start, create or open the
-- mutex Global\SkylineDBd-v1-SingleInstance and stop. The mutex is there while a process has a handle.
pub mod Exclusion
mod Examples
use sqlite_daemon.Prelude.{ℕ, ◌≡◌, Bool, true, false, if◌then◌else◌}
use sqlite_daemon.SingleInstance.{set}

-- How far a process is in `try_acquire_windows`, up to `holding`, and in `drop`. A handle that
-- `CreateMutexW` gave comes with whether the mutex already existed.
pub data MutexStage : Type 0 where
  start : MutexStage
  created : (existed : Bool) → MutexStage
  holding : MutexStage
  stopped : MutexStage

abbrev pub HasHandle : MutexStage → Type 0
HasHandle (created existed) = Unit
HasHandle holding = Unit
HasHandle _ = ⊥

abbrev pub Processes : Type 0
Processes = ℕ → MutexStage

module _ (p : ℕ) (s : Processes) where
  -- `CreateMutexW(None, true, name)` and `GetLastError`, which is the thread's own
  unfoldable pub create_mutex : Bool → Processes
  create_mutex existed = set s p (created existed)

  -- `ERROR_ALREADY_EXISTS`: close the handle, and bail out.
  unfoldable pub check_existed : Bool → Processes
  check_existed existed = if existed then set s p stopped else set s p holding

  -- `CloseHandle` in `drop`, an error of `CreateMutexW`, or the end of the process
  unfoldable pub close_handle : Processes
  close_handle = set s p stopped

pub data MutexStep (s : Processes) : Processes → Type 0 where
  creates :
      (p : ℕ) → s p ≡ start → ((q : ℕ) → HasHandle (s q) → ⊥) → MutexStep s (create_mutex p s false)
  opens : (p q : ℕ) → s p ≡ start → HasHandle (s q) → MutexStep s (create_mutex p s true)
  fails : (p : ℕ) → s p ≡ start → MutexStep s (close_handle p s)
  checks :
      (p : ℕ) (existed : Bool) → s p ≡ created existed → MutexStep s (check_existed p s existed)
  drops : (p : ℕ) → HasHandle (s p) → MutexStep s (close_handle p s)

pub data MutexReach (s : Processes) : Processes → Type 0 where
  here : MutexReach s s
  next : {t u : Processes} → MutexReach s t → MutexStep t u → MutexReach s u

abbrev pub none_started : Processes
none_started p = start
