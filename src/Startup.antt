-- ===== src/Startup.antt =====
-- `main` of daemon/src/main.rs with `run_server` of daemon/src/server.rs, on Unix: any number of
-- processes that acquire the guard, take over the socket's path, listen and stop. The guard is used by
-- its contract: it is given to one process at a time.
pub mod Listens
pub mod Run
mod Examples
use sqlite_daemon.Prelude.{ℕ, ◌≡◌, Option, none, some}
use sqlite_daemon.SingleInstance.{set}

pub data Progress : Type 0 where
  start : Progress
  -- `try_acquire` has returned the guard
  guarded : Progress
  -- `remove_file(pipe_name)` is done
  cleared : Progress
  -- the listener is bound: connections are accepted, whatever comes of one
  listening : Progress
  -- `run_server` has returned an error
  server_failed : Progress
  stopped : Progress

pub record Machine : Type 0 where
  -- the process whose listener the socket's path names
  pub socket : Option ℕ
  pub progress : ℕ → Progress

abbrev pub HasGuard : Progress → Type 0
HasGuard guarded = Unit
HasGuard cleared = Unit
HasGuard listening = Unit
HasGuard server_failed = Unit
HasGuard _ = ⊥

module _ (p : ℕ) (m : Machine) where
  unfoldable pub acquire : Machine
  acquire = record m { progress = set m.progress p guarded }

  -- The path is removed, whatever it names.
  unfoldable pub clear_path : Machine
  clear_path = record { socket = none; progress = set m.progress p cleared }

  -- `UnixListener::bind`: a path that names a file is an error.
  unfoldable pub bind_socket : Machine
  bind_socket = elim m.socket [
    | none ↦ record { socket = some p; progress = set m.progress p listening }
    | some q ↦ record m { progress = set m.progress p server_failed }
  ]

  -- Any other error of `bind`.
  unfoldable pub fail_bind : Machine
  fail_bind = record m { progress = set m.progress p server_failed }

  -- `main` returns, with the guard dropped, or the process ends otherwise. The path stays.
  unfoldable pub stop : Machine
  stop = record m { progress = set m.progress p stopped }

pub data Step (m : Machine) : Machine → Type 0 where
  acquires :
      (p : ℕ)
      → m.progress p ≡ start
      → ((q : ℕ) → HasGuard (m.progress q) → ⊥)
      → Step m (acquire p m)
  -- `try_acquire` fails, and `main` returns its error.
  refused : (p : ℕ) → m.progress p ≡ start → Step m (stop p m)
  clears : (p : ℕ) → m.progress p ≡ guarded → Step m (clear_path p m)
  binds : (p : ℕ) → m.progress p ≡ cleared → Step m (bind_socket p m)
  fails : (p : ℕ) → m.progress p ≡ cleared → Step m (fail_bind p m)
  stops : (p : ℕ) → HasGuard (m.progress p) → Step m (stop p m)

pub data Reach (m : Machine) : Machine → Type 0 where
  here : Reach m m
  next : {u v : Machine} → Reach m u → Step u v → Reach m v

-- No process has started; the path may name a socket that is left over.
abbrev pub booted : Option ℕ → Machine
booted left_over = record { socket = left_over; progress = λ p. start }
