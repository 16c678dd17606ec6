-- ===== src/Worker/Loop/Idle.antt =====
-- `worker_loop`: when a worker ends.
use sqlite_daemon.Prelude.{ℕ, ◌+◌, ◌-◌, ◌≤◌, ◌≡◌, ◌↔◌, refl, true, none, arith}
use sqlite_daemon.Platform.{Platform}
use sqlite_daemon.Worker.State.{WorkerState, worker_idle_timeout}
use sqlite_daemon.Worker.Loop.{Event, command, channel_closed, sleep, time_until_timeout, turn}

module _ (P : Platform) where
  open P use {json}
  open P.sqlx use {World}

  -- What ends a worker: all senders are gone, or the timer fires with no command waiting and five
  -- minutes or more after the last command came in.
  abbrev pub Ends : Event P → WorkerState P → Type 0
  Ends (command now req) state = ⊥
  Ends channel_closed state = Unit
  Ends (sleep now is_empty) state =
      (is_empty ≡ true) × (worker_idle_timeout ≤ now - state.last_activity)

  -- A turn of the loop ends the worker exactly when this holds.
  pub turn-Ends :
      (event : Event P) (state : WorkerState P) (w : World)
      → ((turn P event state w).0.state ≡ none) ↔ Ends event state
  unfolding turn
  turn-Ends (command now req) state w = (λ e. cc, λ h. absurd h)
  turn-Ends channel_closed state w = (λ e. tt, λ h. refl)
  turn-Ends (sleep now is_empty) state w = (λ e. ground arith, λ h. ground arith)

  -- A timer that was set at the instant `polled`, and fires no earlier than it was set for, ends a
  -- worker with no command waiting: it does not go round once more.
  timer_ends :
      (state : WorkerState P) (polled now : ℕ) (w : World)
      → state.last_activity ≤ polled
      → polled + time_until_timeout P state polled ≤ now
      → (turn P (sleep now true) state w).0.state ≡ none
  unfolding turn time_until_timeout
  timer_ends state polled now w before fires = ground arith
