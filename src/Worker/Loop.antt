-- ===== src/Worker/Loop.antt =====
-- `worker_loop`: what the `select!` delivers are events, in the order of delivery.
pub mod Idle
pub mod Lives
use sqlite_daemon.Prelude.{
  ℕ, ◌-◌, String, Bool, ◌&&◌, List, [], ◌∷◌, Option, none, some, ok, err, Io, pure, ◌>>=◌, ◌>>◌,
  leb, if◌then◌else◌,
}
use sqlite_daemon.Platform.{Platform}
use sqlite_daemon.Protocol.{Request, Response}
use sqlite_daemon.Worker.State.{
  DatabaseState, opened, preparing, closed, WorkerState, worker_idle_timeout,
}
use sqlite_daemon.Worker.Database.{init_database}
use sqlite_daemon.Worker.Handlers.{handle_request}

module _ (P : Platform) where
  open P.sqlx use {World, drop_pool}
  open P use {json}

  -- `recv` gives a command at the instant `now`, or ends as all senders are gone; `sleep` fires at
  -- `now`, where `rx.is_empty()` reads `is_empty`.
  pub data Event : Type 0 where
    command : (now : ℕ) → Request json → Event
    channel_closed : Event
    sleep : (now : ℕ) (is_empty : Bool) → Event

  -- `elapsed()` and `saturating_sub` stop at zero, as `-` does.
  unfoldable pub time_until_timeout : WorkerState P → ℕ → ℕ
  time_until_timeout state now = worker_idle_timeout - (now - state.last_activity)

  -- One turn of the loop: the reply that it sends, and the state unless the turn breaks.
  pub record Turn : Type 0 where
    pub reply : Option Response
    pub state : Option (WorkerState P)

  unfoldable pub turn : Event → WorkerState P → Io World Turn
  turn (command now req) state = do
    (resp, state') ← handle_request P req (record state { last_activity = now })
    pure (record { reply = some resp; state = some state' })
  turn channel_closed state = pure (record { reply = none; state = none })
  turn (sleep now is_empty) state =
      if is_empty && leb worker_idle_timeout (now - state.last_activity)
      then pure (record { reply = none; state = none })
      else pure (record { reply = none; state = some state })

  -- The state goes out of scope as the loop is left, and an open pool with it.
  unfoldable pub drop_state : DatabaseState P → Io World (Unit {0})
  drop_state (opened pool) = drop_pool pool
  drop_state preparing = pure tt
  drop_state closed = pure tt

  -- The replies to the commands that were served, and the state of a worker that is still there.
  unfoldable pub loop :
      List Event → WorkerState P → Io World (List (Option Response) × Option (WorkerState P))
  unfolding turn drop_state
  loop [] state = pure ([], some state)
  loop (event ∷ events) state = do
    t ← turn event state
    elim t.state [
      | none ↦ do drop_state state.db_state; pure (t.reply ∷ [], none)
      | some state' ↦ do (replies, end) ← loop events state'; pure (t.reply ∷ replies, end)
    ]

  -- The worker from its start at the instant `now`. It ends at once if the database does not open.
  unfoldable pub worker_loop :
      List Event → String → String → ℕ → Io World (List (Option Response) × Option (WorkerState P))
  unfolding loop
  worker_loop events db_path db_name now = do
    r ← init_database P db_path
    elim r [
      | err e ↦ pure ([], none)
      | ok pool ↦ loop events (record {
        db_state = opened pool;
        db_path = db_path;
        db_name = db_name;
        last_activity = now;
      })
    ]
