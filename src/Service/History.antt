-- ===== src/Service/History.antt =====
-- What becomes of one database, as a sequence of actions of its workers, one after the other.
use sqlite_daemon.Prelude.{
  ℕ, String, List, [], ◌∷◌, ◌++◌, map, Option, none, some, Result, ok, err, ◌≡◌, refl, ap, ◌∙◌, sym,
  arith, Result-cases, Option-cases, inl, inr,
}
use sqlite_daemon.Platform.{Platform}
use sqlite_daemon.Protocol.{Response}
use sqlite_daemon.Worker.State.{opened, WorkerState}
use sqlite_daemon.Worker.Database.{init_database}
use sqlite_daemon.Worker.Loop.{Event, Turn, turn, drop_state, loop, worker_loop}
use sqlite_daemon.Worker.Loop.Lives.{loop_step, loop_step_end}

module _ (P : Platform) where
  open P.sqlx use {World, Pool}

  -- A worker starts, at an instant, or one event of its loop.
  pub data Action : Type 0 where
    start : (now : ℕ) → Action
    event : Event P → Action

  -- The state of the worker, if there is one, and the outside world.
  abbrev pub Current : Type 0
  Current = Option (WorkerState P) × World

  -- The database's path and its name.
  module _ (path name : String) where
    abbrev pub started : ℕ → Result String Pool → Option (WorkerState P)
    started now (ok pool) =
        some
          (record { db_state = opened pool; db_path = path; db_name = name; last_activity = now })
    started now (err e) = none

    -- What is left after a turn of the loop.
    abbrev pub after_turn : WorkerState P → Turn P × World → Current
    after_turn state (t, w) = elim t.state [
      | some state' ↦ (some state', w)
      | none ↦ (none, (drop_state P state.db_state w).1)
    ]

    -- An event without a worker does nothing.
    unfoldable pub perform : Action → Current → Current
    perform (start now) (state, w) = let (r, w') = init_database P path w in (started now r, w')
    perform (event e) (none, w) = (none, w)
    perform (event e) (some state, w) = after_turn state (turn P e state w)

    unfoldable pub run : List Action → Current → Current
    run [] current = current
    run (a ∷ actions) current = run actions (perform a current)

    pub run-append :
        (xs ys : List Action) (current : Current) → run (xs ++ ys) current ≡ run ys (run xs current)
    unfolding run
    run-append [] ys current = refl
    run-append (a ∷ xs) ys current = run-append xs ys (perform a current)

    run_none : (events : List (Event P)) (w : World) → run (map event events) (none, w) ≡ (none, w)
    unfolding run perform
    run_none [] w = refl
    run_none (e ∷ events) w = run_none events w

    pub perform_goes_on :
        (e : Event P) (state state' : WorkerState P) (w : World)
        → (turn P e state w).0.state ≡ some state'
        → perform (event e) (some state, w) ≡ (some state', (turn P e state w).1)
    unfolding perform
    perform_goes_on e state state' w x = ground arith

    pub perform_ends :
        (e : Event P) (state : WorkerState P) (w : World)
        → (turn P e state w).0.state ≡ none
        → perform (event e) (some state, w)
          ≡ (none, (drop_state P state.db_state (turn P e state w).1).1)
    unfolding perform
    perform_ends e state w x = ground arith

    -- The state and the world that a run of the loop leaves.
    abbrev left : List (Option Response) × Option (WorkerState P) → World → Current
    left x w = (x.1, w)

    run-loop :
        (events : List (Event P)) (state : WorkerState P) (w : World)
        → run (map event events) (some state, w)
          ≡ left (loop P events state w).0 (loop P events state w).1
    unfolding run loop
    run-loop [] state w = refl
    run-loop (e ∷ events) state w =
        let v = (turn P e state w).1 in
        elim (Option-cases (turn P e state w).0.state) [
          | inl x ↦
              ap (run (map event events)) (perform_ends e state w x)
              ∙ run_none events (drop_state P state.db_state v).1
              ∙ ap (λ (y : (List (Option Response) × Option (WorkerState P)) × World). left y.0 y.1)
                  (sym (loop_step_end P e events state w x))
          | inr (state', x) ↦
              ap (run (map event events)) (perform_goes_on e state state' w x)
              ∙ run-loop events state' v
              ∙ ap (λ (y : (List (Option Response) × Option (WorkerState P)) × World). left y.0 y.1)
                  (sym (loop_step P e events state state' w x))
        ]

    worker_loop_opened :
        (now : ℕ) (events : List (Event P)) (w : World) (pool : Pool)
        → (init_database P path w).0 ≡ ok pool
        → worker_loop P events path name now w
          ≡ loop P events
              (record {
                db_state = opened pool;
                db_path = path;
                db_name = name;
                last_activity = now;
              })
              (init_database P path w).1
    unfolding worker_loop
    worker_loop_opened now events w pool x = ground arith

    worker_loop_failed :
        (now : ℕ) (events : List (Event P)) (w : World) (e : String)
        → (init_database P path w).0 ≡ err e
        → worker_loop P events path name now w ≡ (([], none), (init_database P path w).1)
    unfolding worker_loop
    worker_loop_failed now events w e x = ground arith

    -- The actions of a worker's life are `worker_loop`, whatever was before.
    pub run-worker_loop :
        (now : ℕ) (events : List (Event P)) (current : Current)
        → run (start now ∷ map event events) current ≡ (
          (worker_loop P events path name now current.1).0.1,
          (worker_loop P events path name now current.1).1,
        )
    unfolding run perform
    run-worker_loop now events (state, w) =
        let v = (init_database P path w).1 in
        let out = λ (y : (List (Option Response) × Option (WorkerState P)) × World). left y.0 y.1 in
        elim (Result-cases (init_database P path w).0) [
          | inl (pool, x) ↦
              ap (λ r. run (map event events) (started now r, v)) x
              ∙ run-loop events _ v
              ∙ ap out (sym (worker_loop_opened now events w pool x))
          | inr (e, x) ↦
              ap (λ r. run (map event events) (started now r, v)) x
              ∙ run_none events v
              ∙ ap out (sym (worker_loop_failed now events w e x))
        ]
