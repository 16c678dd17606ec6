-- ===== src/Worker/Loop/Lives.antt =====
-- `worker_loop`: invariants of a worker's life.
use sqlite_daemon.Prelude.{
  ℕ, ◌≡◌, refl, ◌∙◌, sym, ap, String, List, [], ◌∷◌, Option, none, some, Result-cases, Option-cases,
  inl, inr, arith, subst, subst₂, All, ◌⊎◌,
}
use sqlite_daemon.Platform.{Platform}
use sqlite_daemon.Protocol.{Request, Response}
use sqlite_daemon.Worker.State.{DatabaseState, opened, preparing, closed, WorkerState}
use sqlite_daemon.Worker.Database.{init_database}
use sqlite_daemon.Worker.Sqlite.{PoolLaws}
use sqlite_daemon.Worker.Handlers.{handle_request}
use sqlite_daemon.Worker.Handlers.Closed.{
  IsShut, NoReopen, handle_request_shut, shut_state, shut_state-IsShut,
}
use sqlite_daemon.Worker.Handlers.Pools.{
  NoneHeld, HeldBy, handle_request-HeldBy, init_database-Opens, drop_only_held, Opens,
}
use sqlite_daemon.Worker.Loop.{
  Event, command, channel_closed, sleep, turn, drop_state, loop, worker_loop,
}

module _ (P : Platform) where
  open P use {json}
  open P.sqlx use {World, Pool}

  -- One turn of the loop, by what it leaves.
  pub loop_step_end :
      (event : Event P) (events : List (Event P)) (state : WorkerState P) (w : World)
      → (turn P event state w).0.state ≡ none
      → loop P (event ∷ events) state w ≡ (
        ((turn P event state w).0.reply ∷ [], none),
        (drop_state P state.db_state (turn P event state w).1).1,
      )
  unfolding loop
  loop_step_end event events state w h = ground arith

  pub loop_step :
      (event : Event P) (events : List (Event P)) (state next : WorkerState P) (w : World)
      → (turn P event state w).0.state ≡ some next
      → let ((replies, end), w') = loop P events next (turn P event state w).1 in
        loop P (event ∷ events) state w ≡ (((turn P event state w).0.reply ∷ replies, end), w')
  unfolding loop
  loop_step event events state next w h = ground arith

  -- What a worker has left: the database's state if it is there, or what holds once it is gone.
  abbrev pub Left {ℓ} :
      (World → DatabaseState P → Type ℓ)
      → (World → Type ℓ)
      → Option (WorkerState P)
      → World
      → Type ℓ
  Left Holding Gone (some state) w = Holding w state.db_state
  Left Holding Gone none w = Gone w

  -- An invariant of the turns is one of the loop.
  module _ {ℓ} (Good : Event P → Type 0) (Holding : World → DatabaseState P → Type ℓ)
      (Gone : World → Type ℓ)
      (keeps : (event : Event P) (state next : WorkerState P) (w : World)
        → Good event
        → Holding w state.db_state
        → (turn P event state w).0.state ≡ some next
        → Holding (turn P event state w).1 next.db_state)
      (ends : (event : Event P) (state : WorkerState P) (w : World)
        → Holding w state.db_state
        → (turn P event state w).0.state ≡ none
        → Gone (drop_state P state.db_state (turn P event state w).1).1) where
    loop_inv :
        (events : List (Event P)) (state : WorkerState P) (w : World)
        → All Good events
        → Holding w state.db_state
        → let ((replies, end), w') = loop P events state w in Left Holding Gone end w'
    unfolding loop
    loop_inv [] state w good h = h
    loop_inv (event ∷ events) state w (g, good) h =
        elim (Option-cases (turn P event state w).0.state) [
          | inl e ↦
              subst (λ x. Left Holding Gone x.0.1 x.1) (sym (loop_step_end event events state w e))
                (ends event state w h e)
          | inr (next, e) ↦
              subst (λ x. Left Holding Gone x.0.1 x.1) (sym (loop_step event events state next w e))
                (loop_inv events next (turn P event state w).1 good
                  (keeps event state next w g h e))
        ]

  -- A turn that serves no command calls nothing, and keeps the database's state.
  turn_quiet :
      (event : Event P) (state next : WorkerState P) (w : World)
      → (turn P event state w).0.state ≡ some next
      → ((req : Request json) × (now : ℕ) × (event ≡ command now req))
        ⊎ (((turn P event state w).1 ≡ w) × (next ≡ state))
  unfolding turn
  turn_quiet (command now req) state next w e = inl (req, now, refl)
  turn_quiet channel_closed state next w e = cc
  turn_quiet (sleep now is_empty) state next w e = inr (ground arith, ground arith)

  turn_last :
      (event : Event P) (state : WorkerState P) (w : World)
      → (turn P event state w).0.state ≡ none
      → (turn P event state w).1 ≡ w
  unfolding turn
  turn_last (command now req) state w e = cc
  turn_last channel_closed state w e = refl
  turn_last (sleep now is_empty) state w e = ground arith

  abbrev pub NoReopening : Event P → Type 0
  NoReopening (command now req) = NoReopen P req
  NoReopening _ = Unit

  module _ (w₀ : World) where
    abbrev Untouched : World → DatabaseState P → Type 0
    Untouched w d = IsShut P d × (w ≡ w₀)

    Untouched-keeps :
        (event : Event P) (state next : WorkerState P) (w : World)
        → NoReopening event
        → Untouched w state.db_state
        → (turn P event state w).0.state ≡ some next
        → Untouched (turn P event state w).1 next.db_state
    unfolding turn
    Untouched-keeps (command now req) state next w g h e =
        let d = state.db_state in
        let p = handle_request_shut P req (record state { last_activity = now }) w h.0 g in
        let q : next ≡ record state { db_state = shut_state P d req; last_activity = now } =
          cc (ap (λ (x : (Response × WorkerState P) × World). x.0.1) p) in
        (
          subst (λ (s : WorkerState P). IsShut P s.db_state) (sym q)
              (shut_state-IsShut P d req h.0),
          ap (λ (x : (Response × WorkerState P) × World). x.1) p ∙ h.1,
        )
    Untouched-keeps channel_closed state next w g h e = cc
    Untouched-keeps (sleep now is_empty) state next w g h e = ground arith

    drop_shut : (d : DatabaseState P) (w : World) → IsShut P d → (drop_state P d w).1 ≡ w
    unfolding drop_state
    drop_shut (opened p) w h = absurd h
    drop_shut preparing w h = refl
    drop_shut closed w h = refl

    Untouched-ends :
        (event : Event P) (state : WorkerState P) (w : World)
        → Untouched w state.db_state
        → (turn P event state w).0.state ≡ none
        → (drop_state P state.db_state (turn P event state w).1).1 ≡ w₀
    Untouched-ends event state w h e =
        drop_shut state.db_state (turn P event state w).1 h.0 ∙ turn_last event state w e ∙ h.1

  -- From a preparing or closed database, over any events in which no reopening is asked for, idle
  -- timeouts and the end of the channel among them, the worker leaves the outside world as it is;
  -- while it is there its database stays preparing or closed.
  pub loop-IsShut :
      (events : List (Event P)) (state : WorkerState P) (w : World)
      → All NoReopening events
      → IsShut P state.db_state
      → let ((replies, end), w') = loop P events state w in
        Left (λ v d. IsShut P d × (v ≡ w)) (λ v. v ≡ w) end w'
  loop-IsShut events state w good h =
      loop_inv NoReopening (Untouched w) (λ v. v ≡ w) (Untouched-keeps w) (Untouched-ends w) events
        state w good (h, refl)

  module _ (L : PoolLaws P.sqlx) where
    open L use {Holds}

    abbrev pub Held : World → DatabaseState P → Type 0
    Held w d = HeldBy P L (Holds w) d

    pub Held-keeps :
        (event : Event P) (state next : WorkerState P) (w : World)
        → Unit {0}
        → Held w state.db_state
        → (turn P event state w).0.state ≡ some next
        → Held (turn P event state w).1 next.db_state
    unfolding turn
    Held-keeps (command now req) state next w g h e =
        let x = handle_request P req (record state { last_activity = now }) w in
        let p : x.0.1 ≡ next = cc in
        subst (λ (s : WorkerState P). Held x.1 s.db_state) p
          (handle_request-HeldBy P L req (record state { last_activity = now }) w h)
    Held-keeps channel_closed state next w g h e = cc
    Held-keeps (sleep now is_empty) state next w g h e =
        let t = turn P (sleep now is_empty) state w in
        let p : next ≡ state = ground arith in
        let q : t.1 ≡ w = ground arith in
        subst₂ (λ v (s : WorkerState P). Held v s.db_state) (sym q) (sym p) h

    drop_held :
        (d : DatabaseState P) (w : World) → Held w d → NoneHeld P L (Holds (drop_state P d w).1)
    unfolding drop_state
    drop_held (opened p) w h = drop_only_held P L p w h
    drop_held preparing w h = h
    drop_held closed w h = h

    pub Held-ends :
        (event : Event P) (state : WorkerState P) (w : World)
        → Held w state.db_state
        → (turn P event state w).0.state ≡ none
        → NoneHeld P L (Holds (drop_state P state.db_state (turn P event state w).1).1)
    Held-ends event state w h e =
        subst (λ v. NoneHeld P L (Holds (drop_state P state.db_state v).1))
          (sym (turn_last event state w e)) (drop_held state.db_state w h)

    All-good : (events : List (Event P)) → All (λ _. Unit {0}) events
    All-good [] = tt
    All-good (event ∷ events) = (tt, All-good events)

    -- A worker that starts where no pool holds the database's files has, after any events, its open
    -- pool as the only one that holds them, if the database is open, and none if it is preparing or
    -- closed; and once the worker is gone, or did not start, none holds them.
    pub worker_loop-HeldBy :
        (events : List (Event P)) (path name : String) (now : ℕ) (w : World)
        → NoneHeld P L (Holds w)
        → let ((replies, end), w') = worker_loop P events path name now w in
          Left (λ v d. HeldBy P L (Holds v) d) (λ v. NoneHeld P L (Holds v)) end w'
    unfolding worker_loop
    worker_loop-HeldBy events path name now w free =
        let (o, w₁) = init_database P path w in
        let opens = init_database-Opens P L path w free in
        elim (Result-cases o) [
          | inl (p, e) ↦
              let state : WorkerState P = record {
                db_state = opened p;
                db_path = path;
                db_name = name;
                last_activity = now;
              } in
              let q : worker_loop P events path name now w ≡ loop P events state w₁ =
                ground arith in
              subst (λ x. Left Held (λ v. NoneHeld P L (Holds v)) x.0.1 x.1) (sym q)
                (loop_inv (λ _. Unit {0}) Held (λ v. NoneHeld P L (Holds v)) Held-keeps Held-ends
                  events state w₁ (All-good events) (subst (λ r. Opens P L r (Holds w₁)) e opens))
          | inr (x, e) ↦
              let q : worker_loop P events path name now w ≡ (([], none), w₁) = ground arith in
              subst (λ x. Left Held (λ v. NoneHeld P L (Holds v)) x.0.1 x.1) (sym q)
                (subst (λ r. Opens P L r (Holds w₁)) e opens)
        ]
