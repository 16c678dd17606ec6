-- ===== src/Service/Holders.antt =====
-- daemon/src/router.rs with daemon/src/worker.rs: which pools hold a database's files.
use sqlite_daemon.Prelude.{
  ℕ, String, sym, subst, List, [], ◌∷◌, none, some, Result, ok, err, Option-cases, inl, inr,
}
use sqlite_daemon.Platform.{Platform}
use sqlite_daemon.Worker.Database.{init_database}
use sqlite_daemon.Worker.Sqlite.{PoolLaws}
use sqlite_daemon.Worker.Handlers.Pools.{NoneHeld, HeldBy, Opens, init_database-Opens}
use sqlite_daemon.Worker.Loop.{turn}
use sqlite_daemon.Worker.Loop.Lives.{Held-keeps, Held-ends}
use sqlite_daemon.Service.History.{
  Action, start, event, started, perform, run, Current, perform_goes_on, perform_ends,
}
use sqlite_daemon.Service.{Service, state_of, initial, Reach}
use sqlite_daemon.Service.Routes.{AllKept}
use sqlite_daemon.Service.Serial.{replay, world_serial}
use sqlite_daemon.Service.Lives.{Fits, AllFit, lives_follow}

module _ (P : Platform) (L : PoolLaws P.sqlx) where
  open P.sqlx use {World, Pool}
  open L use {Holds}

  -- With an open database its pool and no other holds the files; else no pool does.
  abbrev pub HeldNow : Current P → Type 0
  HeldNow (some state, w) = HeldBy P L (Holds w) state.db_state
  HeldNow (none, w) = NoneHeld P L (Holds w)

  module _ (path name : String) where
    started-HeldNow :
        (now : ℕ) (r : Result String Pool) (w : World)
        → Opens P L r (Holds w)
        → HeldNow (started P path name now r, w)
    started-HeldNow now (ok pool) w h = h
    started-HeldNow now (err e) w h = h

    perform-HeldNow :
        (a : Action P) (current : Current P)
        → Fits P a current.0
        → HeldNow current
        → HeldNow (perform P path name a current)
    unfolding perform
    perform-HeldNow (start now) (none, w) fit h =
        started-HeldNow now (init_database P path w).0 (init_database P path w).1
          (init_database-Opens P L path w h)
    perform-HeldNow (start now) (some state, w) fit h = absurd (cc)
    perform-HeldNow (event e) (none, w) (state, fit) h = absurd (cc)
    perform-HeldNow (event e) (some state, w) fit h =
        elim (Option-cases (turn P e state w).0.state) [
          | inl x ↦
              subst HeldNow (sym (perform_ends P path name e state w x))
                (Held-ends P L e state w h x)
          | inr (state', x) ↦
              subst HeldNow (sym (perform_goes_on P path name e state state' w x))
                (Held-keeps P L e state state' w tt h x)
        ]

  module _ (path : String → String) (first : String → World) (name : String) where
    run-HeldNow :
        (actions : List (Action P)) (current : Current P)
        → AllFit P path first name actions current
        → HeldNow current
        → HeldNow (run P (path name) name actions current)
    unfolding run
    run-HeldNow [] current fits h = h
    run-HeldNow (a ∷ actions) current (fit, fits) h =
        run-HeldNow actions (perform P (path name) name a current) fits
          (perform-HeldNow (path name) name a current fit h)

    history-HeldNow :
        (s : Service P) (reached : Reach P path (initial P first) s)
        → AllKept P path reached
        → NoneHeld P L (Holds (first name))
        → HeldNow (replay P path first name (s.history name))
    history-HeldNow s reached k free =
        run-HeldNow (s.history name) (none, first name) (lives_follow P path first s name reached k)
          free

  -- In the whole daemon, for databases whose names denote different files and statements that attach no
  -- database, where no pool holds a database's files at first and as long as no running worker is taken
  -- out of the map: the files are held by the pool of the database's worker and by no other if
  -- there is one that has the database open, and by none if the worker is preparing or closed or has not
  -- opened it yet, or none is there.
  pub state_of-HeldNow :
      (path : String → String) (first : String → World) (s : Service P) (name : String)
      (reached : Reach P path (initial P first) s)
      → AllKept P path reached
      → NoneHeld P L (Holds (first name))
      → HeldNow (state_of P s name, s.world name)
  state_of-HeldNow path first s name reached k free =
      subst HeldNow (world_serial P path first s name reached k)
        (history-HeldNow path first name s reached k free)
