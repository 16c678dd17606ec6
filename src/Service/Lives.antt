-- ===== src/Service/Lives.antt =====
-- The lives of a database's workers, in its history.
use text.Mathlib.TextEquality.{eq_iff}
use text.Mathlib.Text.{◌==◌ as str_eq}
use sqlite_daemon.Prelude.{
  ℕ, String, ◌≡◌, sym, subst, List, [], ◌∷◌, ◌++◌, Option, none, some, Bool-cases, inl, inr,
}
use sqlite_daemon.Platform.{Platform}
use sqlite_daemon.Worker.State.{WorkerState}
use sqlite_daemon.Worker.Loop.{command, channel_closed, sleep}
use sqlite_daemon.Router.{running}
use sqlite_daemon.Service.History.{Action, start, event, perform, run, Current}
use sqlite_daemon.Service.{
  Service, initial, ask, look, create, send, end_wait, remove, act, serve, leave, Step, asks, looks,
  creates, sends, receives, loses, removes, starts, serves, wakes, closes, cleans, Reach, here,
  next,
}
use sqlite_daemon.Service.Routes.{AllKept}
use sqlite_daemon.Service.Serial.{replay, worker_serial}

module _ (P : Platform) where
  -- A worker starts where there is none, and has events while there is one.
  abbrev pub Fits : Action P → Option (WorkerState P) → Type 0
  Fits (start now) state = state ≡ none
  Fits (event e) state = (s : WorkerState P) × (state ≡ some s)

module _ (P : Platform) (path : String → String) (first : String → P.sqlx.World) where
  module _ (name : String) where
    abbrev pub AllFit : List (Action P) → Current P → Type 0
    AllFit [] current = Unit
    AllFit (a ∷ actions) current =
        Fits P a current.0 × AllFit actions (perform P (path name) name a current)

    AllFit-snoc :
        (actions : List (Action P)) (a : Action P) (current : Current P)
        → AllFit actions current
        → Fits P a (run P (path name) name actions current).0
        → AllFit (actions ++ a ∷ []) current
    unfolding run
    AllFit-snoc [] a current fit last = (last, tt)
    AllFit-snoc (x ∷ actions) a current (fit, fits) last =
        (fit, AllFit-snoc actions a (perform P (path name) name x current) fits last)

  abbrev HistoriesFit : Service P → Type 0
  HistoriesFit s = (name : String) → AllFit name (s.history name) (none, first name)

  act-HistoriesFit :
      (s : Service P) (w : ℕ) (a : Action P)
      → replay P path first (s.router.db_name w) (s.history (s.router.db_name w))
        ≡ (s.stage w, s.world (s.router.db_name w))
      → Fits P a (s.stage w)
      → HistoriesFit s
      → HistoriesFit (act P path w s a)
  unfolding act
  act-HistoriesFit s w a led fit h name =
      let n = s.router.db_name w in
      elim (Bool-cases (str_eq name n)) [
        | inl x ↦
            let at : n ≡ name = sym ((eq_iff name n).0 x) in
            rw x (
              subst (λ m. AllFit m (s.history n ++ a ∷ []) (none, first m)) at
                (AllFit-snoc n (s.history n) a (none, first n) (h n)
                  (subst (λ (c : Current P). Fits P a c.0) (sym led) fit)))
        | inr x ↦ rw x (h name)
      ]

  Step-HistoriesFit :
      {s v : Service P} (st : Step P path s v)
      → ((w : ℕ)
          → s.router.life w ≡ running
          → replay P path first (s.router.db_name w) (s.history (s.router.db_name w))
            ≡ (s.stage w, s.world (s.router.db_name w)))
      → HistoriesFit s
      → HistoriesFit v
  unfolding ask look create send end_wait remove serve leave
  Step-HistoriesFit (asks t req e) serial h = h
  Step-HistoriesFit (looks t n e) serial h = h
  Step-HistoriesFit (creates t n e) serial h = h
  Step-HistoriesFit (sends t n w e room) serial h = h
  Step-HistoriesFit (receives t n w response e got) serial h = h
  Step-HistoriesFit (loses t n w e nothing dead) serial h = h
  Step-HistoriesFit (removes t n e) serial h = h
  Step-HistoriesFit {s} (starts w now alive e) serial h =
      act-HistoriesFit s w (start now) (serial w alive) e h
  Step-HistoriesFit {s} (serves w now k req rest state alive e q) serial h =
      act-HistoriesFit s w (event (command now req)) (serial w alive) (state, e) h
  Step-HistoriesFit {s} (wakes w now was state alive e seen) serial h =
      act-HistoriesFit s w (event (sleep now was)) (serial w alive) (state, e) h
  Step-HistoriesFit {s} (closes w state alive e q unmapped unused) serial h =
      act-HistoriesFit s w (event channel_closed) (serial w alive) (state, e) h
  Step-HistoriesFit (cleans w over) serial h = h

  -- As long as no running worker is taken out of the map: in the history of a database a worker starts
  -- only where none is there, and every event falls in the life of a worker that has opened the
  -- database. So no two workers of one database overlap.
  pub lives_follow :
      (s : Service P) (name : String) (run : Reach P path (initial P first) s)
      → AllKept P path run
      → AllFit name (s.history name) (none, first name)
  lives_follow s name here k = tt
  lives_follow s name (next {u} run st) (k, kept) =
      Step-HistoriesFit st (λ w alive. worker_serial P path first u w run k alive)
        (λ m. lives_follow u m run k) name
