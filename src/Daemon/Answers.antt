-- ===== src/Daemon/Answers.antt =====
-- The responses of each connection, and what they answer.
pub mod Serving
pub mod Steps
use sqlite_daemon.Prelude.{
  ℕ, ◌≡◌, ◌≢◌, refl, sym, ap, ◌∙◌, subst, String, Bool, true, false, List, [], ◌∷◌, ◌++◌,
  append_assoc, Option, none, some, ◌==◌, ==_iff, arith, Bool-cases, Option-cases, inl, inr, ◌⊎◌,
}
use sqlite_daemon.Platform.{Platform}
use sqlite_daemon.Protocol.{Request, Response}
use sqlite_daemon.Worker.State.{WorkerState}
use sqlite_daemon.Worker.Loop.{command, channel_closed, sleep}
use sqlite_daemon.Router
use sqlite_daemon.Router.{
  Router, Task, idle, looking, missed, sending, awaiting, removing, Start, respond, forward,
  route_start, extract_db_name, begin, fast_path, slow_path, receive, remove_worker, terminate,
  clean_up, is_running, set, set_name,
}
use sqlite_daemon.Service.History.{Action, start, event}
use sqlite_daemon.Service.{
  Service, ask, look, create, send, end_wait, remove, act, serve, leave, after_action, asks, looks,
  creates, sends, receives, loses, removes, starts, serves, wakes, closes, cleans, is_empty,
}
use sqlite_daemon.Service
use sqlite_daemon.Service.Replies.{Answered, grow-Answered}
use sqlite_daemon.Daemon.{communication_failed, IsInternal}

module _ (P : Platform) (path : String → String) (first : String → P.sqlx.World) where
  open P use {json}

  -- The router's own answer; or for a request to a database, its worker's reply, from the turn on this
  -- request in the database's history, or the error.
  abbrev pub IsAnswer : (String → List (Action P)) → Request json → Response → Type 0
  IsAnswer history req response =
      (route_start req ≡ respond response)
      ⊎ ((name : String) × (extract_db_name req ≡ some name)
          × ((response ≡ communication_failed)
              ⊎ Answered P path first history (name, req) response))

  -- One response for each request, in their order.
  abbrev pub AllAnswered : (String → List (Action P)) → List (Request json) → List Response → Type 0
  AllAnswered history [] [] = Unit
  AllAnswered history [] (r ∷ responses) = ⊥
  AllAnswered history (req ∷ reqs) [] = ⊥
  AllAnswered history (req ∷ reqs) (r ∷ responses) =
      IsAnswer history req r × AllAnswered history reqs responses

  pub AllAnswered-snoc :
      (history : String → List (Action P)) (reqs : List (Request json)) (responses : List Response)
      (req : Request json) (response : Response)
      → AllAnswered history reqs responses
      → IsAnswer history req response
      → AllAnswered history (reqs ++ req ∷ []) (responses ++ response ∷ [])
  AllAnswered-snoc history [] [] req response all is = (is, tt)
  AllAnswered-snoc history [] (r ∷ responses) req response all is = absurd all
  AllAnswered-snoc history (q ∷ reqs) [] req response all is = absurd all
  AllAnswered-snoc history (q ∷ reqs) (r ∷ responses) req response (x, all) is =
      (x, AllAnswered-snoc history reqs responses req response all is)

  -- Histories only gain actions, so that an answer stays one.
  abbrev Keeps : (String → List (Action P)) → (String → List (Action P)) → Type 0
  Keeps old new =
      (req : Request json) (response : Response)
      → IsAnswer old req response
      → IsAnswer new req response

  pub Keeps-AllAnswered :
      (old new : String → List (Action P))
      → Keeps old new
      → (reqs : List (Request json)) (responses : List Response) → AllAnswered old reqs responses
      → AllAnswered new reqs responses
  Keeps-AllAnswered old new keeps [] [] all = tt
  Keeps-AllAnswered old new keeps [] (r ∷ responses) all = absurd all
  Keeps-AllAnswered old new keeps (q ∷ reqs) [] all = absurd all
  Keeps-AllAnswered old new keeps (q ∷ reqs) (r ∷ responses) (x, all) =
      (keeps q r x, Keeps-AllAnswered old new keeps reqs responses all)

  grow-Keeps :
      (history : String → List (Action P)) (n : String) (a : Action P)
      → Keeps history (set_name history n (history n ++ a ∷ []))
  grow-Keeps history n a req response (inl x) = inl x
  grow-Keeps history n a req response (inr (name, x, inl y)) = inr (name, x, inl y)
  grow-Keeps history n a req response (inr (name, x, inr y)) =
      inr (name, x, inr (grow-Answered P path first history n a (name, req) response y))

  pub Step-Keeps : {s v : Service P} → Service.Step P path s v → Keeps s.history v.history
  unfolding ask look create send end_wait remove act serve leave
  Step-Keeps (asks t req e) q r h = h
  Step-Keeps (looks t name e) q r h = h
  Step-Keeps (creates t name e) q r h = h
  Step-Keeps (sends t name w e room) q r h = h
  Step-Keeps (receives t name w response e got) q r h = h
  Step-Keeps (loses t name w e nothing dead) q r h = h
  Step-Keeps (removes t name e) q r h = h
  Step-Keeps {s} (starts w now alive e) q r h =
      grow-Keeps s.history (s.router.db_name w) (start now) q r h
  Step-Keeps {s} (serves w now k req rest state alive e at) q r h =
      grow-Keeps s.history (s.router.db_name w) (event (command now req)) q r h
  Step-Keeps {s} (wakes w now was state alive e seen) q r h =
      grow-Keeps s.history (s.router.db_name w) (event (sleep now was)) q r h
  Step-Keeps {s} (closes w state alive e at unmapped unused) q r h =
      grow-Keeps s.history (s.router.db_name w) (event channel_closed) q r h
  Step-Keeps (cleans w e) q r h = h

-- The task is in the middle of a request.
abbrev pub is_busy : Task → Bool
is_busy idle = false
is_busy (looking name) = true
is_busy (missed name) = true
is_busy (sending name w) = true
is_busy (awaiting name w) = true
is_busy (removing name) = true

-- A task in the middle of a request stays so, and no other one is affected.
retask-busy :
    (task : ℕ → Task) (t c : ℕ) (at : Task)
    → is_busy (task t) ≡ true
    → is_busy at ≡ true
    → is_busy (set task t at c) ≡ is_busy (task c)
retask-busy task t c at old new = elim (Bool-cases (c == t)) [
  | inl x ↦ rw x (new ∙ sym (ap (λ j. is_busy (task j)) ((==_iff c t).0 x) ∙ old))
  | inr x ↦ rw x refl
]

module _ (t c : ℕ) (r : Router) (name : String) where
  fast_path-busy :
      is_busy (r.task t) ≡ true → is_busy ((fast_path t r name).task c) ≡ is_busy (r.task c)
  unfolding fast_path
  fast_path-busy b = elim (Option-cases (r.workers name)) [
    | inl x ↦ rw (x, fast_path) (retask-busy r.task t c (missed name) b refl)
    | inr (w, x) ↦ rw (x, fast_path) (retask-busy r.task t c (sending name w) b refl)
  ]

  slow_path-busy :
      is_busy (r.task t) ≡ true → is_busy ((slow_path t r name).task c) ≡ is_busy (r.task c)
  unfolding slow_path
  slow_path-busy b = elim (Option-cases (r.workers name)) [
    | inl x ↦ rw (x, slow_path) (retask-busy r.task t c (sending name r.next_worker) b refl)
    | inr (w, x) ↦ rw (x, slow_path) (retask-busy r.task t c (sending name w) b refl)
  ]

  send-busy :
      (w : ℕ)
      → is_busy (r.task t) ≡ true
      → is_busy ((Router.send t r name w).task c) ≡ is_busy (r.task c)
  unfolding Router.send
  send-busy w b = elim (Bool-cases (is_running (r.life w))) [
    | inl x ↦ rw x (retask-busy r.task t c (awaiting name w) b refl)
    | inr x ↦ rw x (retask-busy r.task t c (removing name) b refl)
  ]

module _ (P : Platform) (path : String → String) where
  after_action-busy :
      (state : Option (WorkerState P)) (w : ℕ) (r : Router) (c : ℕ)
      → is_busy ((after_action P state w r).task c) ≡ is_busy (r.task c)
  unfolding terminate
  after_action-busy (some state) w r c = refl
  after_action-busy none w r c = refl

  pub internal-busy :
      {s v : Service P} (st : Service.Step P path s v)
      → IsInternal P path st
      → (c : ℕ) → (is_busy (v.router.task c) ≡ is_busy (s.router.task c)) × (v.request ≡ s.request)
  unfolding look create send end_wait receive act serve leave clean_up
  internal-busy (asks t req e) i c = absurd i
  internal-busy {s} (looks t name e) i c = (fast_path-busy t c s.router name (ap is_busy e), refl)
  internal-busy {s} (creates t name e) i c = (slow_path-busy t c s.router name (ap is_busy e), refl)
  internal-busy {s} (sends t name w e room) i c =
      (send-busy t c s.router name w (ap is_busy e), refl)
  internal-busy (receives t name w response e got) i c = absurd i
  internal-busy {s} (loses t name w e nothing dead) i c =
      (retask-busy s.router.task t c (removing name) (ap is_busy e) refl, refl)
  internal-busy (removes t name e) i c = absurd i
  internal-busy {s} (starts w now alive e) i c = (after_action-busy _ w s.router c, refl)
  internal-busy {s} (serves w now k req rest state alive e q) i c =
      (after_action-busy _ w s.router c, refl)
  internal-busy {s} (wakes w now was state alive e seen) i c =
      (after_action-busy _ w s.router c, refl)
  internal-busy {s} (closes w state alive e q unmapped unused) i c =
      (after_action-busy _ w s.router c, refl)
  internal-busy (cleans w e) i c = (refl, refl)
