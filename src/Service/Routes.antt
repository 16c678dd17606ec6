-- ===== src/Service/Routes.antt =====
-- The router's part of the service, as the router by itself.
use sqlite_daemon.Prelude.{ℕ, String, ◌≡◌, ◌≢◌, true, false, Option, none, some}
use sqlite_daemon.Platform.{Platform}
use sqlite_daemon.Worker.State.{WorkerState}
use sqlite_daemon.Router.{Router, running, terminated, route_start, terminate, set, set_name}
use sqlite_daemon.Router
use sqlite_daemon.Router.Single.{IsListed, Step-IsListed}
use sqlite_daemon.Service.{
  Service, ask, look, create, send, end_wait, remove, after_action, act, serve, leave, Step, asks,
  looks, creates, sends, receives, loses, removes, starts, serves, wakes, closes, cleans, Reach,
  here, next,
}

module _ (P : Platform) (path : String → String) where
  open P use {json}
  open P.sqlx use {World}

  after_action-Reach :
      (state : Option (WorkerState P)) (w : ℕ) (r : Router)
      → r.life w ≡ running
      → Router.Reach r (after_action P state w r)
  after_action-Reach (some state) w r alive = Router.here
  after_action-Reach none w r alive = Router.next Router.here (Router.terminates w alive)

  pub Step-Reach : {s v : Service P} → Step P path s v → Router.Reach s.router v.router
  unfolding ask look create send end_wait remove act serve leave
  Step-Reach (asks t req e) = Router.next Router.here (Router.begins t (route_start req) e)
  Step-Reach (looks t name e) = Router.next Router.here (Router.looks t name e)
  Step-Reach (creates t name e) = Router.next Router.here (Router.creates t name e)
  Step-Reach (sends t name w e room) = Router.next Router.here (Router.sends t name w e)
  Step-Reach (receives t name w response e got) =
      Router.next Router.here (Router.receives t name w true e)
  Step-Reach (loses t name w e nothing dead) =
      Router.next Router.here (Router.receives t name w false e)
  Step-Reach (removes t name e) = Router.next Router.here (Router.removes t name e)
  Step-Reach {s} (starts w now alive e) = after_action-Reach _ w s.router alive
  Step-Reach {s} (serves w now k req rest state alive e q) = after_action-Reach _ w s.router alive
  Step-Reach {s} (wakes w now was state alive e seen) = after_action-Reach _ w s.router alive
  Step-Reach {s} (closes w state alive e q unmapped unused) = after_action-Reach _ w s.router alive
  Step-Reach (cleans w e) = Router.next Router.here (Router.cleans w e)

  -- Every run of the router with its workers is, for the router's map, tasks and workers' lives, a
  -- run of the router by itself.
  pub run-Reach : {s v : Service P} → Reach P path s v → Router.Reach s.router v.router
  run-Reach here = Router.here
  run-Reach (next run st) = Router.Reach_trans (run-Reach run) (Step-Reach st)

  -- The step takes no running worker out of the map.
  abbrev pub IsKept : {s v : Service P} → Step P path s v → Type 0
  IsKept {s} (removes t name e) =
      (w : ℕ) → s.router.workers name ≡ some w → s.router.life w ≢ running
  IsKept {s} (cleans w e) =
      (v : ℕ) → s.router.workers (s.router.db_name w) ≡ some v → s.router.life v ≢ running
  IsKept _ = Unit

  abbrev pub AllKept : {s v : Service P} → Reach P path s v → Type 0
  AllKept here = Unit
  AllKept (next run st) = AllKept run × IsKept st

  unfoldable pub Reach_trans :
      {s u v : Service P} → Reach P path s u → Reach P path u v → Reach P path s v
  Reach_trans run here = run
  Reach_trans run (next more st) = next (Reach_trans run more) st

  pub AllKept-trans :
      {s u v : Service P} (run : Reach P path s u) (more : Reach P path u v)
      → AllKept run
      → AllKept more
      → AllKept (Reach_trans run more)
  unfolding Reach_trans
  AllKept-trans run here k l = k
  AllKept-trans run (next more st) k (l, kept) = (AllKept-trans run more k l, kept)

  after_action-IsListed :
      (state : Option (WorkerState P)) (w : ℕ) (r : Router)
      → r.life w ≡ running
      → IsListed r
      → IsListed (after_action P state w r)
  after_action-IsListed (some state) w r alive h = h
  after_action-IsListed none w r alive h = Step-IsListed (Router.terminates w alive) tt h

  pub Step-router_IsListed :
      {s v : Service P} (st : Step P path s v) → IsKept st → IsListed s.router → IsListed v.router
  unfolding ask look create send end_wait remove act serve leave
  Step-router_IsListed (asks t req e) k h = Step-IsListed (Router.begins t (route_start req) e) tt h
  Step-router_IsListed (looks t name e) k h = Step-IsListed (Router.looks t name e) tt h
  Step-router_IsListed (creates t name e) k h = Step-IsListed (Router.creates t name e) tt h
  Step-router_IsListed (sends t name w e room) k h = Step-IsListed (Router.sends t name w e) tt h
  Step-router_IsListed (receives t name w response e got) k h =
      Step-IsListed (Router.receives t name w true e) tt h
  Step-router_IsListed (loses t name w e nothing dead) k h =
      Step-IsListed (Router.receives t name w false e) tt h
  Step-router_IsListed (removes t name e) k h = Step-IsListed (Router.removes t name e) k h
  Step-router_IsListed {s} (starts w now alive e) k h = after_action-IsListed _ w s.router alive h
  Step-router_IsListed {s} (serves w now c req rest state alive e q) k h =
      after_action-IsListed _ w s.router alive h
  Step-router_IsListed {s} (wakes w now was state alive e seen) k h =
      after_action-IsListed _ w s.router alive h
  Step-router_IsListed {s} (closes w state alive e q unmapped unused) k h =
      after_action-IsListed _ w s.router alive h
  Step-router_IsListed (cleans w e) k h = Step-IsListed (Router.cleans w e) k h
