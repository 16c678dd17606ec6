-- ===== src/Service/Calm.antt =====
-- daemon/src/router.rs with its workers: runs in which no request takes a worker out of the map.
use sqlite_daemon.Prelude.{ℕ, String, ◌≡◌, true, false, Option, none, some}
use sqlite_daemon.Platform.{Platform}
use sqlite_daemon.Worker.State.{WorkerState}
use sqlite_daemon.Router.{Router, running, route_start, terminate}
use sqlite_daemon.Router
use sqlite_daemon.Router.Calm.{IsNamed, Step-IsNamed, Step-IsKept}
use sqlite_daemon.Service.{
  Service, ask, look, create, send, end_wait, remove, after_action, act, serve, leave, Step, asks,
  looks, creates, sends, receives, loses, removes, starts, serves, wakes, closes, cleans, Reach,
  here, next, initial,
}
use sqlite_daemon.Service.Routes.{IsKept, AllKept}

module _ (P : Platform) (path : String → String) where
  abbrev pub IsCalm : {s v : Service P} → Step P path s v → Type 0
  IsCalm (removes t name e) = ⊥
  IsCalm _ = Unit

  after_action-IsNamed :
      (state : Option (WorkerState P)) (w : ℕ) (r : Router)
      → r.life w ≡ running
      → IsNamed r
      → IsNamed (after_action P state w r)
  after_action-IsNamed (some state) w r alive h = h
  after_action-IsNamed none w r alive h = Step-IsNamed (Router.terminates w alive) tt h

  pub Step-router_IsNamed :
      {s v : Service P} (st : Step P path s v) → IsCalm st → IsNamed s.router → IsNamed v.router
  unfolding ask look create send end_wait remove act serve leave
  Step-router_IsNamed (asks t req e) k h = Step-IsNamed (Router.begins t (route_start req) e) tt h
  Step-router_IsNamed (looks t name e) k h = Step-IsNamed (Router.looks t name e) tt h
  Step-router_IsNamed (creates t name e) k h = Step-IsNamed (Router.creates t name e) tt h
  Step-router_IsNamed (sends t name w e room) k h = Step-IsNamed (Router.sends t name w e) tt h
  Step-router_IsNamed (receives t name w response e got) k h =
      Step-IsNamed (Router.receives t name w true e) tt h
  Step-router_IsNamed (loses t name w e nothing dead) k h =
      Step-IsNamed (Router.receives t name w false e) tt h
  Step-router_IsNamed (removes t name e) k h = absurd k
  Step-router_IsNamed {s} (starts w now alive e) k h = after_action-IsNamed _ w s.router alive h
  Step-router_IsNamed {s} (serves w now c req rest state alive e q) k h =
      after_action-IsNamed _ w s.router alive h
  Step-router_IsNamed {s} (wakes w now was state alive e seen) k h =
      after_action-IsNamed _ w s.router alive h
  Step-router_IsNamed {s} (closes w state alive e q unmapped unused) k h =
      after_action-IsNamed _ w s.router alive h
  Step-router_IsNamed (cleans w e) k h = Step-IsNamed (Router.cleans w e) tt h

  pub calm-IsKept :
      {s v : Service P} (st : Step P path s v) → IsCalm st → IsNamed s.router → IsKept P path st
  calm-IsKept (asks t req e) k h = tt
  calm-IsKept (looks t name e) k h = tt
  calm-IsKept (creates t name e) k h = tt
  calm-IsKept (sends t name w e room) k h = tt
  calm-IsKept (receives t name w response e got) k h = tt
  calm-IsKept (loses t name w e nothing dead) k h = tt
  calm-IsKept (removes t name e) k h = absurd k
  calm-IsKept (starts w now alive e) k h = tt
  calm-IsKept (serves w now c req rest state alive e q) k h = tt
  calm-IsKept (wakes w now was state alive e seen) k h = tt
  calm-IsKept (closes w state alive e q unmapped unused) k h = tt
  calm-IsKept (cleans w e) k h = Step-IsKept (Router.cleans w e) tt h

  -- No request has called `remove_worker`.
  abbrev pub AllCalm : {s v : Service P} → Reach P path s v → Type 0
  AllCalm here = Unit
  AllCalm (next run st) = AllCalm run × IsCalm st

  run-IsNamed :
      (first : String → P.sqlx.World) {s : Service P} (run : Reach P path (initial P first) s)
      → AllCalm run
      → IsNamed s.router × AllKept P path run
  run-IsNamed first here calm =
      (record { listed = λ w e. absurd (cc); below = λ w e. absurd (cc) }, tt)
  run-IsNamed first (next run st) (calm, last) =
      let (named, kept) = run-IsNamed first run calm in
      (Step-router_IsNamed st last named, (kept, calm-IsKept st last named))

  -- As long as no request has called `remove_worker`, which it does as its send or its wait for a reply has
  -- failed, no running worker has been taken out of the map, whatever the interleaving of tasks and
  -- workers: what ended workers remove after themselves is their own entry.
  pub calm_run_keeps_workers :
      (first : String → P.sqlx.World) (s : Service P) (run : Reach P path (initial P first) s)
      → AllCalm run
      → AllKept P path run
  calm_run_keeps_workers first s run calm = (run-IsNamed first run calm).1
