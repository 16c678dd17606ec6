-- ===== src/Service/Serial.antt =====
-- The world of each database, whatever the interleaving of tasks and workers.
mod Defs
mod Tasks
mod Workers
pub use Defs.*
use text.Mathlib.TextEquality.{eq_iff}
use text.Mathlib.Text.{◌==◌ as str_eq}
use sqlite_daemon.Prelude.{
  ℕ, suc, ◌<◌, ◌≤◌, String, ◌≡◌, ◌≢◌, refl, sym, ap, ◌∙◌, subst, Bool, true, false, List, [], ◌∷◌,
  ◌++◌, Option, none, some, ◌==◌, ==_iff, arith, Option-cases, Bool-cases, inl, inr,
}
use sqlite_daemon.Platform.{Platform}
use sqlite_daemon.Protocol.{Request, Response}
use sqlite_daemon.Worker.State.{WorkerState}
use sqlite_daemon.Worker.Loop.{Event, command, channel_closed, sleep, turn}
use sqlite_daemon.Router.{
  Router, Life, running, terminated, gone, Start, respond, forward, route_start, begin, fast_path,
  slow_path, receive, is_running, remove_worker, terminate, clean_up, set, set_name,
}
use sqlite_daemon.Router
use sqlite_daemon.Router.Single.{IsListed}
use sqlite_daemon.Service.History.{Action, start, event, perform, run, run-append, Current}
use sqlite_daemon.Service.{
  Service, state_of, initial, ask, look, create, send, end_wait, remove, after_action, acted, act,
  serve, leave, Step, asks, looks, creates, sends, receives, loses, removes, starts, serves, wakes,
  closes, cleans, Reach, here, next, is_empty,
}
use sqlite_daemon.Router.Routing.{IsRouted, Reach-IsRouted}
use sqlite_daemon.Service.Routes.{AllKept, Step-router_IsListed, run-Reach}
use sqlite_daemon.Service.Serial.Tasks.{
  begin-IsSerial, fast_path-IsSerial, send-IsSerial, slow_path-IsSerial,
}
use sqlite_daemon.Service.Serial.Workers.{act-IsSerial, leave-IsSerial}

module _ (P : Platform) (path : String → String) (first : String → P.sqlx.World) where
  open P use {json}
  open P.sqlx use {World}

  Step-IsSerial :
      {s v : Service P}
      → Step P path s v
      → IsListed s.router
      → IsSerialNow P path first s
      → IsSerialNow P path first v
  unfolding ask look create send end_wait remove serve receive remove_worker
  Step-IsSerial {s} (asks t req e) l h =
      begin-IsSerial P path first s.stage s.world s.history s.router t (route_start req) h
  Step-IsSerial {s} (looks t name e) l h =
      fast_path-IsSerial P path first s.stage s.world s.history s.router t name h
  Step-IsSerial {s} (creates t name e) l h =
      slow_path-IsSerial P path first s.stage s.world s.history s.router t name l h
  Step-IsSerial {s} (sends t name w e room) l h =
      send-IsSerial P path first s.stage s.world s.history s.router t name w h
  Step-IsSerial (receives t name w response e got) l h = record {
    current = h.current;
    quiet = h.quiet;
    unborn = h.unborn;
  }
  Step-IsSerial (loses t name w e nothing dead) l h = record {
    current = h.current;
    quiet = h.quiet;
    unborn = h.unborn;
  }
  Step-IsSerial (removes t name e) l h = record {
    current = h.current;
    quiet = h.quiet;
    unborn = h.unborn;
  }
  Step-IsSerial {s} (starts w now alive e) l h = act-IsSerial P path first w (start now) s alive l h
  Step-IsSerial {s} (serves w now k req rest state alive e q) l h =
      act-IsSerial P path first w (event (command now req)) s alive l h
  Step-IsSerial {s} (wakes w now was state alive e seen) l h =
      act-IsSerial P path first w (event (sleep now was)) s alive l h
  Step-IsSerial {s} (closes w state alive e q unmapped unused) l h =
      act-IsSerial P path first w (event channel_closed) s alive l h
  Step-IsSerial {s} (cleans w over) l h = leave-IsSerial P path first w s over h

  Reach-IsSerial :
      {s : Service P} (run : Reach P path (initial P first) s)
      → AllKept P path run
      → IsListed s.router × IsSerialNow P path first s
  unfolding run
  Reach-IsSerial here k = (
    record { listed = λ w e. absurd (cc); below = λ w e. absurd (cc) },
    record {
      current = λ w e. absurd (cc);
      quiet = λ name none_runs. refl;
      unborn = λ w above. refl;
    },
  )
  Reach-IsSerial (next run st) (k, kept) =
      let (l, h) = Reach-IsSerial run k in
      (Step-router_IsListed P path st kept l, Step-IsSerial st l h)

  -- As long as no running worker is taken out of the map: a running worker's state, and its database's
  -- world, are where the database's history leads by itself, action after action.
  pub worker_serial :
      (s : Service P) (w : ℕ) (run : Reach P path (initial P first) s)
      → AllKept P path run
      → s.router.life w ≡ running
      → replay P path first (s.router.db_name w) (s.history (s.router.db_name w))
        ≡ (s.stage w, s.world (s.router.db_name w))
  worker_serial s w run k alive = (Reach-IsSerial run k).1.current w alive

  -- As long as no running worker is taken out of the map, the world of a database, with the state of the
  -- worker that the map has for it, is where its history leads to by itself, one worker after the other
  -- and one action after the other, however the tasks, the workers and the other databases' workers
  -- interleave.
  pub world_serial :
      (s : Service P) (name : String) (run : Reach P path (initial P first) s)
      → AllKept P path run
      → replay P path first name (s.history name) ≡ (state_of P s name, s.world name)
  world_serial s name run k =
      let (l, h) = Reach-IsSerial run k in
      let r = s.router in
      let routed = Reach-IsRouted (run-Reach P path run) in
      elim (Option-cases (r.workers name)) [
        | inl x ↦ rw x (
            h.quiet name (λ w run_w e.
              let taken : none ≡ some w = sym x ∙ sym (ap r.workers e) ∙ l.listed w run_w in cc))
        | inr (w, x) ↦
            let at : r.db_name w ≡ name = (routed.mapped name w x).0 in
            elim (Bool-cases (is_running (r.life w))) [
              | inl alive ↦
                  rw (x, alive)
                    (subst (λ m. replay P path first m (s.history m) ≡ (s.stage w, s.world m)) at
                      (h.current w (ground arith)))
              | inr dead ↦
                  rw (x, dead)
                    (h.quiet name (λ j run_j e.
                      let same : some j ≡ some w = sym (l.listed j run_j) ∙ ap r.workers e ∙ x in
                      let here_j : j ≡ w = cc in
                      let alive : is_running (r.life w) ≡ true =
                        ap (λ i. is_running (r.life i)) (sym here_j) ∙ ap is_running run_j in
                      cc))
            ]
      ]
