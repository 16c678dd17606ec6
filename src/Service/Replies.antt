-- ===== src/Service/Replies.antt =====
-- The replies that tasks get, whatever the interleaving of tasks and workers.
mod Defs
mod Tasks
mod Sends
mod Workers
pub use Defs.*
use text.Mathlib.TextEquality.{eq_iff}
use text.Mathlib.Text.{◌==◌ as str_eq}
use sqlite_daemon.Prelude.{
  ℕ, suc, ◌<◌, ◌≤◌, String, ◌≡◌, ◌≢◌, refl, sym, ap, ◌∙◌, subst, Bool, true, false, List, [], ◌∷◌,
  ◌++◌, append_assoc, Option, none, some, ◌==◌, ==_iff, arith, Option-cases, Bool-cases, inl, inr,
  All, if◌then◌else◌,
}
use sqlite_daemon.Platform.{Platform}
use sqlite_daemon.Protocol.{
  Request, ping, exec_batch, prepare_for_maintenance, close_database, reopen_database, shutdown,
  Response,
}
use sqlite_daemon.Worker.State.{WorkerState}
use sqlite_daemon.Worker.Loop.{Event, command, channel_closed, sleep, turn}
use sqlite_daemon.Router.{
  Router, Life, running, terminated, gone, Task, idle, looking, missed, sending, awaiting, removing,
  Start, respond, forward, route_start, extract_db_name, begin, fast_path, slow_path, receive,
  is_running, remove_worker, terminate, clean_up, set, set_name,
}
use sqlite_daemon.Router
use sqlite_daemon.Router.Routing.{IsRouted, Reach-IsRouted, Uses}
use sqlite_daemon.Service.History.{Action, start, event, perform, run, run-append, Current}
use sqlite_daemon.Service.{
  Service, initial, ask, look, create, send, end_wait, remove, after_action, acted, act, serve,
  leave, Step, asks, looks, creates, sends, receives, loses, removes, starts, serves, wakes, closes,
  cleans, Reach, here, next, is_empty,
}
use sqlite_daemon.Service.Routes.{AllKept, run-Reach}
use sqlite_daemon.Service.Serial.{replay}
use sqlite_daemon.Service.Serial.{worker_serial}
use sqlite_daemon.Service.Replies.Tasks.{
  removing-Delivers, fast_path-Delivers, idle-Delivers, slow_path-Delivers, begin-Delivers,
}
use sqlite_daemon.Service.Replies.Sends.{send-Delivers}
use sqlite_daemon.Service.Replies.Workers.{act-Delivers, serve-Delivers, leave-Delivers}

module _ (P : Platform) (path : String → String) (first : String → P.sqlx.World) where
  open P use {json}
  open P.sqlx use {World}

  Step-Delivers :
      {s v : Service P} (st : Step P path s v)
      → IsRouted s.router
      → ((w : ℕ)
          → s.router.life w ≡ running
          → replay P path first (s.router.db_name w) (s.history (s.router.db_name w))
            ≡ (s.stage w, s.world (s.router.db_name w)))
      → Delivers P path first s.router s
      → Delivers P path first v.router v
  unfolding ask look create end_wait remove receive remove_worker
  Step-Delivers {s} (asks t req e) routed serial h =
      rerouted P path first _ _ _
        (begin-Delivers P path first s.router s t req (route_start req) refl e h)
  Step-Delivers {s} (looks t n e) routed serial h = rerouted P path first _ _ _ (
      fast_path-Delivers P path first s.router s t n h
        (subst (λ k. Names P path first k n) (sym e) refl))
  Step-Delivers {s} (creates t n e) routed serial h =
      rerouted P path first _ _ _ (slow_path-Delivers P path first s.router s t n e h)
  Step-Delivers {s} (sends t n w e room) routed serial h =
      send-Delivers P path first s t n w e routed h
  Step-Delivers {s} (receives t n w response e got) routed serial h =
      rerouted P path first _ _ _ (idle-Delivers P path first s.router s t h)
  Step-Delivers {s} (loses t n w e nothing dead) routed serial h = rerouted P path first _ _ _ (
      removing-Delivers P path first s.router s t n h
        (subst (λ k. Names P path first k n) (sym e) refl))
  Step-Delivers {s} (removes t n e) routed serial h =
      let i = idle-Delivers P path first s.router s t h in
      record {
        queued = i.queued;
        unsent = i.unsent;
        answered = i.answered;
        unanswered = i.unanswered;
        waiting = i.waiting;
        named = i.named;
      }
  Step-Delivers {s} (starts w now alive e) routed serial h =
      act-Delivers P path first w (start now) s h
  Step-Delivers {s} (serves w now k req rest state alive e q) routed serial h =
      serve-Delivers P path first s w now k req rest state
        (serial w alive ∙ ap (λ x. (x, s.world (s.router.db_name w))) e) q h
  Step-Delivers {s} (wakes w now was state alive e seen) routed serial h =
      act-Delivers P path first w (event (sleep now was)) s h
  Step-Delivers {s} (closes w state alive e q unmapped unused) routed serial h =
      act-Delivers P path first w (event channel_closed) s h
  Step-Delivers {s} (cleans w over) routed serial h = leave-Delivers P path first w s h

  pub Reach-Delivers :
      {s : Service P} (run : Reach P path (initial P first) s)
      → AllKept P path run
      → Delivers P path first s.router s
  Reach-Delivers here k = record {
    queued = λ w. tt;
    unsent = λ w above. refl;
    answered = λ c response e. absurd (cc);
    unanswered = λ c above. refl;
    waiting = λ t name w e. absurd (cc);
    named = λ t name e. absurd e;
  }
  Reach-Delivers (next {u} run st) (k, kept) =
      Step-Delivers st (Reach-IsRouted (run-Reach P path run))
        (λ w alive. worker_serial P path first u w run k alive) (Reach-Delivers run k)

  -- As long as no running worker is taken out of the map: a task that waits and finds a reply has asked
  -- for the database it waits for, and the reply is the one that the worker's turn on this very request
  -- gave at some place in this database's history, from the state that the history before leads to.
  pub reply_is_own :
      (s : Service P) (t : ℕ) (name : String) (w : ℕ) (response : Response)
      (run : Reach P path (initial P first) s)
      → AllKept P path run
      → s.router.task t ≡ awaiting name w
      → s.replies (s.channel t) ≡ some response
      → (extract_db_name (s.request t) ≡ some name)
        × Answered P path first s.history (name, s.request t) response
  reply_is_own s t name w response run k at got =
      let h = Reach-Delivers run k in
      (
        h.named t name (subst (λ a. Names P path first a name) (sym at) refl),
        subst (λ q. Answered P path first s.history q response) (h.waiting t name w at).1
            (h.answered (s.channel t) response got),
      )
