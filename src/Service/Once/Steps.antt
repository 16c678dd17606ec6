-- ===== src/Service/Once/Steps.antt =====
-- Every step of the service, and how often a request is served.
use sqlite_daemon.Prelude.{ℕ, String, ◌≡◌, refl, Bool, List, ◌∷◌, arith, Bool-cases, inl, inr}
use sqlite_daemon.Platform.{Platform}
use sqlite_daemon.Protocol.{Request}
use sqlite_daemon.Worker.Loop.{channel_closed, turn}
use sqlite_daemon.Router.{is_running}
use sqlite_daemon.Service.History.{start, event}
use sqlite_daemon.Service.{
  Service, initial, ask, look, create, send, end_wait, remove, act, serve, leave, Step, asks, looks,
  creates, sends, receives, loses, removes, starts, serves, wakes, closes, cleans, Reach, here,
  next,
}
use sqlite_daemon.Service.Routes.{AllKept}
use sqlite_daemon.Service.Replies.{Reach-Delivers}
use sqlite_daemon.Service.Order.Steps.{head-asked}
use sqlite_daemon.Service.Once.{commands, replied, IsOnce, act-IsOnce}
use sqlite_daemon.Service.Once.Channels.{channel-IsOnce, push-IsOnce, serve-IsOnce}

module _ (P : Platform) (path : String → String) (test : Request P.json → Bool) where
  open P use {json}

  abbrev IsOnceNow : Service P → Type 0
  IsOnceNow s = IsOnce P path test s.queue s.replies s.asked s.next_channel s.history

  send-IsOnce :
      (s : Service P) (t : ℕ) (name : String) (w : ℕ) → IsOnceNow s → IsOnceNow (send P t s name w)
  unfolding send
  send-IsOnce s t name w h =
      let k = s.next_channel in
      let made = channel-IsOnce P path test h (name, s.request t) in
      elim (Bool-cases (is_running (s.router.life w))) [
        | inl x ↦ rw x (
            push-IsOnce P path test made w k (s.request t) (omega arith) (h.silent k (omega arith))
              (λ v i at. let low = h.made k v i at in absurd (omega arith)))
        | inr x ↦ rw x made
      ]

  Step-IsOnce :
      {s v : Service P} (st : Step P path s v)
      → ((w k : ℕ) (req : Request json) (rest : List (ℕ × Request json))
          → s.queue w ≡ (k, req) ∷ rest
          → s.asked k ≡ (s.router.db_name w, req))
      → IsOnceNow s
      → IsOnceNow v
  unfolding ask look create end_wait remove leave act serve turn
  Step-IsOnce (asks t req e) own h = h
  Step-IsOnce (looks t name e) own h = h
  Step-IsOnce (creates t name e) own h = h
  Step-IsOnce {s} (sends t name w e room) own h = send-IsOnce s t name w h
  Step-IsOnce (receives t name w response e got) own h = h
  Step-IsOnce (loses t name w e nothing dead) own h = h
  Step-IsOnce (removes t name e) own h = h
  Step-IsOnce {s} (starts w now alive e) own h =
      act-IsOnce P path test h (s.router.db_name w) (start now) refl
  Step-IsOnce {s} (serves w now k req rest state alive e q) own h =
      serve-IsOnce P path test h w k now req rest _ q (s.router.db_name w) (own w k req rest q)
  Step-IsOnce {s} (wakes w now was state alive e seen) own h =
      act-IsOnce P path test h (s.router.db_name w) _ refl
  Step-IsOnce {s} (closes w state alive e q unmapped unused) own h =
      act-IsOnce P path test h (s.router.db_name w) (event channel_closed) refl
  Step-IsOnce (cleans w e) own h = h

  Reach-IsOnce :
      (first : String → P.sqlx.World) {s : Service P} (run : Reach P path (initial P first) s)
      → AllKept P path run
      → IsOnceNow s
  Reach-IsOnce first here k = record {
    made = λ c w i at. absurd at;
    unreplied = λ c w i at. absurd at;
    silent = λ c above. refl;
    single = λ c w v i j at at'. absurd at;
    counted = λ name. refl;
  }
  Reach-IsOnce first (next {u} run st) (k, kept) =
      Step-IsOnce st
        (λ w c req rest q.
          head-asked P path first u w c req rest (Reach-Delivers P path first run k) q)
        (Reach-IsOnce first run k)

  -- As long as no running worker is taken out of the map, and for any test on requests: in the history
  -- of a database, as many requests that pass the test are served as there are replies to such requests
  -- to this database. None is served twice, and none without its reply.
  pub served_once :
      (first : String → P.sqlx.World) (s : Service P) (name : String)
      (run : Reach P path (initial P first) s)
      → AllKept P path run
      → commands P path test (s.history name)
        ≡ replied P path test s.replies s.asked name s.next_channel
  served_once first s name run k = (Reach-IsOnce first run k).counted name
