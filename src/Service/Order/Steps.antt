-- ===== src/Service/Order/Steps.antt =====
-- Each step between two moments, and the reply to a request that comes between them.
use sqlite_daemon.Prelude.{
  ℕ, ◌<◌, ◌≤◌, String, ◌≡◌, sym, ap, ◌∙◌, subst, List, [], ◌∷◌, append-nil, some, arith, inl, inr,
  All,
}
use sqlite_daemon.Platform.{Platform}
use sqlite_daemon.Protocol.{Request, Response}
use sqlite_daemon.Worker.Loop.{channel_closed, sleep}
use sqlite_daemon.Router.{running, idle, awaiting}
use sqlite_daemon.Service.History.{start, event}
use sqlite_daemon.Service.{
  Service, initial, ask, look, create, end_wait, remove, leave, Step, asks, looks, creates, sends,
  receives, loses, removes, starts, serves, wakes, closes, cleans, Reach, here, next,
}
use sqlite_daemon.Service.Routes.{AllKept, Reach_trans, AllKept-trans}
use sqlite_daemon.Service.Serial.{replay, worker_serial}
use sqlite_daemon.Service.Replies.{Delivers, Reach-Delivers}
use sqlite_daemon.Service.Order.{AnsweredAfter, Later, act-Later, serve-Later, send-Later}
use sqlite_daemon.Service.Waits.Tasks.{Step-Since}

module _ (P : Platform) (path : String → String) (first : String → P.sqlx.World) where
  open P use {json}
  open P.sqlx use {World}

  -- The channel of the command that is next in a queue is for this command.
  pub head-asked :
      (u : Service P) (w k : ℕ) (req : Request json) (rest : List (ℕ × Request json))
      → Delivers P path first u.router u
      → u.queue w ≡ (k, req) ∷ rest
      → u.asked k ≡ (u.router.db_name w, req)
  head-asked u w k req rest d q =
      let all =
        subst
          (All (λ (c : ℕ × Request json).
            (c.0 < u.next_channel) × (u.asked c.0 ≡ (u.router.db_name w, c.1))))
          q (d.queued w) in
      all.0.1

  Step-Later :
      (s : Service P) {u v : Service P} (st : Step P path u v)
      → Delivers P path first u.router u
      → ((w : ℕ)
          → u.router.life w ≡ running
          → replay P path first (u.router.db_name w) (u.history (u.router.db_name w))
            ≡ (u.stage w, u.world (u.router.db_name w)))
      → Later P path first s u
      → Later P path first s v
  unfolding ask look create end_wait remove leave
  Step-Later s (asks t req e) d serial h = record {
    grown = h.grown;
    more_channels = h.more_channels;
    recent = h.recent;
  }
  Step-Later s (looks t name e) d serial h = record {
    grown = h.grown;
    more_channels = h.more_channels;
    recent = h.recent;
  }
  Step-Later s (creates t name e) d serial h = record {
    grown = h.grown;
    more_channels = h.more_channels;
    recent = h.recent;
  }
  Step-Later s {u} (sends t name w e room) d serial h = send-Later P path first s u t name w d h
  Step-Later s (receives t name w response e got) d serial h = record {
    grown = h.grown;
    more_channels = h.more_channels;
    recent = h.recent;
  }
  Step-Later s (loses t name w e nothing dead) d serial h = record {
    grown = h.grown;
    more_channels = h.more_channels;
    recent = h.recent;
  }
  Step-Later s (removes t name e) d serial h = record {
    grown = h.grown;
    more_channels = h.more_channels;
    recent = h.recent;
  }
  Step-Later s {u} (starts w now alive e) d serial h = act-Later P path first s u w (start now) h
  Step-Later s {u} (serves w now k req rest state alive e q) d serial h =
      serve-Later P path first s u w now k req rest state
        (serial w alive ∙ ap (λ x. (x, u.world (u.router.db_name w))) e)
        (head-asked u w k req rest d q) h
  Step-Later s {u} (wakes w now was state alive e seen) d serial h =
      act-Later P path first s u w (event (sleep now was)) h
  Step-Later s {u} (closes w state alive e q unmapped unused) d serial h =
      act-Later P path first s u w (event channel_closed) h
  Step-Later s (cleans w e) d serial h = record {
    grown = h.grown;
    more_channels = h.more_channels;
    recent = h.recent;
  }

  Reach-Later :
      (s : Service P) {v : Service P} (before : Reach P path (initial P first) s)
      (later : Reach P path s v)
      → AllKept P path before
      → AllKept P path later
      → Later P path first s v
  Reach-Later s before here k l = record {
    grown = λ name. ([], sym (append-nil (s.history name)));
    more_channels = omega arith;
    recent = λ c response low e.
        let nothing = (Reach-Delivers P path first before k).unanswered c low in absurd (cc);
  }
  Reach-Later s before (next {u} run st) k (l, kept) =
      let whole = Reach_trans P path before run in
      let all = AllKept-trans P path before run k l in
      Step-Later s st (Reach-Delivers P path first whole all)
        (λ w alive. worker_serial P path first u w whole all alive) (Reach-Later s before run k l)

  new_channel :
      (s : Service P) {v : Service P} (t : ℕ) (name : String) (w : ℕ)
      (before : Reach P path (initial P first) s) (later : Reach P path s v)
      → AllKept P path before
      → AllKept P path later
      → s.router.task t ≡ idle
      → v.router.task t ≡ awaiting name w
      → s.next_channel ≤ v.channel t
  new_channel s t name w before here k l idly e = absurd (cc)
  new_channel s t name w before (next {u} run st) k (l, kept) idly e =
      elim (Step-Since P path st t name w e) [
        | inl (x, same) ↦ rw same (new_channel s t name w before run k l idly x)
        | inr (x, new) ↦ rw x ((Reach-Later s before run k l).more_channels)
      ]

  -- As long as no running worker is taken out of the map: a task that is idle now, and later waits and
  -- finds a reply, has it from the worker's turn on its request, which is in what the database's history
  -- has gained since, from the state that the history before this turn leads to.
  pub reply_is_recent :
      (s v : Service P) (t : ℕ) (name : String) (w : ℕ) (response : Response)
      (before : Reach P path (initial P first) s) (later : Reach P path s v)
      → AllKept P path before
      → AllKept P path later
      → s.router.task t ≡ idle
      → v.router.task t ≡ awaiting name w
      → v.replies (v.channel t) ≡ some response
      → AnsweredAfter P path first (s.history name) (v.history name) (name, v.request t) response
  reply_is_recent s v t name w response before later k l idly at got =
      let d =
        Reach-Delivers P path first (Reach_trans P path before later)
          (AllKept-trans P path before later k l) in
      subst (λ q. AnsweredAfter P path first (s.history q.0) (v.history q.0) q response)
        (d.waiting t name w at).1
        ((Reach-Later s before later k l).recent (v.channel t) response
          (new_channel s t name w before later k l idly at) got)
