-- ===== src/Service/Replies/Workers.antt =====
-- The steps of workers: histories grow, and replies are sent.
use text.Mathlib.TextEquality.{eq_iff}
use sqlite_daemon.Prelude.{
  ℕ, ◌<◌, String, ◌≡◌, refl, sym, ap, ◌∙◌, subst, List, [], ◌∷◌, ◌++◌, Option, none, some, ◌==◌,
  ==_iff, arith, Bool-cases, inl, inr, All,
}
use sqlite_daemon.Platform.{Platform}
use sqlite_daemon.Protocol.{Request}
use sqlite_daemon.Worker.State.{WorkerState}
use sqlite_daemon.Worker.Loop.{command}
use sqlite_daemon.Router.{Router, terminate, clean_up, set, set_name}
use sqlite_daemon.Service.History.{Action, event}
use sqlite_daemon.Service.{Service, after_action, acted, act, serve, leave}
use sqlite_daemon.Service.Serial.{replay}
use sqlite_daemon.Service.Replies.Defs.{Answered, grow-Answered, Delivers, rerouted}

module _ (P : Platform) (path : String → String) (first : String → P.sqlx.World) where
  open P use {json}
  open P.sqlx use {World}

  -- A worker acts: the histories grow.
  module _ (r : Router) (s : Service P) (n : String) (a : Action P)
      (st : ℕ → Option (WorkerState P)) (world : String → World)
      (h : Delivers P path first r s) where
    grown-Delivers : Delivers P path first r (record s {
      stage = st;
      world = world;
      history = set_name s.history n (s.history n ++ a ∷ []);
    })
    grown-Delivers = record {
      queued = h.queued;
      unsent = h.unsent;
      answered = λ k response e.
          grow-Answered P path first s.history n a (s.asked k) response (h.answered k response e);
      unanswered = h.unanswered;
      waiting = h.waiting;
      named = h.named;
    }

  after_action-Delivers :
      (state : Option (WorkerState P)) (w : ℕ) (r : Router) (s : Service P)
      → Delivers P path first r s
      → Delivers P path first (after_action P state w r) s
  unfolding terminate
  after_action-Delivers (some state) w r s h = h
  after_action-Delivers none w r s h = record {
    queued = h.queued;
    unsent = h.unsent;
    answered = h.answered;
    unanswered = h.unanswered;
    waiting = h.waiting;
    named = h.named;
  }

  pub act-Delivers :
      (w : ℕ) (a : Action P) (s : Service P)
      → Delivers P path first s.router s
      → Delivers P path first (act P path w s a).router (act P path w s a)
  unfolding act
  act-Delivers w a s h =
      let c = acted P path w s a in
      let n = s.router.db_name w in
      after_action-Delivers c.0 w s.router (act P path w s a) (
        rerouted P path first s.router (after_action P c.0 w s.router) _
          (grown-Delivers s.router s n a (set s.stage w c.0) (set_name s.world n c.1) h))

  -- The command at the queue's head is served.
  pub serve-Delivers :
      (s : Service P) (w now k : ℕ) (req : Request json) (rest : List (ℕ × Request json))
      (state : WorkerState P)
      → replay P path first (s.router.db_name w) (s.history (s.router.db_name w))
        ≡ (some state, s.world (s.router.db_name w))
      → s.queue w ≡ (k, req) ∷ rest
      → Delivers P path first s.router s
      → let v = serve P path w s now k req rest state in Delivers P path first v.router v
  unfolding serve act
  serve-Delivers s w now k req rest state led e h =
      let v = act P path w s (event (command now req)) in
      let g = act-Delivers w (event (command now req)) s h in
      let head =
        subst
          (All (λ (c : ℕ × Request json).
            (c.0 < s.next_channel) × (s.asked c.0 ≡ (s.router.db_name w, c.1))))
          e (h.queued w) in
      let later =
        subst
          (All (λ (c : ℕ × Request json).
            (c.0 < s.next_channel) × (s.asked c.0 ≡ (v.router.db_name w, c.1))))
          e (g.queued w) in
      let n = s.router.db_name w in
      record {
        queued = λ j. elim (Bool-cases (j == w)) [
          | inl x ↦ rw x (
              subst
                (λ i.
                  All
                    (λ (c : ℕ × Request json).
                      (c.0 < s.next_channel) × (s.asked c.0 ≡ (v.router.db_name i, c.1)))
                    rest)
                (sym ((==_iff j w).0 x)) later.1)
          | inr x ↦ rw x (g.queued j)
        ];
        unsent = λ j above. elim (Bool-cases (j == w)) [
          | inl x ↦
              let z : (k, req) ∷ rest ≡ [] =
                sym e ∙ ap s.queue (sym ((==_iff j w).0 x)) ∙ g.unsent j above in
              absurd (cc)
          | inr x ↦ rw x (g.unsent j above)
        ];
        answered = λ c response x. elim (Bool-cases (c == k)) [
          | inl y ↦
              subst (λ q. Answered P path first v.history q response)
                (sym (ap s.asked ((==_iff c k).0 y) ∙ head.0.1))
                (
                  s.history n,
                  [],
                  now,
                  state,
                  s.world n,
                  rw ((eq_iff n n).1 refl) refl,
                  led,
                  rw y at x,
                )
          | inr y ↦ g.answered c response (rw y at x)
        ];
        unanswered = λ c above. ground (arith, ==_iff c k, h.unanswered c, head.0.0);
        waiting = g.waiting;
        named = g.named;
      }

  pub leave-Delivers :
      (w : ℕ) (s : Service P)
      → Delivers P path first s.router s
      → Delivers P path first (leave P w s).router (leave P w s)
  unfolding leave clean_up
  leave-Delivers w s h = record {
    queued = h.queued;
    unsent = h.unsent;
    answered = h.answered;
    unanswered = h.unanswered;
    waiting = h.waiting;
    named = h.named;
  }
