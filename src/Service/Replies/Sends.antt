-- ===== src/Service/Replies/Sends.antt =====
-- A command is sent, with its reply channel.
use sqlite_daemon.Prelude.{
  ℕ, suc, ◌<◌, String, ◌≡◌, ◌≢◌, refl, sym, ap, ◌∙◌, subst, false, [], ◌∷◌, ◌++◌, ◌==◌, ==_iff,
  arith, Bool-cases, inl, inr, All, All-mono, All-snoc,
}
use sqlite_daemon.Platform.{Platform}
use sqlite_daemon.Protocol.{Request}
use sqlite_daemon.Router.{
  Router, Life, running, terminated, gone, Task, idle, looking, missed, sending, awaiting, removing,
  Start, respond, forward, route_start, extract_db_name, begin, fast_path, slow_path, receive,
  is_running, remove_worker, terminate, clean_up, set, set_name,
}
use sqlite_daemon.Router
use sqlite_daemon.Router.Routing.{IsRouted, Uses}
use sqlite_daemon.Service.{Service, send}
use sqlite_daemon.Service.Replies.Defs.{Answered, Names, Delivers, rerouted}
use sqlite_daemon.Service.Replies.Tasks.{retask-Delivers, keeps_name, removing-Delivers}

module _ (P : Platform) (path : String → String) (first : String → P.sqlx.World) where
  open P use {json}
  open P.sqlx use {World}

  -- A task that is about to send gets a new reply channel.
  module _ (r : Router) (s : Service P) (t : ℕ) (n : String) (h : Delivers P path first r s)
      (no_wait : (name : String) (w : ℕ) → r.task t ≢ awaiting name w) where
    abbrev k : ℕ
    k = s.next_channel

    abbrev with_channel : Service P
    with_channel = record s {
      channel = set s.channel t k;
      next_channel = suc k;
      asked = set s.asked k (n, s.request t);
    }

    asked_before : (c : ℕ) → c < k → with_channel.asked c ≡ s.asked c
    asked_before c low = rw (let apart : (c == k) ≡ false = ground (arith, ==_iff c k) in apart)

    channel-Delivers : Delivers P path first r with_channel
    channel-Delivers = record {
      queued = λ w.
          All-mono _ _ (s.queue w) (λ c (low, is). (omega arith, asked_before c.0 low ∙ is))
            (h.queued w);
      unsent = h.unsent;
      answered = λ c response e.
          let low : c < k = ground (arith, h.unanswered c) in
          subst (λ q. Answered P path first s.history q response) (sym (asked_before c low))
            (h.answered c response e);
      unanswered = λ c above. h.unanswered c (omega arith);
      waiting = λ j name w e. elim (Bool-cases (j == t)) [
        | inl x ↦ absurd (no_wait name w (ap r.task (sym ((==_iff j t).0 x)) ∙ e))
        | inr x ↦
            let (low, is) = h.waiting j name w e in
            rw x (omega arith, asked_before (s.channel j) low ∙ is)
      ];
      named = h.named;
    }

  -- A command comes into a queue.
  push-Delivers :
      (r : Router) (s : Service P) (w c : ℕ) (req : Request json)
      → c < s.next_channel
      → s.asked c ≡ (r.db_name w, req)
      → w < r.next_worker
      → Delivers P path first r s
      → Delivers P path first r (record s { queue = set s.queue w (s.queue w ++ (c, req) ∷ []) })
  push-Delivers r s w c req low is born h = record {
    queued = λ j. elim (Bool-cases (j == w)) [
      | inl x ↦ rw x (
          subst
            (λ i.
              All
                (λ (d : ℕ × Request json).
                  (d.0 < s.next_channel) × (s.asked d.0 ≡ (r.db_name i, d.1)))
                (s.queue w ++ (c, req) ∷ []))
            (sym ((==_iff j w).0 x)) (All-snoc _ (s.queue w) (c, req) (h.queued w) (low, is)))
      | inr x ↦ rw x (h.queued j)
    ];
    unsent = λ j above. ground (arith, ==_iff j w, h.unsent j);
    answered = h.answered;
    unanswered = h.unanswered;
    waiting = h.waiting;
    named = h.named;
  }

  pub send-Delivers :
      (s : Service P) (t : ℕ) (n : String) (w : ℕ)
      → s.router.task t ≡ sending n w
      → IsRouted s.router
      → Delivers P path first s.router s
      → Delivers P path first (send P t s n w).router (send P t s n w)
  unfolding send Router.send
  send-Delivers s t n w e routed h =
      let r = s.router in
      let c = s.next_channel in
      let about : Names P path first (r.task t) n =
        subst (λ k. Names P path first k n) (sym e) refl in
      let uses : Uses (r.task t) n w = subst (λ k. Uses k n w) (sym e) (refl, refl) in
      let (leads, born) = routed.used t n w uses in
      let no_wait : (name : String) (v : ℕ) → r.task t ≢ awaiting name v =
        λ name v x. let z : sending n w ≡ awaiting name v = sym e ∙ x in cc in
      let h₁ = channel-Delivers r s t n h no_wait in
      let is : set s.asked c (n, s.request t) c ≡ (n, s.request t) = rw ((==_iff c c).1 refl) in
      elim (Bool-cases (is_running (r.life w))) [
        | inl x ↦
            rw (x, Router.send)
              (rerouted P path first _ _ _ (
                retask-Delivers P path first r _ t (awaiting n w)
                  (push-Delivers r (with_channel r s t n h no_wait) w c (s.request t) (omega arith)
                    (is ∙ ap (λ m. (m, s.request t)) (sym leads)) born h₁)
                  (λ name v x.
                    let same : n ≡ name = cc in
                    rw ((==_iff t t).1 refl) (omega arith, is ∙ ap (λ m. (m, s.request t)) same))
                  (keeps_name P path first r s t n h about)))
        | inr x ↦
            rw (x, Router.send)
              (rerouted P path first _ _ _ (removing-Delivers P path first r _ t n h₁ about))
      ]
