-- ===== src/Service/Replies/Tasks.antt =====
-- The steps of tasks other than a sending.
use sqlite_daemon.Prelude.{
  ℕ, suc, ◌<◌, String, ◌≡◌, refl, sym, ap, ◌∙◌, subst, some, ◌==◌, ==_iff, arith, Option-cases,
  Bool-cases, inl, inr, All, if◌then◌else◌,
}
use sqlite_daemon.Platform.{Platform}
use sqlite_daemon.Protocol.{
  Request, ping, exec_batch, prepare_for_maintenance, close_database, reopen_database, shutdown,
}
use sqlite_daemon.Router.{
  Router, running, Task, idle, looking, missed, sending, awaiting, removing, Start, respond,
  forward, route_start, extract_db_name, begin, fast_path, slow_path, set, set_name,
}
use sqlite_daemon.Service.{Service}
use sqlite_daemon.Service.Replies.Defs.{Names, Delivers}

module _ (P : Platform) (path : String → String) (first : String → P.sqlx.World) where
  open P use {json}
  open P.sqlx use {World}

  -- A task moves on.
  module _ (r : Router) (s : Service P) (t : ℕ) (at : Task) (h : Delivers P path first r s)
      (waits : (name : String) (w : ℕ)
        → at ≡ awaiting name w
        → (s.channel t < s.next_channel) × (s.asked (s.channel t) ≡ (name, s.request t)))
      (own : (name : String)
        → Names P path first at name
        → extract_db_name (s.request t) ≡ some name) where
    retask_waiting :
        (j : ℕ) (name : String) (w : ℕ)
        → set r.task t at j ≡ awaiting name w
        → (s.channel j < s.next_channel) × (s.asked (s.channel j) ≡ (name, s.request j))
    retask_waiting j name w e = elim (Bool-cases (j == t)) [
      | inl x ↦
          subst
            (λ i. (s.channel i < s.next_channel) × (s.asked (s.channel i) ≡ (name, s.request i)))
            (sym ((==_iff j t).0 x)) (waits name w (rw x at e))
      | inr x ↦ h.waiting j name w (rw x at e)
    ]

    retask_named :
        (j : ℕ) (name : String)
        → Names P path first (set r.task t at j) name
        → extract_db_name (s.request j) ≡ some name
    retask_named j name e = elim (Bool-cases (j == t)) [
      | inl x ↦
          subst (λ i. extract_db_name (s.request i) ≡ some name) (sym ((==_iff j t).0 x))
            (own name (subst (λ b. Names P path first (if b then at else r.task j) name) x e))
      | inr x ↦
          h.named j name (subst (λ b. Names P path first (if b then at else r.task j) name) x e)
    ]

    pub retask-Delivers : Delivers P path first (record r { task = set r.task t at }) s
    retask-Delivers = record {
      queued = h.queued;
      unsent = h.unsent;
      answered = h.answered;
      unanswered = h.unanswered;
      waiting = retask_waiting;
      named = retask_named;
    }

  -- A task that is about `n` moves on to a task that is about `n` as well.
  module _ (r : Router) (s : Service P) (t : ℕ) (n : String) (h : Delivers P path first r s)
      (about : Names P path first (r.task t) n) where
    pub keeps_name : (name : String) → n ≡ name → extract_db_name (s.request t) ≡ some name
    keeps_name name e = h.named t n about ∙ ap some e

    missed-Delivers : Delivers P path first (record r { task = set r.task t (missed n) }) s
    missed-Delivers = retask-Delivers r s t (missed n) h (λ name w e. cc) keeps_name

    sending-Delivers :
        (w : ℕ) → Delivers P path first (record r { task = set r.task t (sending n w) }) s
    sending-Delivers w = retask-Delivers r s t (sending n w) h (λ name v e. cc) keeps_name

    pub removing-Delivers : Delivers P path first (record r { task = set r.task t (removing n) }) s
    removing-Delivers = retask-Delivers r s t (removing n) h (λ name w e. cc) keeps_name

    pub fast_path-Delivers : Delivers P path first (fast_path t r n) s
    unfolding fast_path
    fast_path-Delivers = elim (Option-cases (r.workers n)) [
      | inl x ↦ rw (x, fast_path) missed-Delivers
      | inr (w, x) ↦ rw (x, fast_path) (sending-Delivers w)
    ]

  pub idle-Delivers :
      (r : Router) (s : Service P) (t : ℕ)
      → Delivers P path first r s
      → Delivers P path first (record r { task = set r.task t idle }) s
  idle-Delivers r s t h = retask-Delivers r s t idle h (λ name w e. cc) (λ name e. absurd e)

  -- A worker is spawned. Its queue is empty.
  spawn_queued :
      (r : Router) (s : Service P) (n : String)
      → Delivers P path first r s
      → (w : ℕ)
      → All
          (λ (c : ℕ × Request json).
            (c.0 < s.next_channel) × (s.asked c.0 ≡ (set r.db_name r.next_worker n w, c.1)))
          (s.queue w)
  spawn_queued r s n h w = elim (Bool-cases (w == r.next_worker)) [
    | inl x ↦
        let at : w ≡ r.next_worker = (==_iff w r.next_worker).0 x in
        rw (h.unsent w (omega arith)) tt
    | inr x ↦ rw x (h.queued w)
  ]

  pub slow_path-Delivers :
      (r : Router) (s : Service P) (t : ℕ) (n : String)
      → r.task t ≡ missed n
      → Delivers P path first r s
      → Delivers P path first (slow_path t r n) s
  unfolding slow_path
  slow_path-Delivers r s t n e h =
      let about : Names P path first (r.task t) n =
        subst (λ k. Names P path first k n) (sym e) refl in
      elim (Option-cases (r.workers n)) [
        | inl x ↦
            let r' = record r {
              workers = set_name r.workers n (some r.next_worker);
              next_worker = suc r.next_worker;
              db_name = set r.db_name r.next_worker n;
              life = set r.life r.next_worker running;
            } in
            let h' : Delivers P path first r' s = record {
              queued = spawn_queued r s n h;
              unsent = λ w above. h.unsent w (omega arith);
              answered = h.answered;
              unanswered = h.unanswered;
              waiting = h.waiting;
              named = h.named;
            } in
            rw (x, slow_path) (sending-Delivers r' s t n h' about r.next_worker)
        | inr (w, x) ↦ rw (x, slow_path) (sending-Delivers r s t n h about w)
      ]

  forward_names :
      (req : Request json) (n : String) → route_start req ≡ forward n → extract_db_name req ≡ some n
  unfolding route_start extract_db_name
  forward_names (ping db) n e = cc
  forward_names (exec_batch db stmts tx) n e = cc
  forward_names (prepare_for_maintenance db) n e = cc
  forward_names (close_database db) n e = cc
  forward_names (reopen_database db) n e = cc
  forward_names shutdown n e = cc

  -- An idle task gets another request.
  request-Delivers :
      (r : Router) (s : Service P) (t : ℕ) (req : Request json)
      → r.task t ≡ idle
      → Delivers P path first r s
      → Delivers P path first r (record s { request = set s.request t req })
  request-Delivers r s t req e h = record {
    queued = h.queued;
    unsent = h.unsent;
    answered = h.answered;
    unanswered = h.unanswered;
    waiting = λ j name w x. elim (Bool-cases (j == t)) [
      | inl y ↦ let z : idle ≡ awaiting name w = sym (ap r.task ((==_iff j t).0 y) ∙ e) ∙ x in cc
      | inr y ↦ rw y (h.waiting j name w x)
    ];
    named = λ j name x. elim (Bool-cases (j == t)) [
      | inl y ↦ absurd (subst (λ k. Names P path first k name) (ap r.task ((==_iff j t).0 y) ∙ e) x)
      | inr y ↦ rw y (h.named j name x)
    ];
  }

  pub begin-Delivers :
      (r : Router) (s : Service P) (t : ℕ) (req : Request json) (x : Start)
      → route_start req ≡ x
      → r.task t ≡ idle
      → Delivers P path first r s
      → Delivers P path first (begin t r x) (record s { request = set s.request t req })
  unfolding begin
  begin-Delivers r s t req (respond response) q e h = request-Delivers r s t req e h
  begin-Delivers r s t req (forward n) q e h =
      retask-Delivers r (record s { request = set s.request t req }) t (looking n)
        (request-Delivers r s t req e h) (λ name w y. cc)
        (λ name y. rw ((==_iff t t).1 refl) (forward_names req n q ∙ ap some y))
