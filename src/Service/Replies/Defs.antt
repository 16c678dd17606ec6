-- ===== src/Service/Replies/Defs.antt =====
-- Reply channels, and what holds of them.
use text.Mathlib.TextEquality.{eq_iff}
use text.Mathlib.Text.{◌==◌ as str_eq}
use sqlite_daemon.Prelude.{
  ℕ, ◌<◌, ◌≤◌, String, ◌≡◌, sym, ap, ◌∙◌, List, [], ◌∷◌, ◌++◌, append_assoc, none, some, Bool-cases,
  inl, inr, All,
}
use sqlite_daemon.Platform.{Platform}
use sqlite_daemon.Protocol.{Request, Response}
use sqlite_daemon.Worker.State.{WorkerState}
use sqlite_daemon.Worker.Loop.{command, turn}
use sqlite_daemon.Router.{
  Router, Task, idle, looking, missed, sending, awaiting, removing, extract_db_name, set_name,
}
use sqlite_daemon.Service.History.{Action, event}
use sqlite_daemon.Service.{Service}
use sqlite_daemon.Service.Serial.{replay}

module _ (P : Platform) (path : String → String) (first : String → P.sqlx.World) where
  open P use {json}
  open P.sqlx use {World}

  -- Somewhere in the history of the database the request was served, and this is the reply that its
  -- handler gave there.
  abbrev pub Answered : (String → List (Action P)) → String × Request json → Response → Type 0
  Answered history (name, req) response =
      (before : List (Action P)) × (after : List (Action P)) × (now : ℕ) × (state : WorkerState P)
      × (w : World) × (history name ≡ before ++ event (command now req) ∷ after)
      × (replay P path first name before ≡ (some state, w))
      × ((turn P (command now req) state w).0.reply ≡ some response)

  grow_list :
      (h b c : List (Action P)) (x a : Action P)
      → h ≡ b ++ x ∷ c
      → h ++ a ∷ [] ≡ b ++ x ∷ (c ++ a ∷ [])
  grow_list h b c x a e = ap (λ l. l ++ a ∷ []) e ∙ append_assoc b (x ∷ c) (a ∷ [])

  -- It stays so as any database's history grows.
  pub grow-Answered :
      (history : String → List (Action P)) (n : String) (a : Action P) (q : String × Request json)
      (response : Response)
      → Answered history q response
      → Answered (set_name history n (history n ++ a ∷ [])) q response
  grow-Answered history n a (name, req) response (before, after, now, state, w, at, led, replied) =
      elim (Bool-cases (str_eq name n)) [
        | inl x ↦
            let same : name ≡ n = (eq_iff name n).0 x in
            let grown : history n ++ a ∷ []
                ≡ before ++ event (command now req) ∷ (after ++ a ∷ []) =
              grow_list (history n) before after (event (command now req)) a
                (ap history (sym same) ∙ at) in
            (before, after ++ a ∷ [], now, state, w, rw x grown, led, replied)
        | inr x ↦ (before, after, now, state, w, rw x at, led, replied)
      ]

  -- The database that a task is about.
  abbrev pub Names : Task → String → Type 0
  Names idle name = ⊥
  Names (looking n) name = n ≡ name
  Names (missed n) name = n ≡ name
  Names (sending n w) name = n ≡ name
  Names (awaiting n w) name = n ≡ name
  Names (removing n) name = n ≡ name

  -- A reply channel is for what its task asked, in the task, in the queues and in the replies.
  pub record Delivers (r : Router) (s : Service P) : Type 0 where
    pub queued :
        (w : ℕ)
        → All
            (λ (c : ℕ × Request json). (c.0 < s.next_channel) × (s.asked c.0 ≡ (r.db_name w, c.1)))
            (s.queue w)
    pub unsent : (w : ℕ) → r.next_worker ≤ w → s.queue w ≡ []
    pub answered :
        (k : ℕ) (response : Response)
        → s.replies k ≡ some response
        → Answered s.history (s.asked k) response
    pub unanswered : (k : ℕ) → s.next_channel ≤ k → s.replies k ≡ none
    pub waiting :
        (t : ℕ) (name : String) (w : ℕ)
        → r.task t ≡ awaiting name w
        → (s.channel t < s.next_channel) × (s.asked (s.channel t) ≡ (name, s.request t))
    pub named :
        (t : ℕ) (name : String) → Names (r.task t) name → extract_db_name (s.request t) ≡ some name

  -- Where the router stands does not matter to the other fields.
  pub rerouted :
      (r r' : Router) (s : Service P) → Delivers r s → Delivers r (record s { router = r' })
  rerouted r r' s h = record {
    queued = h.queued;
    unsent = h.unsent;
    answered = h.answered;
    unanswered = h.unanswered;
    waiting = h.waiting;
    named = h.named;
  }
