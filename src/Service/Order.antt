-- ===== src/Service/Order.antt =====
-- daemon/src/router.rs with daemon/src/worker.rs: where in a database's history a request is served that
-- a task has asked for after another moment.
pub mod Steps
use text.Mathlib.TextEquality.{eq_iff}
use text.Mathlib.Text.{◌==◌ as str_eq}
use sqlite_daemon.Prelude.{
  ℕ, suc, ◌<◌, ◌≤◌, String, ◌≡◌, ◌≢◌, refl, sym, ap, ◌∙◌, subst, Bool, true, false, List, [], ◌∷◌,
  ◌++◌, append_assoc, append-nil, Option, none, some, ◌==◌, ==_iff, arith, Option-cases, Bool-cases,
  inl, inr, All, if◌then◌else◌,
}
use sqlite_daemon.Platform.{Platform}
use sqlite_daemon.Protocol.{Request, Response}
use sqlite_daemon.Worker.State.{WorkerState}
use sqlite_daemon.Worker.Loop.{command, channel_closed, sleep, turn}
use sqlite_daemon.Router.{Router, running, set, set_name, idle, awaiting}
use sqlite_daemon.Service.History.{Action, start, event}
use sqlite_daemon.Service.{
  Service, initial, ask, look, create, send, end_wait, remove, act, serve, leave, Step, asks, looks,
  creates, sends, receives, loses, removes, starts, serves, wakes, closes, cleans, Reach, here,
  next, is_empty,
}
use sqlite_daemon.Service.Routes.{AllKept}
use sqlite_daemon.Service.Serial.{replay, worker_serial}
use sqlite_daemon.Service.Replies.{Delivers, Reach-Delivers}
use sqlite_daemon.Service.Waits.Tasks.{Step-Since}

module _ (P : Platform) (path : String → String) (first : String → P.sqlx.World) where
  open P use {json}
  open P.sqlx use {World}

  -- The history goes on from an old one, and the request was served in what came after the old one, from
  -- the state that the history before leads to.
  abbrev pub AnsweredAfter :
      List (Action P) → List (Action P) → String × Request json → Response → Type 0
  AnsweredAfter old history (name, req) response =
      (between : List (Action P)) × (after : List (Action P)) × (now : ℕ) × (state : WorkerState P)
      × (w : World) × (history ≡ (old ++ between) ++ event (command now req) ∷ after)
      × (replay P path first name (old ++ between) ≡ (some state, w))
      × ((turn P (command now req) state w).0.reply ≡ some response)

  grow-AnsweredAfter :
      (old history : List (Action P)) (a : Action P) (q : String × Request json)
      (response : Response)
      → AnsweredAfter old history q response
      → AnsweredAfter old (history ++ a ∷ []) q response
  grow-AnsweredAfter old history a q response (between, after, now, state, w, at, led, replied) = (
    between,
    after ++ a ∷ [],
    now,
    state,
    w,
    ap (λ l. l ++ a ∷ []) at
        ∙ append_assoc (old ++ between) (event (command now q.1) ∷ after) (a ∷ []),
    led,
    replied,
  )

  -- What has changed since the state `s`.
  pub record Later (s v : Service P) : Type 0 where
    pub grown :
        (name : String) → (between : List (Action P)) × (v.history name ≡ s.history name ++ between)
    pub more_channels : s.next_channel ≤ v.next_channel
    pub recent :
        (k : ℕ) (response : Response)
        → s.next_channel ≤ k
        → v.replies k ≡ some response
        → AnsweredAfter (s.history (v.asked k).0) (v.history (v.asked k).0) (v.asked k) response

  pub act-Later : (s v : Service P) (w : ℕ) (a : Action P) → Later s v → Later s (act P path w v a)
  unfolding act
  act-Later s v w a h =
      let n = v.router.db_name w in
      record {
        grown = λ name. elim (Bool-cases (str_eq name n)) [
          | inl x ↦
              let at : n ≡ name = sym ((eq_iff name n).0 x) in
              let (between, e) = h.grown n in
              (
                between ++ a ∷ [],
                rw x (
                    subst (λ m. v.history n ++ a ∷ [] ≡ s.history m ++ (between ++ a ∷ [])) at
                      (ap (λ l. l ++ a ∷ []) e ∙ append_assoc (s.history n) between (a ∷ []))),
              )
          | inr x ↦ rw x (h.grown name)
        ];
        more_channels = h.more_channels;
        recent = λ k response low e.
            let q = v.asked k in
            elim (Bool-cases (str_eq q.0 n)) [
              | inl x ↦
                  let at : n ≡ q.0 = sym ((eq_iff q.0 n).0 x) in
                  rw x (
                    subst (λ m. AnsweredAfter (s.history q.0) (v.history m ++ a ∷ []) q response)
                      (sym at)
                      (grow-AnsweredAfter (s.history q.0) (v.history q.0) a q response
                        (h.recent k response low e)))
              | inr x ↦ rw x (h.recent k response low e)
            ];
      }

  pub serve-Later :
      (s v : Service P) (w now k : ℕ) (req : Request json) (rest : List (ℕ × Request json))
      (state : WorkerState P)
      → replay P path first (v.router.db_name w) (v.history (v.router.db_name w))
        ≡ (some state, v.world (v.router.db_name w))
      → v.asked k ≡ (v.router.db_name w, req)
      → Later s v
      → Later s (serve P path w v now k req rest state)
  unfolding serve act
  serve-Later s v w now k req rest state led is h =
      let n = v.router.db_name w in
      let history' = set_name v.history n (v.history n ++ event (command now req) ∷ []) in
      let g = act-Later s v w (event (command now req)) h in
      record {
        grown = g.grown;
        more_channels = g.more_channels;
        recent = λ j response low e. elim (Bool-cases (j == k)) [
          | inl x ↦
              let (between, e') = h.grown n in
              subst (λ q. AnsweredAfter (s.history q.0) (history' q.0) q response)
                (sym (ap v.asked ((==_iff j k).0 x) ∙ is))
                (
                  between,
                  [],
                  now,
                  state,
                  v.world n,
                  rw ((eq_iff n n).1 refl) (ap (λ l. l ++ event (command now req) ∷ []) e'),
                  subst (λ l. replay P path first n l ≡ (some state, v.world n)) e' led,
                  rw x at e,
                )
          | inr x ↦ g.recent j response low (rw x at e)
        ];
      }

  pub send-Later :
      (s v : Service P) (t : ℕ) (name : String) (w : ℕ)
      → Delivers P path first v.router v
      → Later s v
      → Later s (send P t v name w)
  unfolding send
  send-Later s v t name w d h = record {
    grown = h.grown;
    more_channels = ground (arith, h.more_channels);
    recent = λ k response low e.
        let below : k < v.next_channel = ground (arith, d.unanswered k) in
        let apart : (k == v.next_channel) ≡ false = ground (arith, ==_iff k v.next_channel) in
        rw apart (h.recent k response low e);
  }
