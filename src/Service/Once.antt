-- ===== src/Service/Once.antt =====
-- daemon/src/router.rs with daemon/src/worker.rs: how often a request is served.
pub mod Channels
pub mod Steps
use text.Mathlib.TextEquality.{eq_iff}
use text.Mathlib.Text.{◌==◌ as str_eq}
use sqlite_daemon.Prelude.{
  ℕ, zero, suc, ◌+◌, ◌<◌, ◌≤◌, String, ◌≡◌, ◌≢◌, refl, sym, ap, ◌∙◌, subst, Bool, true, false, ◌&&◌,
  List, [], ◌∷◌, ◌++◌, Option, none, some, ◌==◌, ==_iff, arith, Option-cases, Bool-cases, inl, inr,
  ◌⊎◌, length, if◌then◌else◌,
}
use sqlite_daemon.Platform.{Platform}
use sqlite_daemon.Protocol.{Request, Response}
use sqlite_daemon.Worker.Loop.{Event, command, channel_closed, sleep}
use sqlite_daemon.Router.{set, set_name}
use sqlite_daemon.Service.History.{Action, start, event}
use sqlite_daemon.Service.{Service}
use sqlite_daemon.Service.Waits.{AtPlace}

-- The sum of the values at the numbers below one.
abbrev pub sum_below : (ℕ → ℕ) → ℕ → ℕ
sum_below f zero = 0
sum_below f (suc n) = sum_below f n + f n

pub sum_below-same :
    (f g : ℕ → ℕ) (n : ℕ) → ((j : ℕ) → j < n → g j ≡ f j) → sum_below g n ≡ sum_below f n
sum_below-same f g zero same = refl
sum_below-same f g (suc n) same =
    let ih = sum_below-same f g n (λ j low. same j (omega arith)) in
    let last = same n (omega arith) in omega arith

-- One value goes up by one.
pub sum_below-more :
    (f g : ℕ → ℕ) (n k : ℕ)
    → k < n
    → g k ≡ suc (f k)
    → ((j : ℕ) → j ≢ k → g j ≡ f j)
    → sum_below g n ≡ suc (sum_below f n)
sum_below-more f g zero k low more same = absurd (omega arith)
sum_below-more f g (suc n) k low more same = elim (Bool-cases (n == k)) [
  | inl x ↦
      let at : n ≡ k = (==_iff n k).0 x in
      let rest = sum_below-same f g n (λ j below. same j (λ e. absurd (omega arith))) in
      let last : g n ≡ suc (f n) = subst (λ i. g i ≡ suc (f i)) (sym at) more in omega arith
  | inr x ↦
      let other : n ≢ k = λ e. let y = (==_iff n k).1 e in cc in
      let last = same n other in
      let ih = sum_below-more f g n k (ground arith) more same in omega arith
]

module _ (P : Platform) (path : String → String) (test : Request P.json → Bool) where
  open P use {json}

  -- How many requests that pass the test are served in a history.
  abbrev pub is_command : Action P → ℕ
  is_command (start now) = 0
  is_command (event (command now req)) = if test req then 1 else 0
  is_command (event channel_closed) = 0
  is_command (event (sleep now is_empty)) = 0

  abbrev pub commands : List (Action P) → ℕ
  commands [] = 0
  commands (a ∷ actions) = is_command a + commands actions

  pub commands-snoc :
      (actions : List (Action P)) (a : Action P)
      → commands (actions ++ a ∷ []) ≡ commands actions + is_command a
  commands-snoc [] a = omega arith
  commands-snoc (x ∷ actions) a = omega (arith, commands-snoc actions a)

  abbrev pub is_some {ℓ} : {A : Type ℓ} → Option A → Bool
  is_some none = false
  is_some (some a) = true

  -- The request is to the database, and passes the test.
  abbrev pub counts : String × Request json → String → Bool
  counts (db, req) name = str_eq db name && test req

  -- One, if the channel is for such a request and has its reply.
  abbrev pub is_reply : (ℕ → Option Response) → (ℕ → String × Request json) → String → ℕ → ℕ
  is_reply replies asked name k = if is_some (replies k) && counts (asked k) name then 1 else 0

  -- How many such requests to a database have got their reply, of those whose channels are below a number.
  abbrev pub replied : (ℕ → Option Response) → (ℕ → String × Request json) → String → ℕ → ℕ
  replied replies asked name n = sum_below (is_reply replies asked name) n

  -- A command stands once in all queues, and has no reply while it does.
  pub record IsOnce (queue : ℕ → List (ℕ × Request json)) (replies : ℕ → Option Response)
      (asked : ℕ → String × Request json) (n : ℕ) (history : String → List (Action P))
      : Type 0 where
    pub made : (k w i : ℕ) → AtPlace P path k (queue w) i → k < n
    pub unreplied : (k w i : ℕ) → AtPlace P path k (queue w) i → replies k ≡ none
    pub silent : (k : ℕ) → n ≤ k → replies k ≡ none
    pub single :
        (k w v i j : ℕ)
        → AtPlace P path k (queue w) i
        → AtPlace P path k (queue v) j
        → (w ≡ v) × (i ≡ j)
    pub counted : (name : String) → commands (history name) ≡ replied replies asked name n

  module _ {queue : ℕ → List (ℕ × Request json)} {replies : ℕ → Option Response}
      {asked : ℕ → String × Request json} {n : ℕ} {history : String → List (Action P)}
      (h : IsOnce queue replies asked n history) where
    -- An action that serves no request.
    pub act-IsOnce :
        (m : String) (a : Action P)
        → is_command a ≡ 0
        → IsOnce queue replies asked n (set_name history m (history m ++ a ∷ []))
    act-IsOnce m a other = record {
      made = h.made;
      unreplied = h.unreplied;
      silent = h.silent;
      single = h.single;
      counted = λ name. elim (Bool-cases (str_eq name m)) [
        | inl x ↦
            let at : m ≡ name = sym ((eq_iff name m).0 x) in
            rw x (
              subst (λ l. commands (history l ++ a ∷ []) ≡ replied replies asked name n) (sym at)
                (let e = h.counted name in omega (arith, commands-snoc (history name) a)))
        | inr x ↦ rw x (h.counted name)
      ];
    }
