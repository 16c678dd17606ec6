-- ===== src/Service/Once/Channels.antt =====
-- A command is sent with a new channel, or served and its channel gets a reply.
use text.Mathlib.TextEquality.{eq_iff}
use text.Mathlib.Text.{◌==◌ as str_eq}
use sqlite_daemon.Prelude.{
  ℕ, zero, suc, ◌+◌, ◌<◌, String, ◌≡◌, ◌≢◌, refl, sym, ap, ◌∙◌, subst, Bool, false, List, [], ◌∷◌,
  ◌++◌, Option, none, some, ◌==◌, ==_iff, arith, Bool-cases, inl, inr, ◌⊎◌, length, if◌then◌else◌,
}
use sqlite_daemon.Platform.{Platform}
use sqlite_daemon.Protocol.{Request, Response}
use sqlite_daemon.Worker.Loop.{command}
use sqlite_daemon.Router.{set, set_name}
use sqlite_daemon.Service.History.{Action, event}
use sqlite_daemon.Service.Waits.{AtPlace}
use sqlite_daemon.Service.Once.{
  sum_below-same, sum_below-more, commands, commands-snoc, is_reply, counts, replied, IsOnce,
}

module _ (P : Platform) (path : String → String) where
  open P use {json}

  last_place :
      (k c i : ℕ) (req : Request json) (cs : List (ℕ × Request json))
      → AtPlace P path k (cs ++ (c, req) ∷ []) i
      → AtPlace P path k cs i ⊎ ((c ≡ k) × (i ≡ length cs))
  last_place k c zero req [] h = inr (h, refl)
  last_place k c (suc i) req [] h = absurd h
  last_place k c zero req (d ∷ cs) h = inl h
  last_place k c (suc i) req (d ∷ cs) h = elim (last_place k c i req cs h) [
    | inl x ↦ inl x
    | inr (x, y) ↦ inr (x, ap suc y)
  ]

  -- Where a command stands after one is pushed.
  pushed_place :
      (queue : ℕ → List (ℕ × Request json)) (w c k v i : ℕ) (req : Request json)
      → AtPlace P path k (set queue w (queue w ++ (c, req) ∷ []) v) i
      → AtPlace P path k (queue v) i ⊎ ((c ≡ k) × (v ≡ w) × (i ≡ length (queue w)))
  pushed_place queue w c k v i req h = elim (Bool-cases (v == w)) [
    | inl x ↦
        let at : v ≡ w = (==_iff v w).0 x in
        elim (last_place k c i req (queue w) (rw x at h)) [
          | inl y ↦ inl (subst (λ u. AtPlace P path k (queue u) i) (sym at) y)
          | inr (y, z) ↦ inr (y, at, z)
        ]
    | inr x ↦ inl (rw x at h)
  ]

  -- Where a command stood before the head was taken.
  taken_place :
      (queue : ℕ → List (ℕ × Request json)) (w k v i : ℕ) (c : ℕ × Request json)
      (rest : List (ℕ × Request json))
      → queue w ≡ c ∷ rest
      → AtPlace P path k (set queue w rest v) i
      → AtPlace P path k (queue v) (if v == w then suc i else i)
  taken_place queue w k v i c rest q h = elim (Bool-cases (v == w)) [
    | inl x ↦
        let e : queue v ≡ c ∷ rest = ap queue ((==_iff v w).0 x) ∙ q in
        rw x (subst (λ cs. AtPlace P path k cs (suc i)) (sym e) (rw x at h))
    | inr x ↦ rw x (rw x at h)
  ]

  module _ (test : Request json → Bool) {queue : ℕ → List (ℕ × Request json)}
      {replies : ℕ → Option Response} {asked : ℕ → String × Request json} {n : ℕ}
      {history : String → List (Action P)}
      (h : IsOnce P path test queue replies asked n history) where
    -- A new channel, for which nothing is sent yet.
    pub channel-IsOnce :
        (q : String × Request json)
        → IsOnce P path test queue replies (set asked n q) (suc n) history
    channel-IsOnce q = record {
      made = λ k w i at. let low = h.made k w i at in omega arith;
      unreplied = h.unreplied;
      silent = λ k above. h.silent k (omega arith);
      single = h.single;
      counted = λ name.
          let old = is_reply P path test replies asked name in
          let new = is_reply P path test replies (set asked n q) name in
          let same =
            sum_below-same old new n
              (λ j low. rw (let x : (j == n) ≡ false = ground (arith, ==_iff j n) in x)) in
          let e = h.counted name in
          let last : new n ≡ 0 = rw (h.silent n (omega arith)) in omega arith;
    }

    -- The command of a channel comes into a queue.
    pub push-IsOnce :
        (w c : ℕ) (req : Request json)
        → c < n
        → replies c ≡ none
        → ((v i : ℕ) → AtPlace P path c (queue v) i → ⊥)
        → IsOnce P path test (set queue w (queue w ++ (c, req) ∷ [])) replies asked n history
    push-IsOnce w c req low nothing new = record {
      made = λ k v i at. elim (pushed_place queue w c k v i req at) [
        | inl x ↦ h.made k v i x
        | inr (x, y, z) ↦ subst (λ j. j < n) x low
      ];
      unreplied = λ k v i at. elim (pushed_place queue w c k v i req at) [
        | inl x ↦ h.unreplied k v i x
        | inr (x, y, z) ↦ subst (λ j. replies j ≡ none) x nothing
      ];
      silent = h.silent;
      single = λ k u v i j at at'. elim (pushed_place queue w c k u i req at) [
        | inl x ↦ elim (pushed_place queue w c k v j req at') [
          | inl y ↦ h.single k u v i j x y
          | inr y ↦ absurd (new u i (subst (λ d. AtPlace P path d (queue u) i) (sym y.0) x))
        ]
        | inr x ↦ elim (pushed_place queue w c k v j req at') [
          | inl y ↦ absurd (new v j (subst (λ d. AtPlace P path d (queue v) j) (sym x.0) y))
          | inr y ↦ (x.1 ∙ sym y.1, x.2 ∙ sym y.2)
        ]
      ];
      counted = h.counted;
    }

    module _ (w k now : ℕ) (req : Request json) (rest : List (ℕ × Request json))
        (response : Response) (q : queue w ≡ (k, req) ∷ rest) where
      head_place : AtPlace P path k (queue w) 0
      head_place = subst (λ cs. AtPlace P path k cs 0) (sym q) refl

      other_channel : (j v i : ℕ) → AtPlace P path j (set queue w rest v) i → j ≢ k
      other_channel j v i at e =
          let old = taken_place queue w j v i (k, req) rest q at in
          let (x, y) =
            h.single k w v 0 (if v == w then suc i else i) head_place
              (subst (λ d. AtPlace P path d (queue v) (if v == w then suc i else i)) e old) in
          ground (arith, ==_iff v w)

      -- The count of the replies to a database's requests.
      serve_counted :
          (name : String)
          → replied P path test (set replies k (some response)) asked name n
            ≡ replied P path test replies asked name n
              + (if counts P path test (asked k) name then 1 else 0)
      serve_counted name =
          let old = is_reply P path test replies asked name in
          let new = is_reply P path test (set replies k (some response)) asked name in
          let before : old k ≡ 0 = rw (h.unreplied k w 0 head_place) in
          let same : (j : ℕ) → j ≢ k → new j ≡ old j =
            λ j other. rw (let apart : (j == k) ≡ false = ground (arith, ==_iff j k) in apart) in
          elim (Bool-cases (counts P path test (asked k) name)) [
            | inl x ↦
                let after : new k ≡ suc (old k) = rw (before, (==_iff k k).1 refl, x) refl in
                let more = sum_below-more old new n k (h.made k w 0 head_place) after same in
                rw x (omega arith)
            | inr x ↦
                let kept : new k ≡ old k = rw (before, (==_iff k k).1 refl, x) refl in
                let all : (j : ℕ) → j < n → new j ≡ old j = λ j low. elim (Bool-cases (j == k)) [
                  | inl y ↦ subst (λ i. new i ≡ old i) (sym ((==_iff j k).0 y)) kept
                  | inr y ↦ same j (λ e. let z = (==_iff j k).1 e in cc)
                ] in
                let equal = sum_below-same old new n all in rw x (omega arith)
          ]

      -- The head of a queue is served.
      pub serve-IsOnce :
          (m : String)
          → asked k ≡ (m, req)
          → IsOnce P path test
              (set queue w rest)
              (set replies k (some response))
              asked
              n
              (set_name history m (history m ++ event (command now req) ∷ []))
      serve-IsOnce m for = record {
        made = λ j v i at.
            h.made j v (if v == w then suc i else i) (taken_place queue w j v i (k, req) rest q at);
        unreplied = λ j v i at.
            let apart : (j == k) ≡ false =
              let other = other_channel j v i at in ground (arith, ==_iff j k) in
            rw apart (
              h.unreplied j v (if v == w then suc i else i)
                (taken_place queue w j v i (k, req) rest q at));
        silent = λ j above.
            let low = h.made k w 0 head_place in
            let apart : (j == k) ≡ false = ground (arith, ==_iff j k) in
            rw apart (h.silent j above);
        single = λ j u v i i' at at'.
            let (x, y) =
              h.single j u v (if u == w then suc i else i) (if v == w then suc i' else i')
                (taken_place queue w j u i (k, req) rest q at)
                (taken_place queue w j v i' (k, req) rest q at') in
            (x, ground (arith, ==_iff u w, ==_iff v w));
        counted = λ name.
            let sum = serve_counted name in
            let ended = commands-snoc P path test (history m) (event (command now req)) in
            let e = h.counted name in
            elim (Bool-cases (str_eq name m)) [
              | inl x ↦
                  let at : name ≡ m = (eq_iff name m).0 x in
                  let is : counts P path test (asked k) name ≡ test req =
                    rw for (rw ((eq_iff m name).1 (sym at)) refl) in
                  let there : commands P path test (history m)
                      ≡ commands P path test (history name) =
                    ap (λ l. commands P path test (history l)) (sym at) in
                  let one : replied P path test (set replies k (some response)) asked name n
                      ≡ replied P path test replies asked name n + (if test req then 1 else 0) =
                    sum ∙ rw is refl in
                  rw x (omega arith)
              | inr x ↦
                  let is : counts P path test (asked k) name ≡ false =
                    let apart : str_eq m name ≡ false =
                      ground (arith, eq_iff m name, eq_iff name m) in
                    rw for (rw apart refl) in
                  let none_more : replied P path test (set replies k (some response)) asked name n
                      ≡ replied P path test replies asked name n + 0 =
                    sum ∙ rw is refl in
                  rw x (omega arith)
            ];
      }
