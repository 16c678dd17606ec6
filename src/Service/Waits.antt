-- ===== src/Service/Waits.antt =====
-- daemon/src/router.rs with the loop of daemon/src/worker.rs: how long a task waits for its reply, by
-- the place of its command in the queue.
pub mod Tasks
pub mod Work
pub mod Answers
pub mod Room
pub mod Finish
use sqlite_daemon.Prelude.{
  ℕ, suc, zero, ◌+◌, ◌<◌, ◌≤◌, String, ◌≡◌, ◌≢◌, refl, sym, ap, ◌∙◌, subst, Bool, true, false, List,
  [], ◌∷◌, ◌++◌, length, append-nil, Option, none, some, ◌==◌, ==_iff, arith, Option-cases,
  Bool-cases, inl, inr, ◌⊎◌, if◌then◌else◌,
}
use sqlite_daemon.Platform.{Platform}
use sqlite_daemon.Protocol.{Request, Response}
use sqlite_daemon.Worker.State.{WorkerState}
use sqlite_daemon.Worker.Loop.{Event, command, channel_closed, sleep, turn}
use sqlite_daemon.Router.{Router, running, is_running, set, awaiting}
use sqlite_daemon.Router
use sqlite_daemon.Router.Ends.{IsOver, Reach-IsOver}
use sqlite_daemon.Service.History.{Action, start, event}
use sqlite_daemon.Service.{
  Service, initial, ask, look, create, send, end_wait, remove, after_action, acted, act, serve,
  leave, Step, asks, looks, creates, sends, receives, loses, removes, starts, serves, wakes, closes,
  cleans, Reach, here, next,
}
use sqlite_daemon.Service.Routes.{Step-Reach}

module _ (P : Platform) (path : String → String) where
  open P use {json}

  -- The command of the channel `k` is at a place of the queue.
  abbrev pub AtPlace : ℕ → List (ℕ × Request json) → ℕ → Type 0
  AtPlace k [] i = ⊥
  AtPlace k (c ∷ cs) zero = c.0 ≡ k
  AtPlace k (c ∷ cs) (suc i) = AtPlace k cs i

  AtPlace-append :
      (k i : ℕ) (cs ds : List (ℕ × Request json)) → AtPlace k cs i → AtPlace k (cs ++ ds) i
  AtPlace-append k i [] ds h = absurd h
  AtPlace-append k zero (c ∷ cs) ds h = h
  AtPlace-append k (suc i) (c ∷ cs) ds h = AtPlace-append k i cs ds h

  pub AtPlace-length : (k i : ℕ) (cs : List (ℕ × Request json)) → AtPlace k cs i → i < length cs
  AtPlace-length k i [] h = absurd h
  AtPlace-length k zero (c ∷ cs) h = ground arith
  AtPlace-length k (suc i) (c ∷ cs) h = let low = AtPlace-length k i cs h in ground arith

  pub AtPlace-last :
      (k : ℕ) (req : Request json) (cs : List (ℕ × Request json))
      → AtPlace k (cs ++ (k, req) ∷ []) (length cs)
  AtPlace-last k req [] = refl
  AtPlace-last k req (c ∷ cs) = AtPlace-last k req cs

  pub AtPlace-tail :
      (k i : ℕ) (c : ℕ × Request json) (cs : List (ℕ × Request json))
      → AtPlace k (c ∷ cs) i
      → (c.0 ≡ k) ⊎ ((m : ℕ) × (i ≡ suc m) × AtPlace k cs m)
  AtPlace-tail k zero c cs h = inl h
  AtPlace-tail k (suc i) c cs h = inr (i, refl, h)

  -- The channel has its reply, or the worker has ended, or fewer than `n` commands are served before.
  abbrev pub Awaits : Service P → ℕ → ℕ → ℕ → Type 0
  Awaits s k w n =
      ((response : Response) × (s.replies k ≡ some response))
      ⊎ (IsOver s.router w ⊎ ((i : ℕ) × (i < n) × AtPlace k (s.queue w) i))

  Awaits-mono : (s : Service P) (k w m n : ℕ) → m ≤ n → Awaits s k w m → Awaits s k w n
  Awaits-mono s k w m n low (inl h) = inl h
  Awaits-mono s k w m n low (inr (inl h)) = inr (inl h)
  Awaits-mono s k w m n low (inr (inr (i, below, h))) = inr (inr (i, ground arith, h))

  pub Awaits-length :
      (s : Service P) (k w n : ℕ) → Awaits s k w n → Awaits s k w (length (s.queue w))
  Awaits-length s k w n (inl h) = inl h
  Awaits-length s k w n (inr (inl h)) = inr (inl h)
  Awaits-length s k w n (inr (inr (i, below, h))) =
      inr (inr (i, AtPlace-length k i (s.queue w) h, h))

  -- How many commands a worker takes from its queue in a step, and in a run.
  abbrev pub served : ℕ → {s v : Service P} → Step P path s v → ℕ
  served w (serves v now k req rest state alive e q) = if w == v then 1 else 0
  served w _ = 0

  abbrev pub all_served : ℕ → {s v : Service P} → Reach P path s v → ℕ
  all_served w here = 0
  all_served w (next run st) = all_served w run + served w st

  -- Where replies and the queue stay, or the queue grows.
  grown-Awaits :
      (s v : Service P) (k w n : ℕ) (ds : List (ℕ × Request json))
      → Step P path s v
      → v.replies ≡ s.replies
      → v.queue w ≡ s.queue w ++ ds
      → Awaits s k w n
      → Awaits v k w n
  grown-Awaits s v k w n ds st same more (inl (response, e)) =
      inl (response, ap (λ f. f k) same ∙ e)
  grown-Awaits s v k w n ds st same more (inr (inl h)) =
      inr (inl (Reach-IsOver w (Step-Reach P path st) h))
  grown-Awaits s v k w n ds st same more (inr (inr (i, below, h))) = inr (
      inr (i, below, subst (λ cs. AtPlace k cs i) (sym more) (AtPlace-append k i (s.queue w) ds h)))

  put :
      (b : Bool) (x : Response) (old : Option Response)
      → b ≡ true
      → (response : Response) × ((if b then some x else old) ≡ some response)
  put true x old e = (x, refl)
  put false x old e = absurd (cc)

  serves-Awaits :
      (s : Service P) (w now j k v n : ℕ) (req : Request json) (rest : List (ℕ × Request json))
      (state : WorkerState P) (st : Step P path s (serve P path v s now j req rest state))
      → s.queue v ≡ (j, req) ∷ rest
      → Awaits s k w ((if w == v then 1 else 0) + n)
      → Awaits (serve P path v s now j req rest state) k w n
  unfolding serve act turn
  serves-Awaits s w now j k v n req rest state st q (inl (response, e)) =
      elim (Bool-cases (k == j)) [
        | inl x ↦ inl (put (k == j) _ (s.replies k) x)
        | inr x ↦ inl (response, rw x e)
      ]
  serves-Awaits s w now j k v n req rest state st q (inr (inl h)) =
      inr (inl (Reach-IsOver w (Step-Reach P path st) h))
  serves-Awaits s w now j k v n req rest state st q (inr (inr (i, below, h))) =
      elim (Bool-cases (w == v)) [
        | inl x ↦
            let at = ap s.queue ((==_iff w v).0 x) ∙ q in
            elim (AtPlace-tail k i (j, req) rest (subst (λ cs. AtPlace k cs i) at h)) [
              | inl y ↦ inl (put (k == j) _ (s.replies k) ((==_iff k j).1 (sym y)))
              | inr (m, y, there) ↦ inr (inr (m, ground (arith, rw x at below), rw x there))
            ]
        | inr x ↦ inr (inr (i, ground (arith, rw x at below), rw x h))
      ]

  kept-Awaits :
      (s v : Service P) (k w m n : ℕ)
      → Step P path s v
      → v.replies ≡ s.replies
      → v.queue w ≡ s.queue w
      → m ≤ 0 + n
      → Awaits s k w m
      → Awaits v k w n
  kept-Awaits s v k w m n st same more low h =
      grown-Awaits s v k w n [] st same (more ∙ sym (append-nil (s.queue w)))
        (Awaits-mono s k w m n (ground arith) h)

  send-Awaits :
      (s : Service P) (t : ℕ) (name : String) (k w v m n : ℕ)
      → Step P path s (send P t s name v)
      → m ≤ 0 + n
      → Awaits s k w m
      → Awaits (send P t s name v) k w n
  unfolding send
  send-Awaits s t name k w v m n st low h = elim (Bool-cases (is_running (s.router.life v))) [
    | inl x ↦ elim (Bool-cases (w == v)) [
      | inl y ↦
          grown-Awaits s _ k w n ((s.next_channel, s.request t) ∷ []) st refl
            (rw (x, y)
              (ap (λ j. s.queue j ++ (s.next_channel, s.request t) ∷ []) (sym ((==_iff w v).0 y))))
            (Awaits-mono s k w m n (ground arith) h)
      | inr y ↦ kept-Awaits s _ k w m n st refl (rw (x, y) refl) low h
    ]
    | inr x ↦ kept-Awaits s _ k w m n st refl (rw x refl) low h
  ]

  pub Step-Awaits :
      {s v : Service P} (st : Step P path s v) (k w m n : ℕ)
      → m ≤ served w st + n
      → Awaits s k w m
      → Awaits v k w n
  unfolding ask look create end_wait remove leave act
  Step-Awaits {s} (asks t req e) k w m n low h =
      kept-Awaits s _ k w m n (asks t req e) refl refl low h
  Step-Awaits {s} (looks t name e) k w m n low h =
      kept-Awaits s _ k w m n (looks t name e) refl refl low h
  Step-Awaits {s} (creates t name e) k w m n low h =
      kept-Awaits s _ k w m n (creates t name e) refl refl low h
  Step-Awaits {s} (sends t name v e room) k w m n low h =
      send-Awaits s t name k w v m n (sends t name v e room) low h
  Step-Awaits {s} (receives t name v response e got) k w m n low h =
      kept-Awaits s _ k w m n (receives t name v response e got) refl refl low h
  Step-Awaits {s} (loses t name v e nothing dead) k w m n low h =
      kept-Awaits s _ k w m n (loses t name v e nothing dead) refl refl low h
  Step-Awaits {s} (removes t name e) k w m n low h =
      kept-Awaits s _ k w m n (removes t name e) refl refl low h
  Step-Awaits {s} (starts v now alive e) k w m n low h =
      kept-Awaits s _ k w m n (starts v now alive e) refl refl low h
  Step-Awaits {s} (serves v now j req rest state alive e q) k w m n low h =
      serves-Awaits s w now j k v n req rest state (serves v now j req rest state alive e q) q
        (Awaits-mono s k w m _ low h)
  Step-Awaits {s} (wakes v now was state alive e seen) k w m n low h =
      kept-Awaits s _ k w m n (wakes v now was state alive e seen) refl refl low h
  Step-Awaits {s} (closes v state alive e q unmapped unused) k w m n low h =
      kept-Awaits s _ k w m n (closes v state alive e q unmapped unused) refl refl low h
  Step-Awaits {s} (cleans v e) k w m n low h = kept-Awaits s _ k w m n (cleans v e) refl refl low h

  pub Reach-Awaits :
      {s v : Service P} (run : Reach P path s v) (k w m n : ℕ)
      → m ≤ all_served w run + n
      → Awaits s k w m
      → Awaits v k w n
  Reach-Awaits {s} here k w m n low h = Awaits-mono s k w m n (ground arith) h
  Reach-Awaits (next run st) k w m n low h =
      Step-Awaits st k w (served w st + n) n (ground arith)
        (Reach-Awaits run k w m (served w st + n) (ground arith) h)
