-- ===== src/Service/Waits/Tasks.antt =====
-- daemon/src/router.rs, `get_or_create_worker` to `reply_rx.await`: the tasks that wait.
use sqlite_daemon.Prelude.{
  ℕ, suc, String, ◌≡◌, ◌≢◌, refl, sym, ap, subst, true, [], ◌∷◌, ◌++◌, length, Option, none, some,
  ◌==◌, ==_iff, arith, Option-cases, Bool-cases, inl, inr, ◌⊎◌,
}
use sqlite_daemon.Platform.{Platform}
use sqlite_daemon.Worker.State.{WorkerState}
use sqlite_daemon.Router.{
  Router, Task, idle, looking, missed, sending, removing, running, is_running, set, awaiting,
  respond, forward, route_start, begin, fast_path, slow_path, receive, remove_worker, terminate,
  clean_up, Start,
}
use sqlite_daemon.Router
use sqlite_daemon.Service.{
  Service, initial, ask, look, create, send, end_wait, remove, after_action, act, serve, leave,
  Step, asks, looks, creates, sends, receives, loses, removes, starts, serves, wakes, closes,
  cleans, Reach, here, next,
}
use sqlite_daemon.Service.Waits.{AtPlace, AtPlace-last, Awaits, Awaits-length, Step-Awaits}

-- Who waits has waited before.
abbrev Still : (ℕ → Task) → (ℕ → Task) → Type 0
Still old new = (j : ℕ) (name : String) (w : ℕ) → new j ≡ awaiting name w → old j ≡ awaiting name w

set-Still :
    (old : ℕ → Task) (t : ℕ) (at : Task)
    → ((name : String) (w : ℕ) → at ≢ awaiting name w)
    → Still old (set old t at)
set-Still old t at other j name w e = elim (Bool-cases (j == t)) [
  | inl x ↦ absurd (other name w (rw x at e))
  | inr x ↦ rw x at e
]

fast_path-Still : (t : ℕ) (name : String) (r : Router) → Still r.task (fast_path t r name).task
unfolding fast_path
fast_path-Still t name r = elim (Option-cases (r.workers name)) [
  | inl x ↦ rw (x, fast_path) (set-Still r.task t (missed name) (λ n w e. cc))
  | inr (v, x) ↦ rw (x, fast_path) (set-Still r.task t (sending name v) (λ n w e. cc))
]

slow_path-Still : (t : ℕ) (name : String) (r : Router) → Still r.task (slow_path t r name).task
unfolding slow_path
slow_path-Still t name r = elim (Option-cases (r.workers name)) [
  | inl x ↦ rw (x, slow_path) (set-Still r.task t (sending name r.next_worker) (λ n w e. cc))
  | inr (v, x) ↦ rw (x, slow_path) (set-Still r.task t (sending name v) (λ n w e. cc))
]

begin-Still : (t : ℕ) (s : Start) (r : Router) → Still r.task (begin t r s).task
unfolding begin
begin-Still t (respond response) r j name w e = e
begin-Still t (forward n) r j name w e = set-Still r.task t (looking n) (λ n w e. cc) j name w e

module _ (P : Platform) (path : String → String) where
  open P use {json}

  -- Every task that waits is served after the commands that are in the queue, at the latest.
  abbrev pub AllWait : Service P → Type 0
  AllWait s =
      (t : ℕ) (name : String) (w : ℕ)
      → s.router.task t ≡ awaiting name w
      → Awaits P path s (s.channel t) w (length (s.queue w))

  one-AllWait :
      (s v : Service P) (st : Step P path s v) (j : ℕ) (name : String) (w : ℕ)
      → v.channel j ≡ s.channel j
      → AllWait s
      → s.router.task j ≡ awaiting name w
      → Awaits P path v (v.channel j) w (length (v.queue w))
  one-AllWait s v st j name w same h e =
      let n = length (s.queue w) in
      Awaits-length P path v (v.channel j) w n (
        subst (λ k. Awaits P path v k w n) (sym same)
          (Step-Awaits P path st (s.channel j) w n n (ground arith) (h j name w e)))

  -- A task that waits has waited before the step, on the same channel, or has sent its command in it.
  abbrev pub Since : Service P → Service P → ℕ → String → ℕ → Type 0
  Since s v j name w =
      ((s.router.task j ≡ awaiting name w) × (v.channel j ≡ s.channel j))
      ⊎ ((v.channel j ≡ s.next_channel) × Awaits P path v (v.channel j) w (length (v.queue w)))

  same_channel-Since :
      (s v : Service P)
      → v.channel ≡ s.channel
      → Still s.router.task v.router.task
      → (j : ℕ) (name : String) (w : ℕ) → v.router.task j ≡ awaiting name w
      → Since s v j name w
  same_channel-Since s v same still j name w e = inl (still j name w e, ap (λ f. f j) same)

  after_action-Still :
      (state : Option (WorkerState P)) (w : ℕ) (r : Router)
      → Still r.task (after_action P state w r).task
  unfolding terminate
  after_action-Still (some state) w r j name v e = e
  after_action-Still none w r j name v e = e

  sent-Awaits :
      (s : Service P) (t : ℕ) (n : String) (v : ℕ)
      → is_running (s.router.life v) ≡ true
      → let s' = send P t s n v in Awaits P path s' s.next_channel v (length (s'.queue v))
  unfolding send
  sent-Awaits s t n v x =
      let k = s.next_channel in
      let e : (send P t s n v).queue v ≡ s.queue v ++ (k, s.request t) ∷ [] =
        rw (x, (==_iff v v).1 refl) refl in
      Awaits-length P path (send P t s n v) k v (suc (length (s.queue v))) (
        inr (
          inr (
            length (s.queue v),
            ground arith,
            subst (λ cs. AtPlace P path k cs (length (s.queue v))) (sym e)
                (AtPlace-last P path k (s.request t) (s.queue v)),
          )))

  -- The worker that a task waits for.
  abbrev receiver : Task → ℕ
  receiver (awaiting name w) = w
  receiver _ = 0

  sends-Since :
      (s : Service P) (t : ℕ) (n : String) (v j : ℕ) (name : String) (w : ℕ)
      → (send P t s n v).router.task j ≡ awaiting name w
      → Since s (send P t s n v) j name w
  unfolding send Router.send
  sends-Since s t n v j name w e = elim (Bool-cases (j == t)) [
    | inl y ↦ elim (Bool-cases (is_running (s.router.life v))) [
      | inl x ↦
          let same : v ≡ w = ap receiver (rw (x, y) at e) in
          inr (
            rw y refl,
            subst
                (λ i.
                  Awaits P path (send P t s n v) (set s.channel t s.next_channel j) i
                    (length ((send P t s n v).queue i)))
                same (rw y (sent-Awaits s t n v x)),
          )
      | inr x ↦ absurd (let z : removing n ≡ awaiting name w = rw (x, y) at e in cc)
    ]
    | inr y ↦ inl (
      elim (Bool-cases (is_running (s.router.life v))) [
        | inl x ↦ rw (x, y) at e
        | inr x ↦ rw (x, y) at e
      ],
      rw y refl,
    )
  ]

  pub Step-Since :
      {s u : Service P}
      → Step P path s u
      → (j : ℕ) (name : String) (w : ℕ) → u.router.task j ≡ awaiting name w
      → Since s u j name w
  unfolding ask look create end_wait remove leave act serve receive remove_worker clean_up
  Step-Since {s} {u} (asks t req e) =
      same_channel-Since s u refl (begin-Still t (route_start req) s.router)
  Step-Since {s} {u} (looks t name e) =
      same_channel-Since s u refl (fast_path-Still t name s.router)
  Step-Since {s} {u} (creates t name e) =
      same_channel-Since s u refl (slow_path-Still t name s.router)
  Step-Since {s} {u} (sends t name v e room) = sends-Since s t name v
  Step-Since {s} {u} (receives t name v response e got) =
      same_channel-Since s u refl (set-Still s.router.task t idle (λ n w e. cc))
  Step-Since {s} {u} (loses t name v e nothing dead) =
      same_channel-Since s u refl (set-Still s.router.task t (removing name) (λ n w e. cc))
  Step-Since {s} {u} (removes t name e) =
      same_channel-Since s u refl (set-Still s.router.task t idle (λ n w e. cc))
  Step-Since {s} {u} (starts v now alive e) =
      same_channel-Since s u refl (after_action-Still _ v s.router)
  Step-Since {s} {u} (serves v now j req rest state alive e q) =
      same_channel-Since s u refl (after_action-Still _ v s.router)
  Step-Since {s} {u} (wakes v now was state alive e seen) =
      same_channel-Since s u refl (after_action-Still _ v s.router)
  Step-Since {s} {u} (closes v state alive e q unmapped unused) =
      same_channel-Since s u refl (after_action-Still _ v s.router)
  Step-Since {s} {u} (cleans v e) = same_channel-Since s u refl (λ j name w x. x)

  Step-AllWait : {s v : Service P} → Step P path s v → AllWait s → AllWait v
  Step-AllWait {s} {v} st h j name w e = elim (Step-Since st j name w e) [
    | inl (x, same) ↦ one-AllWait s v st j name w same h x
    | inr (x, new) ↦ new
  ]

  pub Reach-AllWait :
      (first : String → P.sqlx.World) {s : Service P} → Reach P path (initial P first) s → AllWait s
  Reach-AllWait first here t name w e = absurd (cc)
  Reach-AllWait first (next run st) t name w e =
      Step-AllWait st (Reach-AllWait first run) t name w e
