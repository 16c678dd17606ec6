-- ===== src/Service/Waits/Room.antt =====
-- daemon/src/router.rs, the channels of the workers: `mpsc::channel(1000)` and `worker.send(cmd).await`.
use sqlite_daemon.Prelude.{
  ℕ, ◌≤◌, String, ◌≡◌, refl, ap, List, [], ◌∷◌, length, length-append, arith, Bool-cases, inl, inr,
  true, ◌==◌,
}
use sqlite_daemon.Platform.{Platform}
use sqlite_daemon.Protocol.{Request}
use sqlite_daemon.Router.{running, is_running, awaiting, Life, set}
use sqlite_daemon.Service.{
  Service, initial, ask, look, create, send, end_wait, remove, act, serve, leave, channel_capacity,
  HasRoom, Step, asks, looks, creates, sends, receives, loses, removes, starts, serves, wakes,
  closes, cleans, Reach, here, next,
}
use sqlite_daemon.Service.Waits.{all_served}
use sqlite_daemon.Service.Waits.Answers.{Settled, waiting_ends}

module _ (P : Platform) (path : String → String) (first : String → P.sqlx.World) where
  open P use {json}

  abbrev IsBounded : Service P → Type 0
  IsBounded s = (w : ℕ) → length (s.queue w) ≤ channel_capacity

  is_running-running : (l : Life) → is_running l ≡ true → l ≡ running
  is_running-running Life.running e = refl
  is_running-running Life.absent e = absurd (cc)
  is_running-running Life.terminated e = absurd (cc)
  is_running-running Life.gone e = absurd (cc)

  send-IsBounded :
      (s : Service P) (t : ℕ) (name : String) (v : ℕ)
      → HasRoom P s v
      → IsBounded s
      → IsBounded (send P t s name v)
  unfolding send
  send-IsBounded s t name v room h w = elim (Bool-cases (is_running (s.router.life v))) [
    | inl x ↦ elim (Bool-cases (w == v)) [
      | inl y ↦
          let free = room (is_running-running (s.router.life v) x) in
          let sum = length-append (s.queue v) ((s.next_channel, s.request t) ∷ []) in
          rw (x, y) (ground arith)
      | inr y ↦ rw (x, y) (h w)
    ]
    | inr x ↦ rw x (h w)
  ]

  serve-IsBounded :
      (s : Service P) (v k : ℕ) (req : Request json) (rest : List (ℕ × Request json))
      → s.queue v ≡ (k, req) ∷ rest
      → IsBounded s
      → (w : ℕ) → length (set s.queue v rest w) ≤ channel_capacity
  serve-IsBounded s v k req rest q h w = elim (Bool-cases (w == v)) [
    | inl y ↦ let all = h v in let same = ap length q in rw y (ground arith)
    | inr y ↦ rw y (h w)
  ]

  Step-IsBounded : {s u : Service P} → Step P path s u → IsBounded s → IsBounded u
  unfolding ask look create end_wait remove leave act serve
  Step-IsBounded (asks t req e) h = h
  Step-IsBounded (looks t name e) h = h
  Step-IsBounded (creates t name e) h = h
  Step-IsBounded {s} (sends t name v e room) h = send-IsBounded s t name v room h
  Step-IsBounded (receives t name v response e got) h = h
  Step-IsBounded (loses t name v e nothing dead) h = h
  Step-IsBounded (removes t name e) h = h
  Step-IsBounded (starts v now alive e) h = h
  Step-IsBounded {s} (serves v now k req rest state alive e q) h =
      serve-IsBounded s v k req rest q h
  Step-IsBounded (wakes v now was state alive e seen) h = h
  Step-IsBounded (closes v state alive e q unmapped unused) h = h
  Step-IsBounded (cleans v e) h = h

  -- No more commands wait for a worker than its channel takes.
  pub queue_bounded :
      {s : Service P}
      → Reach P path (initial P first) s
      → (w : ℕ) → length (s.queue w) ≤ channel_capacity
  queue_bounded here w = ground arith
  queue_bounded (next run st) w = Step-IsBounded st (queue_bounded run) w

  -- However the tasks and the workers interleave: in a state that the daemon reaches, at most a thousand
  -- commands are in a worker's queue, and once the worker has served as many commands as are in it now, a
  -- task that waits for it now has its reply, or the worker has ended.
  pub waiting_is_bounded :
      (s v : Service P) (t : ℕ) (name : String) (w : ℕ) (before : Reach P path (initial P first) s)
      (later : Reach P path s v)
      → s.router.task t ≡ awaiting name w
      → length (s.queue w) ≤ all_served P path w later
      → (length (s.queue w) ≤ channel_capacity) × Settled P path first v (s.channel t) w
  waiting_is_bounded s v t name w before later at enough =
      (queue_bounded before w, waiting_ends P path first s v t name w before later at enough)
