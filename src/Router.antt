-- ===== src/Router.antt =====
-- daemon/src/router.rs: the map of workers, and the tasks that use it, interleaved at their awaits.
-- Tasks and workers are numbers; a worker's number stands for its channel.
pub mod Routing
pub mod Single
pub mod Spawns
pub mod Twice
pub mod Ends
pub mod Calm
mod Examples
use Prim.Native.String.{◌++◌}
use text.Mathlib.Text.{◌==◌ as str_eq}
use sqlite_daemon.Prelude.{
  ℕ, suc, ◌≡◌, ◌≢◌, String, Bool, true, false, Option, none, some, ◌==◌, if◌then◌else◌,
}
use sqlite_daemon.Protocol.{
  Json, Request, ping, exec_batch, prepare_for_maintenance, close_database, reopen_database,
  shutdown, Response,
}
use sqlite_daemon.Protocol.Responses.{ok_shutdown, error}

module _ {J : Json} where
  unfoldable pub extract_db_name : Request J → Option String
  extract_db_name (ping db) = some db
  extract_db_name (exec_batch db stmts tx) = some db
  extract_db_name (prepare_for_maintenance db) = some db
  extract_db_name (close_database db) = some db
  extract_db_name (reopen_database db) = some db
  extract_db_name shutdown = none

  abbrev pub is_shutdown : Request J → Bool
  is_shutdown shutdown = true
  is_shutdown _ = false

-- How `route_request` begins: with a response, or with the name of a database to find a worker for.
pub data Start : Type 0 where
  respond : Response → Start
  forward : String → Start

unfoldable pub route_start : {J : Json} → Request J → Start
unfolding extract_db_name
route_start req = elim (extract_db_name req) [
  | some name ↦ forward name
  | none ↦
      if is_shutdown req
      then respond ok_shutdown
      else respond (error "Missing database name in request")
]

-- A worker's task: `worker_loop` runs, or has returned and the removal from the map is to come.
pub data Life : Type 0 where
  absent : Life
  running : Life
  terminated : Life
  gone : Life

-- Where a task stands in `route_request`.
pub data Task : Type 0 where
  idle : Task
  looking : String → Task
  missed : String → Task
  sending : String → ℕ → Task
  awaiting : String → ℕ → Task
  removing : String → Task

pub record Router : Type 0 where
  -- the map; the lock is free between the steps
  pub workers : String → Option ℕ
  pub next_worker : ℕ
  pub db_name : ℕ → String
  pub life : ℕ → Life
  pub task : ℕ → Task

abbrev pub set {ℓ} : {A : Type ℓ} → (ℕ → A) → ℕ → A → ℕ → A
set f k a j = if j == k then a else f j

abbrev pub set_name {ℓ} : {A : Type ℓ} → (String → A) → String → A → String → A
set_name f k a j = if str_eq j k then a else f j

-- `Router::new`
abbrev pub new : Router
new = record {
  workers = λ db. none;
  next_worker = 0;
  db_name = λ w. "";
  life = λ w. absent;
  task = λ t. idle;
}

abbrev pub is_running : Life → Bool
is_running running = true
is_running _ = false

module _ (t : ℕ) (r : Router) where
  abbrev go_to : Task → Router
  go_to at = record r { task = set r.task t at }

  -- `route_request` up to `get_or_create_worker`; a request that needs no worker is answered.
  unfoldable pub begin : Start → Router
  begin (respond response) = r
  begin (forward name) = go_to (looking name)

  -- `get_or_create_worker` under the read lock
  unfoldable pub fast_path : String → Router
  fast_path name = elim (r.workers name) [
    | some w ↦ go_to (sending name w)
    | none ↦ go_to (missed name)
  ]

  -- `get_or_create_worker` under the write lock: check again, then spawn and insert.
  unfoldable pub slow_path : String → Router
  slow_path name = elim (r.workers name) [
    | some w ↦ go_to (sending name w)
    | none ↦ record r {
      workers = set_name r.workers name (some r.next_worker);
      next_worker = suc r.next_worker;
      db_name = set r.db_name r.next_worker name;
      life = set r.life r.next_worker running;
      task = set r.task t (sending name r.next_worker);
    }
  ]

  -- `worker.send(cmd)`: it fails if the worker has dropped its receiver.
  unfoldable pub send : String → ℕ → Router
  send name w = if is_running (r.life w) then go_to (awaiting name w) else go_to (removing name)

  -- `reply_rx.await` ends with a reply, and the request is answered, or as the worker drops the sender.
  unfoldable pub receive : String → ℕ → Bool → Router
  receive name w replied = if replied then go_to idle else go_to (removing name)

  -- `remove_worker`, and the response "Worker communication failed"
  unfoldable pub remove_worker : String → Router
  remove_worker name = record r { workers = set_name r.workers name none; task = set r.task t idle }

module _ (w : ℕ) (r : Router) where
  -- `worker_loop` returns.
  unfoldable pub terminate : Router
  terminate = record r { life = set r.life w terminated }

  -- What the spawned task does next: it removes its database's name from the map.
  unfoldable pub clean_up : Router
  clean_up = record r { workers = set_name r.workers (r.db_name w) none; life = set r.life w gone }

-- One step of one task, or of one worker's task.
pub data Step (r : Router) : Router → Type 0 where
  begins : (t : ℕ) (s : Start) → r.task t ≡ idle → Step r (begin t r s)
  looks : (t : ℕ) (name : String) → r.task t ≡ looking name → Step r (fast_path t r name)
  creates : (t : ℕ) (name : String) → r.task t ≡ missed name → Step r (slow_path t r name)
  sends : (t : ℕ) (name : String) (w : ℕ) → r.task t ≡ sending name w → Step r (send t r name w)
  receives :
      (t : ℕ) (name : String) (w : ℕ) (replied : Bool)
      → r.task t ≡ awaiting name w
      → Step r (receive t r name w replied)
  removes : (t : ℕ) (name : String) → r.task t ≡ removing name → Step r (remove_worker t r name)
  terminates : (w : ℕ) → r.life w ≡ running → Step r (terminate w r)
  cleans : (w : ℕ) → r.life w ≡ terminated → Step r (clean_up w r)

pub data Reach (r : Router) : Router → Type 0 where
  here : Reach r r
  next : {s t : Router} → Reach r s → Step s t → Reach r t

unfoldable pub Reach_trans : {r s t : Router} → Reach r s → Reach s t → Reach r t
Reach_trans run here = run
Reach_trans run (next more st) = next (Reach_trans run more) st
