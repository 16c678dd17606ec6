-- ===== src/Service.antt =====
-- The router with its workers: daemon/src/router.rs and `worker_loop` of daemon/src/worker.rs, joined
-- by their channels. The steps are those of the router, and one for each delivery to a worker; the
-- outside world of a database is its own.
pub mod History
pub mod Routes
pub mod Serial
pub mod Lives
pub mod Replies
pub mod Holders
pub mod Waits
pub mod Calm
pub mod Order
pub mod Once
mod Examples
use sqlite_daemon.Prelude.{
  ℕ, suc, ◌<◌, ◌≡◌, ◌≢◌, String, Bool, true, false, List, [], ◌∷◌, ◌++◌, Option, none, some,
  if◌then◌else◌, length,
}
use sqlite_daemon.Platform.{Platform}
use sqlite_daemon.Protocol.{Request, Response}
use sqlite_daemon.Worker.State.{WorkerState}
use sqlite_daemon.Worker.Loop.{Event, command, channel_closed, sleep, turn}
use sqlite_daemon.Router
use sqlite_daemon.Router.{
  Router, Life, running, terminated, Task, idle, looking, missed, sending, awaiting, removing,
  route_start, begin, fast_path, slow_path, is_running, remove_worker, receive, terminate, clean_up,
  set, set_name,
}
use History.{Action, start, event, Current, perform}

-- `mpsc::channel(1000)`
abbrev pub channel_capacity : ℕ
channel_capacity = 1000

module _ (P : Platform) where
  open P.sqlx use {World}
  open P use {json}

  pub record Service : Type 0 where
    pub router : Router
    -- what a task is to get answered
    pub request : ℕ → Request json
    -- the reply channel of a task's command, and the first number that no channel has
    pub channel : ℕ → ℕ
    pub next_channel : ℕ
    -- what a worker has sent into a reply channel
    pub replies : ℕ → Option Response
    -- the database and the request that a reply channel is for
    pub asked : ℕ → String × Request json
    -- the commands that wait for a worker, each with its reply channel
    pub queue : ℕ → List (ℕ × Request json)
    -- the state of a worker that has opened its database
    pub stage : ℕ → Option (WorkerState P)
    -- the outside world of a database, and what its workers have done
    pub world : String → World
    pub history : String → List (Action P)

  -- The daemon before its first request.
  abbrev pub initial : (String → World) → Service
  initial world = record {
    router = Router.new;
    request = λ t. Request.shutdown;
    channel = λ t. 0;
    next_channel = 0;
    replies = λ k. none;
    asked = λ k. ("", Request.shutdown);
    queue = λ w. [];
    stage = λ w. none;
    world = world;
    history = λ name. [];
  }

  -- The state of the running worker that the map has for a database.
  abbrev pub state_of_worker : Service → Option ℕ → Option (WorkerState P)
  state_of_worker s none = none
  state_of_worker s (some w) = if is_running (s.router.life w) then s.stage w else none

  abbrev pub state_of : Service → String → Option (WorkerState P)
  state_of s name = state_of_worker s (s.router.workers name)

  module _ (t : ℕ) (s : Service) where
    -- A request comes in.
    unfoldable pub ask : Request json → Service
    ask req = record s {
      router = begin t s.router (route_start req);
      request = set s.request t req;
    }

    unfoldable pub look : String → Service
    look name = record s { router = fast_path t s.router name }

    unfoldable pub create : String → Service
    create name = record s { router = slow_path t s.router name }

    -- `oneshot::channel()` and `worker.send(cmd)`
    unfoldable pub send : String → ℕ → Service
    send name w = record s {
      router = Router.send t s.router name w;
      channel = set s.channel t s.next_channel;
      next_channel = suc s.next_channel;
      asked = set s.asked s.next_channel (name, s.request t);
      queue =
          if is_running (s.router.life w)
          then set s.queue w (s.queue w ++ (s.next_channel, s.request t) ∷ [])
          else s.queue;
    }

    -- `reply_rx.await`
    unfoldable pub end_wait : String → ℕ → Bool → Service
    end_wait name w replied = record s { router = receive t s.router name w replied }

    unfoldable pub remove : String → Service
    remove name = record s { router = remove_worker t s.router name }

  -- A worker that has no state after an action has returned from `worker_loop`.
  abbrev pub after_action : Option (WorkerState P) → ℕ → Router → Router
  after_action (some state) w r = r
  after_action none w r = terminate w r

  module _ (path : String → String) (w : ℕ) (s : Service) where
    abbrev pub name_of : String
    name_of = s.router.db_name w

    abbrev pub acted : Action P → Current P
    acted a = perform P (path name_of) name_of a (s.stage w, s.world name_of)

    -- The worker starts, or gets an event.
    unfoldable pub act : Action P → Service
    act a = record s {
      router = after_action (acted a).0 w s.router;
      stage = set s.stage w (acted a).0;
      world = set_name s.world name_of (acted a).1;
      history = set_name s.history name_of (s.history name_of ++ a ∷ []);
    }

    -- It takes a command from its queue, and sends the reply.
    unfoldable pub serve : ℕ → ℕ → Request json → List (ℕ × Request json) → WorkerState P → Service
    unfolding act
    serve now k req rest state = record (act (event (command now req))) {
      queue = set s.queue w rest;
      replies = set s.replies k (turn P (command now req) state (s.world name_of)).0.reply;
    }

  abbrev pub is_empty {ℓ} : {A : Type ℓ} → List A → Bool
  is_empty [] = true
  is_empty (x ∷ xs) = false

  unfoldable pub leave : ℕ → Service → Service
  leave w s = record s { router = clean_up w s.router }

  -- A task that holds a sender of the worker: `route_request` keeps its own until it returns. A task that
  -- removes a worker is not counted, so that a channel can close a moment earlier than it does.
  abbrev pub HasSender : Task → ℕ → Type 0
  HasSender (sending name v) w = v ≡ w
  HasSender (awaiting name v) w = v ≡ w
  HasSender _ w = ⊥

  -- `worker.send(cmd).await` goes on as the channel has room, or the worker has dropped its receiver.
  abbrev pub HasRoom : Service → ℕ → Type 0
  HasRoom s w = s.router.life w ≡ running → length (s.queue w) < channel_capacity

  module _ (path : String → String) where
    pub data Step (s : Service) : Service → Type 0 where
      asks : (t : ℕ) (req : Request json) → s.router.task t ≡ idle → Step s (ask t s req)
      looks : (t : ℕ) (name : String) → s.router.task t ≡ looking name → Step s (look t s name)
      creates : (t : ℕ) (name : String) → s.router.task t ≡ missed name → Step s (create t s name)
      sends :
          (t : ℕ) (name : String) (w : ℕ)
          → s.router.task t ≡ sending name w
          → HasRoom s w
          → Step s (send t s name w)
      -- the reply is there
      receives :
          (t : ℕ) (name : String) (w : ℕ) (response : Response)
          → s.router.task t ≡ awaiting name w
          → s.replies (s.channel t) ≡ some response
          → Step s (end_wait t s name w true)
      -- the worker is gone, and the reply channel's sender with it
      loses :
          (t : ℕ) (name : String) (w : ℕ)
          → s.router.task t ≡ awaiting name w
          → s.replies (s.channel t) ≡ none
          → s.router.life w ≢ running
          → Step s (end_wait t s name w false)
      removes : (t : ℕ) (name : String) → s.router.task t ≡ removing name → Step s (remove t s name)
      starts :
          (w now : ℕ)
          → s.router.life w ≡ running
          → s.stage w ≡ none
          → Step s (act path w s (start now))
      serves :
          (w now k : ℕ) (req : Request json) (rest : List (ℕ × Request json))
          (state : WorkerState P)
          → s.router.life w ≡ running
          → s.stage w ≡ some state
          → s.queue w ≡ (k, req) ∷ rest
          → Step s (serve path w s now k req rest state)
      -- The idle timer of `select!` fires. `rx.is_empty()` was true if the queue is empty now; else it may
      -- have been so, and a command was sent between that look and the end of the worker.
      wakes :
          (w now : ℕ) (was_empty : Bool) (state : WorkerState P)
          → s.router.life w ≡ running
          → s.stage w ≡ some state
          → (is_empty (s.queue w) ≡ true → was_empty ≡ true)
          → Step s (act path w s (event (sleep now was_empty)))
      -- the map has no sender for the worker any more, nor has a task
      closes :
          (w : ℕ) (state : WorkerState P)
          → s.router.life w ≡ running
          → s.stage w ≡ some state
          → s.queue w ≡ []
          → ((name : String) → s.router.workers name ≢ some w)
          → ((t : ℕ) → HasSender (s.router.task t) w → ⊥)
          → Step s (act path w s (event channel_closed))
      cleans : (w : ℕ) → s.router.life w ≡ terminated → Step s (leave w s)

    pub data Reach (s : Service) : Service → Type 0 where
      here : Reach s s
      next : {u v : Service} → Reach s u → Step u v → Reach s v
