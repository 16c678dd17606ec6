-- ===== src/Daemon.antt =====
-- The daemon as its clients see it: the connections of daemon/src/server.rs over the router and the workers.
-- A connection is the task of its number. It takes its messages one after the other, and reads the next one
-- when the response to the last is written. A response is written, or its stream has failed and the
-- connection is over; this and the return of
-- `route_request` are one step. That a response is too long to be written is Server's.
pub mod Answers
pub mod Lost
pub mod Counts
pub mod Finish
pub mod Whole
mod Examples
use sqlite_daemon.Prelude.{ℕ, ◌≡◌, ◌≢◌, String, true, List, [], ◌∷◌, ◌++◌, none, some, Bool, false}
use sqlite_daemon.Platform.{Platform}
use sqlite_daemon.Protocol.{Request, Response}
use sqlite_daemon.Protocol.Responses.{error}
use sqlite_daemon.Router.{idle, awaiting, removing, respond, forward, route_start, set}
use sqlite_daemon.Service.{
  Service, initial, ask, end_wait, remove, asks, looks, creates, sends, receives, loses, removes,
  starts, serves, wakes, closes, cleans,
}
use sqlite_daemon.Service

-- What the router answers if a worker cannot be reached, or ends without a reply.
abbrev pub communication_failed : Response
communication_failed = error "Worker communication failed"

module _ (P : Platform) where
  open P use {json}
  open P.sqlx use {World}

  pub record Daemon : Type 0 where
    pub service : Service P
    -- the requests that a client has sent, or is yet to send, and that are not read
    pub inbox : ℕ → List (Request json)
    -- the responses of a connection
    pub outbox : ℕ → List Response
    -- whether the write of a response has failed, as it does if the client has gone away
    pub lost : ℕ → Bool

  -- The daemon before its first request, with what each client is going to send.
  abbrev pub fresh_daemon : (String → World) → (ℕ → List (Request json)) → Daemon
  fresh_daemon world sent = record {
    service = initial P world;
    inbox = sent;
    outbox = λ c. [];
    lost = λ c. false;
  }

  module _ (c : ℕ) (d : Daemon) where
    -- `router.route_request(request)` begins.
    unfoldable pub take_request : Request json → List (Request json) → Daemon
    take_request req rest = record d { service = ask P c d.service req; inbox = set d.inbox c rest }

    -- A shutdown is answered at once, and the connection is closed.
    unfoldable pub shut_down : Request json → Response → Daemon
    shut_down req response = record d {
      service = ask P c d.service req;
      inbox = set d.inbox c [];
      outbox = set d.outbox c (d.outbox c ++ response ∷ []);
    }

    -- The worker's reply is written.
    unfoldable pub write_reply : String → ℕ → Response → Daemon
    write_reply name w response = record d {
      service = end_wait P c d.service name w true;
      outbox = set d.outbox c (d.outbox c ++ response ∷ []);
    }

    -- The worker is removed, and an error is written.
    unfoldable pub write_failure : String → Daemon
    write_failure name = record d {
      service = remove P c d.service name;
      outbox = set d.outbox c (d.outbox c ++ communication_failed ∷ []);
    }

    -- `write_response(..).await?` fails: the connection is over, and reads no request any more.
    unfoldable pub hang_up : Service P → Daemon
    hang_up v = record d { service = v; inbox = set d.inbox c []; lost = set d.lost c true }

  module _ (path : String → String) where
    -- The steps in which no connection reads or writes.
    abbrev pub IsInternal : {s v : Service P} → Service.Step P path s v → Type 0
    IsInternal (asks t req e) = ⊥
    IsInternal (receives t name w response e got) = ⊥
    IsInternal (removes t name e) = ⊥
    IsInternal _ = Unit

    pub data Step (d : Daemon) : Daemon → Type 0 where
      takes :
          (c : ℕ) (req : Request json) (rest : List (Request json)) (name : String)
          → d.service.router.task c ≡ idle
          → d.inbox c ≡ req ∷ rest
          → route_start req ≡ forward name
          → Step d (take_request c d req rest)
      shuts :
          (c : ℕ) (req : Request json) (rest : List (Request json)) (response : Response)
          → d.service.router.task c ≡ idle
          → d.inbox c ≡ req ∷ rest
          → route_start req ≡ respond response
          → Step d (shut_down c d req response)
      replies :
          (c : ℕ) (name : String) (w : ℕ) (response : Response)
          → d.service.router.task c ≡ awaiting name w
          → d.service.replies (d.service.channel c) ≡ some response
          → Step d (write_reply c d name w response)
      gives_up :
          (c : ℕ) (name : String)
          → d.service.router.task c ≡ removing name
          → Step d (write_failure c d name)
      -- The same three, where the response cannot be written.
      loses_answer :
          (c : ℕ) (req : Request json) (rest : List (Request json)) (response : Response)
          → d.service.router.task c ≡ idle
          → d.inbox c ≡ req ∷ rest
          → route_start req ≡ respond response
          → Step d (hang_up c d (ask P c d.service req))
      loses_reply :
          (c : ℕ) (name : String) (w : ℕ) (response : Response)
          → d.service.router.task c ≡ awaiting name w
          → d.service.replies (d.service.channel c) ≡ some response
          → Step d (hang_up c d (end_wait P c d.service name w true))
      loses_failure :
          (c : ℕ) (name : String)
          → d.service.router.task c ≡ removing name
          → Step d (hang_up c d (remove P c d.service name))
      works :
          (v : Service P) (st : Service.Step P path d.service v)
          → IsInternal st
          → Step d (record d { service = v })

    pub data Reach (d : Daemon) : Daemon → Type 0 where
      here : Reach d d
      next : {u v : Daemon} → Reach d u → Step u v → Reach d v

    -- The router's and the workers' part of a run.
    unfoldable pub Step-Service :
        {d e : Daemon} → Step d e → Service.Step P path d.service e.service
    unfolding take_request shut_down write_reply write_failure hang_up
    Step-Service (takes c req rest name at got begun) = asks c req at
    Step-Service (shuts c req rest response at got begun) = asks c req at
    Step-Service (replies c name w response at got) = receives c name w response at got
    Step-Service (gives_up c name at) = removes c name at
    Step-Service (loses_answer c req rest response at got begun) = asks c req at
    Step-Service (loses_reply c name w response at got) = receives c name w response at got
    Step-Service (loses_failure c name at) = removes c name at
    Step-Service (works v st internal) = st

    unfoldable pub Reach-Service :
        {d e : Daemon} → Reach d e → Service.Reach P path d.service e.service
    unfolding Step-Service
    Reach-Service here = Service.here
    Reach-Service (next run st) = Service.next (Reach-Service run) (Step-Service st)
