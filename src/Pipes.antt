-- ===== src/Pipes.antt =====
-- daemon/src/server.rs on Windows: `run_server`, which makes an instance of the pipe for each client, with
-- any number of clients that open the pipe, and what a connection's task runs.
pub mod Clients
pub mod Exchange
mod Examples
use sqlite_daemon.Prelude.{ℕ, suc, ◌≡◌, ◌≢◌, Bool, true, false, List, Option, Result, Io, String}
use sqlite_daemon.SingleInstance.{set}
use sqlite_daemon.Protocol.{Json, Response}
use sqlite_daemon.Cli
use sqlite_daemon.Cli.{Daemon}
use sqlite_daemon.Server.{Peer, Ending, handle_connection, write_response}

-- An instance of the pipe, as the system has it.
pub data Instance : Type 0 where
  absent : Instance
  -- created, and no client has it
  waiting : Instance
  held : (client : ℕ) → Instance
  closed : Instance

-- The loop of `run_server`: before `create`, in `connect().await`, or left by `?`.
pub data Acceptor : Type 0 where
  creating : Acceptor
  connecting : (i : ℕ) → Acceptor
  stopped : Acceptor

pub data Client : Type 0 where
  outside : Client
  attached : (i : ℕ) → Client
  -- `ClientOptions::open` has failed: no instance was waiting
  refused : Client

pub record Pipes : Type 0 where
  pub instance_at : ℕ → Instance
  pub next_instance : ℕ
  pub acceptor : Acceptor
  -- the task that handles the instance's connection was spawned
  pub spawned : ℕ → Bool
  pub client : ℕ → Client

abbrev pub no_instance : Pipes
no_instance = record {
  instance_at = λ i. absent;
  next_instance = 0;
  acceptor = creating;
  spawned = λ i. false;
  client = λ c. outside;
}

module _ (s : Pipes) where
  -- `ServerOptions::new().first_pipe_instance(false).create(pipe_name)`
  unfoldable pub create_instance : Pipes
  create_instance = record s {
    instance_at = set s.instance_at s.next_instance waiting;
    next_instance = suc s.next_instance;
    acceptor = connecting s.next_instance;
  }

  -- `server.connect().await` has a client, and `tokio::spawn` gets the connection.
  unfoldable pub spawn_handler : ℕ → Pipes
  spawn_handler i = record s { acceptor = creating; spawned = set s.spawned i true }

  -- `create` fails.
  unfoldable pub fail_create : Pipes
  fail_create = record s { acceptor = stopped }

  -- `connect` fails, and the instance goes out of scope.
  unfoldable pub fail_connect : ℕ → Pipes
  fail_connect i = record s { acceptor = stopped; instance_at = set s.instance_at i closed }

  -- The task of a connection ends, and its instance goes out of scope.
  unfoldable pub end_handler : ℕ → Pipes
  end_handler i = record s { instance_at = set s.instance_at i closed }

  -- `ClientOptions::new().open(PIPE_NAME)` of cli/src/main.rs
  unfoldable pub open_pipe : ℕ → ℕ → Pipes
  open_pipe c i = record s {
    instance_at = set s.instance_at i (held c);
    client = set s.client c (attached i);
  }

  unfoldable pub refuse : ℕ → Pipes
  refuse c = record s { client = set s.client c refused }

pub data Step (s : Pipes) : Pipes → Type 0 where
  creates : s.acceptor ≡ creating → Step s (create_instance s)
  create_fails : s.acceptor ≡ creating → Step s (fail_create s)
  connects :
      (i c : ℕ) → s.acceptor ≡ connecting i → s.instance_at i ≡ held c → Step s (spawn_handler s i)
  connect_fails : (i : ℕ) → s.acceptor ≡ connecting i → Step s (fail_connect s i)
  ends : (i : ℕ) → s.spawned i ≡ true → Step s (end_handler s i)
  opens : (c i : ℕ) → s.client c ≡ outside → s.instance_at i ≡ waiting → Step s (open_pipe s c i)
  refuses :
      (c : ℕ) → s.client c ≡ outside → ((i : ℕ) → s.instance_at i ≢ waiting) → Step s (refuse s c)

pub data Reach (s : Pipes) : Pipes → Type 0 where
  here : Reach s s
  next : {u v : Pipes} → Reach s u → Step u v → Reach s v

-- What the task of a connection runs: line for line what it runs for a Unix stream.
module _ {J : Json} (S : Peer J) where
  open S use {World, Error}

  unfoldable pub write_response_pipe : Response → Io World (Result Error (Unit {0}))
  write_response_pipe = write_response S

  unfoldable pub handle_connection_pipe :
      List (Result Error (List ℕ)) → Io World (Option (Ending S))
  handle_connection_pipe = handle_connection S

-- The client's exchange over a pipe, in which `open` stands for `connect`.
unfoldable pub send_request_pipe :
    {J : Json} (D : Daemon J) → Cli.Request J → Io D.World (Result String Cli.Response)
send_request_pipe D = Cli.send_request D
