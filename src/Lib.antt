-- ===== src/Lib.antt =====
-- A model of the SQLite daemon (daemon/src) and its client (cli/src), and what they keep.
--
-- The program. One daemon runs on a machine. It accepts connections on a socket or a pipe
-- (daemon/src/server.rs). A connection carries messages behind a length of four bytes; each is
-- a request in JSON (daemon/src/protocol.rs). The router (daemon/src/router.rs) has a worker for
-- each database that is in use, and forwards a request to it over a channel. The worker
-- (daemon/src/worker.rs) has the only pool of connections to the database's file, serves its
-- requests one at a time, counts the writes as a revision, and ends after five idle minutes. For
-- maintenance a database can be prepared, closed and reopened. A lock file
-- (daemon/src/single_instance.rs) keeps a second daemon from starting. A command line program
-- (cli/src/main.rs) sends one request over a connection and prints the response.
--
-- The files.
--   Prelude          numbers, lists, results and state passing (`Io`, with `do`); Prelude/Words and
--                    Prelude/Show have the wrap-around of u64 and the printing of numbers
--   Protocol         daemon/src/protocol.rs: `Request`, `Response` and the constructors of responses
--   Sqlx             what the worker calls of sqlx and of the clock, a record that is a parameter
--   Platform         what the daemon is linked against: sqlx, JSON values and Unicode's case table
--   Text             `to_uppercase`, `trim` and `contains` of Rust's `str`; the case table of
--                    characters beyond ASCII is a parameter
--   Worker           daemon/src/worker.rs. State, Database (opening, migrations, revision,
--                    checkpoints), Validate, Batch (both kinds of batches), Handlers (one function
--                    for each request), Loop (`worker_loop`). The children are named for what they
--                    prove. Worker/Sqlite states what the proofs use of SQLite: content that is
--                    committed, that an open transaction sees, and that a rollback drops, and
--                    which pools hold the files; Worker/Database/Migrations what it does with the
--                    queries of the migrations; Worker/Sqlite/Log is a concrete database that has
--                    these laws.
--   Server           daemon/src/server.rs: the handler of a connection. The JSON encoding, the
--                    stream's write half and the router are its parameter `Peer`.
--   SingleInstance   daemon/src/single_instance.rs on Unix, as steps of any number of processes;
--                    SingleInstance/Mutex is the same file on Windows
--   Pipes            `run_server` of daemon/src/server.rs on Windows: an instance of the pipe for each
--                    client, as steps; and the Windows functions of the handler and the client
--   Startup          daemon/src/main.rs with `run_server` of daemon/src/server.rs on Unix: who listens
--                    at the socket's path. The guard enters by its contract. Startup/Run is
--                    `main` as one process runs it.
--   Router           daemon/src/router.rs, as steps of any number of tasks and workers
--   Service          the router joined with its workers by their channels: each step of the router, and
--                    one step for each event that a worker gets; a task waits while the channel of a
--                    running worker is full. Service/History is what becomes of one
--                    database, as a sequence of actions that are run one after the other.
--   Daemon           the connections of daemon/src/server.rs over Service: each takes its requests one
--                    after the other, and writes a response for each, until a write fails. Daemon/Finish builds the steps to
--                    the end of a client's requests from those of Service/Waits;
--                    Daemon/Whole is about a connection at rest.
--   Cli              cli/src/main.rs: the client, with its encoding and stream as a parameter
--   Wire             the derives of `Serialize` and `Deserialize` in daemon/src/protocol.rs and
--                    cli/src/main.rs, by their attributes: messages as JSON trees, written by one side
--                    and read by the other. Wire/Whole puts them between Cli and Server.
--   Actor            daemon/src/actor.rs and daemon/src/db.rs, which no `mod` line names: the daemon for
--                    one database that Router and Worker have replaced, and what they have kept of it
--
-- The state. A handler is a function from its arguments and the outside world to its result and
-- the world after (`Io`); the world is the one of sqlx, or of the connection, and stays abstract.
-- Errors are values, `ok` and `err`, as `Result` has them. The worker serves one request at a
-- time, so that its awaits need no interleaving. The router and the lock file are shared, and are
-- step relations: a step is what happens between two awaits, or one system call. In Service each
-- database has an outside world of its own, by its name: names that denote one file (`a.db` and `./a.db`),
-- and statements that attach another database, are outside the model. A worker's turn is one step; the fields `asked` and
-- `history` only record what was done.
--
-- Numbers. Instants and lengths are natural numbers; sums of rows wrap at 2 ^ 64, parameters are
-- bound as i64 and a length is written as u32, as in the source. `handle_connection` has one unit of
-- fuel for each message. A message takes four bytes at least, so the fuel is one more than the stream
-- has bytes.
--
-- The two late removals of Router/Twice are why theorems on Service and Daemon ask that no running worker
-- is taken out of the map; Service/Calm says when this is so.
--
-- Not modelled. JSON as text (Wire takes a printer and a parser as parameters); that serde reads a
-- struct from an array and a mode from an object; the accept loop of a socket; logging; the order in which
-- tokio lets the senders of a full channel go on; panics; the parsing of the client's arguments.
-- examples/read_example.rs reads a database by itself and has no part in the daemon.
pub mod Prelude
pub mod Protocol
pub mod Sqlx
pub mod Text
pub mod Platform
pub mod Worker
pub mod Server
pub mod SingleInstance
pub mod Startup
pub mod Pipes
pub mod Router
pub mod Service
pub mod Daemon
pub mod Actor
pub mod Cli
pub mod Wire
