-- ===== src/Sqlx.antt =====
-- What the daemon calls of sqlx, of SQLite behind it, and of the clock: a record of operations.
use sqlite_daemon.Prelude.{ℕ, String, Option, List, [], ◌∷◌, ◌++◌, Bool, ℤ, Result, Io}

-- A bound parameter. `None::<String>` and `None::<i64>` are both SQL's NULL.
pub data Arg (F : Type 0) : Type 0 where
  null : Arg F
  integer : ℤ → Arg F
  real : F → Arg F
  text : String → Arg F

-- `sqlx::query(sql)` with what `bind` has added, in order.
pub record Query (F : Type 0) : Type 0 where
  pub sql : String
  pub args : List (Arg F)

pub data JournalMode : Type 0 where
  wal : JournalMode

pub data Synchronous : Type 0 where
  normal : Synchronous

pub record ConnectOptions : Type 0 where
  pub url : String
  pub create_if_missing : Bool
  pub journal_mode : JournalMode
  pub synchronous : Synchronous
  pub busy_timeout_secs : ℕ

-- The operations, each on the world that the outside code keeps: files, connections, the clock.
pub record Sqlx (F : Type 0) : Type 1 where
  pub World : Type 0
  pub Error : Type 0
  pub Pool : Type 0
  pub Transaction : Type 0
  -- `Display` of an error
  pub to_string : Error → String
  -- `SqliteConnectOptions::from_str`: the error of a URL that it does not accept
  pub from_str : String → Option Error
  pub connect_with : ConnectOptions → Io World (Result Error Pool)
  -- `query(…).execute(pool)` answers with `rows_affected`
  pub execute : Pool → Query F → Io World (Result Error ℕ)
  -- `query_scalar(…).fetch_one(pool)` at type `i64`
  pub fetch_one : Pool → Query F → Io World (Result Error ℤ)
  pub close : Pool → Io World (Unit {0})
  -- a pool that goes out of scope
  pub drop_pool : Pool → Io World (Unit {0})
  pub begin : Pool → Io World (Result Error Transaction)
  pub execute_tx : Transaction → Query F → Io World (Result Error ℕ)
  pub fetch_one_tx : Transaction → Query F → Io World (Result Error ℤ)
  pub commit : Transaction → Io World (Result Error (Unit {0}))
  -- a transaction that goes out of scope uncommitted
  pub drop_tx : Transaction → Io World (Unit {0})
  -- `OffsetDateTime::now_utc().unix_timestamp()`
  pub unix_timestamp : Io World ℤ

module _ {F : Type 0} where
  abbrev pub query : String → Query F
  query sql = record { sql = sql; args = [] }

  abbrev pub bind : Query F → Arg F → Query F
  bind q a = record q { args = q.args ++ a ∷ [] }
