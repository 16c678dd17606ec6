-- ===== src/Protocol.antt =====
-- daemon/src/protocol.rs: the messages between a client and the daemon.
pub mod Responses
use sqlite_daemon.Prelude.{ℕ, String, List, Bool, ℤ}
use mathlib.Core.Option.{Option}

-- What the daemon uses of `serde_json` values: the contents of a number, an array and an object
-- stay abstract, with the accessors that `bind_param` calls.
pub record Json : Type 1 where
  pub Number : Type 0
  pub Float : Type 0
  pub Array : Type 0
  pub Map : Type 0
  pub as_i64 : Number → Option ℤ
  pub as_u64 : Number → Option ℕ
  pub as_f64 : Number → Option Float
  pub array_to_string : Array → String
  pub object_to_string : Map → String

pub data Value (J : Json) : Type 0 where
  null : Value J
  bool : Bool → Value J
  number : J.Number → Value J
  string : String → Value J
  array : J.Array → Value J
  object : J.Map → Value J

pub record Statement (J : Json) : Type 0 where
  pub sql : String
  pub params : List (Value J)

pub data TransactionMode : Type 0 where
  atomic : TransactionMode
  none : TransactionMode

unfoldable pub default_tx_mode : TransactionMode
default_tx_mode = TransactionMode.atomic

pub data Request (J : Json) : Type 0 where
  ping : String → Request J
  exec_batch : String → List (Statement J) → TransactionMode → Request J
  prepare_for_maintenance : String → Request J
  close_database : String → Request J
  reopen_database : String → Request J
  shutdown : Request J

-- `rev` is an `i64` and `rows_affected` a `u64`.
pub data ResponseData : Type 0 where
  ping : (version db_path : String) (rev : ℤ) → ResponseData
  exec_batch : (rev : ℤ) (rows_affected : ℕ) → ResponseData
  prepare_for_maintenance : (checkpointed : Bool) → ResponseData
  close_database : (closed : Bool) → ResponseData
  reopen_database : (reopened : Bool) (rev : ℤ) → ResponseData
  shutdown : ResponseData

pub data Response : Type 0 where
  ok : ResponseData → Response
  error : (message : String) (code : Option String) → Response
