-- ===== src/Wire.antt =====
-- The messages as JSON: what the derives of `Serialize` and `Deserialize` in daemon/src/protocol.rs and
-- cli/src/main.rs make of the types there, by their attributes.
pub mod Requests
pub mod Responses
pub mod Whole
mod Examples
use text.Mathlib.Text.{◌==◌ as str_eq}
use sqlite_daemon.Prelude.{
  ℕ, String, Bool, Option, none, some, ◌≡◌, List, [], ◌∷◌, ◌<◌, ◌^◌, ℤ, pos, negsuc, if◌then◌else◌,
}
use sqlite_daemon.Protocol.{Json, TransactionMode, Statement}

-- A JSON text that is read, over the numbers `N`.
module _ (N : Type 0) where
  mutual
    pub data Tree : Type 0 where
      null : Tree
      bool : Bool → Tree
      number : N → Tree
      string : String → Tree
      list : Trees → Tree
      object : Members → Tree

    pub data Trees : Type 0 where
      nil : Trees
      cons : Tree → Trees → Trees

    pub data Members : Type 0 where
      end : Members
      member : String → Tree → Members → Members

-- The integers that are an `i64`.
abbrev pub IsI64 : ℤ → Type 0
IsI64 (pos n) = n < 2 ^ 63
IsI64 (negsuc n) = n < 2 ^ 63

-- What of `serde_json` and of `serde`'s derives is not in the source: how a value's contents and the
-- machine integers are numbers, arrays and objects, and what the derived readers make of a mode or a
-- statement that is not in the form that the derived writers give it.
pub record Format (J : Json) : Type 0 where
  pub array_items : J.Array → Trees J.Number
  pub array_of : Trees J.Number → J.Array
  pub object_members : J.Map → Members J.Number
  pub object_of : Members J.Number → J.Map
  pub from_i64 : ℤ → J.Number
  pub from_u64 : ℕ → J.Number
  pub other_mode : Tree J.Number → Option TransactionMode
  pub other_statement : Tree J.Number → Option (Statement J)

-- Values and machine integers are read back.
pub record FormatLaws {J : Json} (F : Format J) : Type 0 where
  pub array_of-array_items : (a : J.Array) → F.array_of (F.array_items a) ≡ a
  pub object_of-object_members : (m : J.Map) → F.object_of (F.object_members m) ≡ m
  pub as_i64-from_i64 : (z : ℤ) → IsI64 z → J.as_i64 (F.from_i64 z) ≡ some z
  pub as_u64-from_u64 : (n : ℕ) → n < 2 ^ 64 → J.as_u64 (F.from_u64 n) ≡ some n

-- The value of a field of a struct: a derived reader refuses a field that comes twice.
pub data Field (N : Type 0) : Type 0 where
  missing : Field N
  found : Tree N → Field N
  duplicate : Field N

module _ {N : Type 0} where
  abbrev pub with_one_more : Tree N → Field N → Field N
  with_one_more t missing = found t
  with_one_more t (found u) = duplicate
  with_one_more t duplicate = duplicate

  abbrev pub field : String → Members N → Field N
  field name end = missing
  field name (member key t members) =
      let rest = field name members in if str_eq key name then with_one_more t rest else rest

  -- A field without a default, and one with `#[serde(default)]`.
  module _ {A : Type 0} where
    abbrev pub required : Field N → (Tree N → Option A) → Option A
    required missing read = none
    required (found t) read = read t
    required duplicate read = none

    abbrev pub defaulted : A → Field N → (Tree N → Option A) → Option A
    defaulted default missing read = some default
    defaulted default (found t) read = read t
    defaulted default duplicate read = none

  abbrev pub read_text : Tree N → Option String
  read_text (string s) = some s
  read_text t = none

  abbrev pub read_bool : Tree N → Option Bool
  read_bool (bool b) = some b
  read_bool t = none

infixl 10 ◌>>=◌
abbrev pub ◌>>=◌ : {A B : Type 0} → Option A → (A → Option B) → Option B
o >>= f = elim o [ some a ↦ f a | none ↦ none ]
