-- ===== src/Wire/Requests.antt =====
-- Requests: what the client writes, and what the daemon reads.
use text.Mathlib.TextEquality.{eq_iff}
use text.Mathlib.Text.{◌==◌ as str_eq}
use sqlite_daemon.Prelude.{
  String, Option, none, some, ◌≡◌, ◌≢◌, ◌⊎◌, inl, inr, sym, subst, Bool-cases, false, refl, ap,
  List, [], ◌∷◌, if◌then◌else◌, arith,
}
use sqlite_daemon.Protocol
use sqlite_daemon.Protocol.{Json, Value, TransactionMode, Statement, default_tx_mode}
use sqlite_daemon.Cli
use sqlite_daemon.Wire.{
  Tree, null, bool, number, string, list, object, Trees, nil, cons, Members, end, member, Format,
  FormatLaws, field, missing, required, defaulted, read_text, ◌>>=◌,
}

module _ {J : Json} (F : Format J) where
  -- `serde_json::Value` writes itself, and reads anything.
  unfoldable pub value_tree : Value J → Tree J.Number
  value_tree Value.null = null
  value_tree (Value.bool b) = bool b
  value_tree (Value.number n) = number n
  value_tree (Value.string s) = string s
  value_tree (Value.array a) = list (F.array_items a)
  value_tree (Value.object m) = object (F.object_members m)

  unfoldable pub read_value : Tree J.Number → Value J
  read_value null = Value.null
  read_value (bool b) = Value.bool b
  read_value (number n) = Value.number n
  read_value (string s) = Value.string s
  read_value (list items) = Value.array (F.array_of items)
  read_value (object members) = Value.object (F.object_of members)

  abbrev pub values_trees : List (Value J) → Trees J.Number
  values_trees [] = nil
  values_trees (v ∷ vs) = cons (value_tree v) (values_trees vs)

  abbrev pub read_values : Trees J.Number → List (Value J)
  read_values nil = []
  read_values (cons t ts) = read_value t ∷ read_values ts

  -- The client's derives of `Serialize`
  abbrev pub statement_tree : Cli.Statement J → Tree J.Number
  statement_tree stmt =
      object
        (member "sql" (string stmt.sql) (member "params" (list (values_trees stmt.params)) end))

  abbrev pub statement_trees : List (Cli.Statement J) → Trees J.Number
  statement_trees [] = nil
  statement_trees (s ∷ stmts) = cons (statement_tree s) (statement_trees stmts)

  abbrev pub with_db : String → String → Members J.Number
  with_db type db = member "type" (string type) (member "db" (string db) end)

  unfoldable pub write_request : Cli.Request J → Members J.Number
  unfolding value_tree
  write_request (Cli.Request.ping db) = with_db "Ping" db
  write_request (Cli.Request.exec_batch db stmts tx) = member "type" (string "ExecBatch") (
      member "db" (string db)
        (member "stmts" (list (statement_trees stmts)) (member "tx" (string tx) end)))
  write_request (Cli.Request.prepare_for_maintenance db) = with_db "PrepareForMaintenance" db
  write_request (Cli.Request.close_database db) = with_db "CloseDatabase" db
  write_request (Cli.Request.reopen_database db) = with_db "ReopenDatabase" db
  write_request Cli.Request.shutdown = member "type" (string "Shutdown") end

  -- The daemon's derives of `Deserialize`, for objects
  abbrev pub mode_named : String → Option TransactionMode
  mode_named name =
      if str_eq name "atomic"
      then some TransactionMode.atomic
      else if str_eq name "none"
      then some TransactionMode.none
      else none

  abbrev pub read_mode : Tree J.Number → Option TransactionMode
  read_mode (string name) = mode_named name
  read_mode t = F.other_mode t

  abbrev pub read_params : Tree J.Number → Option (List (Value J))
  read_params (list ts) = some (read_values ts)
  read_params t = none

  abbrev pub read_statement : Tree J.Number → Option (Statement J)
  read_statement (object m) = do
    sql ← required (field "sql" m) read_text
    params ← defaulted [] (field "params" m) read_params
    some (record { sql = sql; params = params })
  read_statement t = F.other_statement t

  abbrev pub read_all : Trees J.Number → Option (List (Statement J))
  read_all nil = some []
  read_all (cons t ts) = do stmt ← read_statement t; stmts ← read_all ts; some (stmt ∷ stmts)

  abbrev pub read_statements : Tree J.Number → Option (List (Statement J))
  read_statements (list ts) = read_all ts
  read_statements t = none

  abbrev pub read_db :
      (String → Protocol.Request J) → Members J.Number → Option (Protocol.Request J)
  read_db variant m = do db ← required (field "db" m) read_text; some (variant db)

  unfoldable pub read_exec_batch : Members J.Number → Option (Protocol.Request J)
  unfolding read_value default_tx_mode
  read_exec_batch m = do
    db ← required (field "db" m) read_text
    stmts ← required (field "stmts" m) read_statements
    tx ← defaulted default_tx_mode (field "tx" m) read_mode
    some (Protocol.Request.exec_batch db stmts tx)

  -- The variant that the tag names
  unfoldable pub read_variant : String → Members J.Number → Option (Protocol.Request J)
  unfolding read_exec_batch
  read_variant type m =
      if str_eq type "Ping"
      then read_db Protocol.Request.ping m
      else if str_eq type "ExecBatch"
      then read_exec_batch m
      else if str_eq type "PrepareForMaintenance"
      then read_db Protocol.Request.prepare_for_maintenance m
      else if str_eq type "CloseDatabase"
      then read_db Protocol.Request.close_database m
      else if str_eq type "ReopenDatabase"
      then read_db Protocol.Request.reopen_database m
      else if str_eq type "Shutdown"
      then some Protocol.Request.shutdown
      else none

  unfoldable pub read_request : Members J.Number → Option (Protocol.Request J)
  unfolding read_variant
  read_request m = do type ← required (field "type" m) read_text; read_variant type m

  -- The request of the daemon's that a client's request means, if its mode is one
  abbrev pub as_statements : List (Cli.Statement J) → List (Statement J)
  as_statements [] = []
  as_statements (s ∷ stmts) = record { sql = s.sql; params = s.params } ∷ as_statements stmts

  unfoldable pub as_daemon : Cli.Request J → Option (Protocol.Request J)
  as_daemon (Cli.Request.ping db) = some (Protocol.Request.ping db)
  as_daemon (Cli.Request.exec_batch db stmts tx) = elim (mode_named tx) [
    | some mode ↦ some (Protocol.Request.exec_batch db (as_statements stmts) mode)
    | none ↦ none
  ]
  as_daemon (Cli.Request.prepare_for_maintenance db) =
      some (Protocol.Request.prepare_for_maintenance db)
  as_daemon (Cli.Request.close_database db) = some (Protocol.Request.close_database db)
  as_daemon (Cli.Request.reopen_database db) = some (Protocol.Request.reopen_database db)
  as_daemon Cli.Request.shutdown = some Protocol.Request.shutdown

  -- The names that daemon/src/protocol.rs gives the modes: `rename_all = "lowercase"`
  abbrev pub name_of_mode : TransactionMode → String
  name_of_mode TransactionMode.atomic = "atomic"
  name_of_mode TransactionMode.none = "none"

  abbrev pub MeantBatch :
      String → List (Statement J) → String → Option (Protocol.Request J) → Type 0
  MeantBatch db stmts tx read =
      ((mode : TransactionMode) × (tx ≡ name_of_mode mode)
        × (read ≡ some (Protocol.Request.exec_batch db stmts mode)))
      ⊎ (((mode : TransactionMode) → tx ≢ name_of_mode mode) × (read ≡ none))

  -- What the daemon is to read for a request of the client's
  abbrev pub Meant : Cli.Request J → Option (Protocol.Request J) → Type 0
  Meant (Cli.Request.ping db) read = read ≡ some (Protocol.Request.ping db)
  Meant (Cli.Request.exec_batch db stmts tx) read = MeantBatch db (as_statements stmts) tx read
  Meant (Cli.Request.prepare_for_maintenance db) read =
      read ≡ some (Protocol.Request.prepare_for_maintenance db)
  Meant (Cli.Request.close_database db) read = read ≡ some (Protocol.Request.close_database db)
  Meant (Cli.Request.reopen_database db) read = read ≡ some (Protocol.Request.reopen_database db)
  Meant Cli.Request.shutdown read = read ≡ some Protocol.Request.shutdown

  module _ (L : FormatLaws F) where
    read_value-value_tree : (v : Value J) → read_value (value_tree v) ≡ v
    unfolding read_value value_tree
    read_value-value_tree Value.null = refl
    read_value-value_tree (Value.bool b) = refl
    read_value-value_tree (Value.number n) = refl
    read_value-value_tree (Value.string s) = refl
    read_value-value_tree (Value.array a) = ap (λ x. Value.array x) (L.array_of-array_items a)
    read_value-value_tree (Value.object m) = ap (λ x. Value.object x) (L.object_of-object_members m)

    read_values-values_trees : (vs : List (Value J)) → read_values (values_trees vs) ≡ vs
    read_values-values_trees [] = refl
    read_values-values_trees (v ∷ vs) = cc (read_value-value_tree v, read_values-values_trees vs)

    read_all-statement_trees :
        (stmts : List (Cli.Statement J))
        → read_all (statement_trees stmts) ≡ some (as_statements stmts)
    read_all-statement_trees [] = refl
    read_all-statement_trees (s ∷ stmts) =
        rw (read_values-values_trees s.params, read_all-statement_trees stmts)

    pub read_request-write_request :
        (r : Cli.Request J) → read_request (write_request r) ≡ as_daemon r
    unfolding read_request write_request as_daemon
    read_request-write_request (Cli.Request.ping db) = refl
    read_request-write_request (Cli.Request.exec_batch db stmts tx) =
        rw (read_all-statement_trees stmts) (ground arith)
    read_request-write_request (Cli.Request.prepare_for_maintenance db) = refl
    read_request-write_request (Cli.Request.close_database db) = refl
    read_request-write_request (Cli.Request.reopen_database db) = refl
    read_request-write_request Cli.Request.shutdown = refl

    mode_unnamed :
        (tx : String)
        → str_eq tx "atomic" ≡ false
        → str_eq tx "none" ≡ false
        → (mode : TransactionMode) → tx ≢ name_of_mode mode
    mode_unnamed tx x y TransactionMode.atomic e = let z = (eq_iff tx "atomic").1 e in cc
    mode_unnamed tx x y TransactionMode.none e = let z = (eq_iff tx "none").1 e in cc

    mode_named-Meant :
        (db tx : String) (stmts : List (Statement J))
        → MeantBatch db stmts tx (elim (mode_named tx) [
          | some mode ↦ some (Protocol.Request.exec_batch db stmts mode)
          | none ↦ none
        ])
    mode_named-Meant db tx stmts = elim (Bool-cases (str_eq tx "atomic")) [
      | inl x ↦ inl (TransactionMode.atomic, (eq_iff tx "atomic").0 x, rw x refl)
      | inr x ↦ elim (Bool-cases (str_eq tx "none")) [
        | inl y ↦ inl (TransactionMode.none, (eq_iff tx "none").0 y, rw (x, y) refl)
        | inr y ↦ inr (mode_unnamed tx x y, rw (x, y) refl)
      ]
    ]

    as_daemon-Meant : (r : Cli.Request J) → Meant r (as_daemon r)
    unfolding as_daemon
    as_daemon-Meant (Cli.Request.ping db) = refl
    as_daemon-Meant (Cli.Request.exec_batch db stmts tx) =
        mode_named-Meant db tx (as_statements stmts)
    as_daemon-Meant (Cli.Request.prepare_for_maintenance db) = refl
    as_daemon-Meant (Cli.Request.close_database db) = refl
    as_daemon-Meant (Cli.Request.reopen_database db) = refl
    as_daemon-Meant Cli.Request.shutdown = refl

    -- What the client writes for a request the daemon reads as the request that is meant, with the same
    -- database, statements and parameters; a batch has the mode of the name that the client gives, atomic
    -- for "atomic" and none for "none", and is refused if that is the name of no mode.
    pub read_request-Meant : (r : Cli.Request J) → Meant r (read_request (write_request r))
    read_request-Meant r = subst (Meant r) (sym (read_request-write_request r)) (as_daemon-Meant r)

  -- A batch without a mode is read as an atomic one, `default = "default_tx_mode"`.
  read_exec_batch-default_tx_mode :
      (m : Members J.Number)
      → field "tx" m ≡ missing
      → read_exec_batch m ≡ read_exec_batch (member "tx" (string "atomic") m)
  unfolding read_exec_batch default_tx_mode
  read_exec_batch-default_tx_mode m e = rw e refl
