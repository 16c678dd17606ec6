-- ===== src/Worker/Database.antt =====
-- The worker's calls on its database: opening, migrations, the revision and the checkpoints.
pub mod Migrations
use Prim.Native.String.{◌++◌}
use sqlite_daemon.Prelude.{String, true, none, some, ℤ, Result, ok, err, Io, pure, ◌>>=◌, ◌>>◌}
use sqlite_daemon.Platform.{Platform}
use sqlite_daemon.Sqlx.{Query, ConnectOptions, JournalMode, Synchronous, query, bind, Arg}

-- `call.await?`: an error ends the function, with the message that `show` gives.
module _ {W A B E : Type 0} (show : E → String) where
  abbrev pub continue : Result E A → (A → Io W (Result String B)) → Io W (Result String B)
  continue (ok a) next = next a
  continue (err e) next = pure (err (show e))

  abbrev pub try_then : Io W (Result E A) → (A → Io W (Result String B)) → Io W (Result String B)
  try_then call next = do r ← call; continue r next

-- The queries, as the source spells them.
module _ {F : Type 0} where
  abbrev pub wal_autocheckpoint : Query F
  wal_autocheckpoint = query "PRAGMA wal_autocheckpoint=1000"

  abbrev pub create_meta : Query F
  create_meta =
      query
        "\n        CREATE TABLE IF NOT EXISTS meta (\n            rev INTEGER NOT NULL PRIMARY KEY,\n            ts INTEGER NOT NULL\n        )\n        "

  abbrev pub insert_meta : Query F
  insert_meta =
      query
        "\n        INSERT INTO meta(rev, ts)\n        SELECT 0, CAST(strftime('%s','now') AS INTEGER)\n        WHERE NOT EXISTS(SELECT 1 FROM meta)\n        "

  abbrev pub select_rev : Query F
  select_rev = query "SELECT rev FROM meta"

  abbrev pub update_meta : ℤ → Query F
  update_meta ts = bind (query "UPDATE meta SET rev = rev + 1, ts = ?") (Arg.integer ts)

  abbrev pub checkpoint_truncate : Query F
  checkpoint_truncate = query "PRAGMA wal_checkpoint(TRUNCATE)"

  abbrev pub checkpoint_passive : Query F
  checkpoint_passive = query "PRAGMA wal_checkpoint(PASSIVE)"

module _ (P : Platform) where
  open P.sqlx use {
    World, Error, Pool, Transaction, to_string, from_str, connect_with, execute, fetch_one,
    drop_pool, execute_tx, fetch_one_tx, unix_timestamp,
  }

  unfoldable pub run_migrations : Pool → Io World (Result String (Unit {0}))
  run_migrations pool =
      try_then to_string (execute pool create_meta)
        λ _. try_then to_string (execute pool insert_meta) λ _. pure (ok tt)

  -- What `init_database` does between the connection and its `Ok(pool)`.
  unfoldable pub set_up : Pool → Io World (Result String (Unit {0}))
  unfolding run_migrations
  set_up pool = try_then to_string (execute pool wal_autocheckpoint) λ _. run_migrations pool

  abbrev pub connect_options : String → ConnectOptions
  connect_options db_url = record {
    url = db_url;
    create_if_missing = true;
    journal_mode = JournalMode.wal;
    synchronous = Synchronous.normal;
    busy_timeout_secs = 5;
  }

  -- On an early return the pool goes out of scope.
  unfoldable pub keep_or_drop : Pool → Result String (Unit {0}) → Io World (Result String Pool)
  keep_or_drop pool (ok _) = pure (ok pool)
  keep_or_drop pool (err e) = do drop_pool pool; pure (err e)

  unfoldable pub init_database : String → Io World (Result String Pool)
  unfolding set_up keep_or_drop
  init_database db_path =
      let db_url = "sqlite:" ++ db_path in
      elim (from_str db_url) [
        | some e ↦ pure (err (to_string e))
        | none ↦
            try_then (λ _. "Failed to connect to database") (connect_with (connect_options db_url))
              λ pool. do r ← set_up pool; keep_or_drop pool r
      ]

  unfoldable pub get_current_rev : Pool → Io World (Result String ℤ)
  get_current_rev pool = try_then to_string (fetch_one pool select_rev) λ rev. pure (ok rev)

  unfoldable pub bump_revision : Pool → Io World (Result String ℤ)
  unfolding get_current_rev
  bump_revision pool = do
    ts ← unix_timestamp
    try_then to_string (execute pool (update_meta ts)) λ _. get_current_rev pool

  unfoldable pub bump_revision_in_tx : Transaction → Io World (Result String ℤ)
  bump_revision_in_tx tx = do
    ts ← unix_timestamp
    try_then to_string (execute_tx tx (update_meta ts))
        λ _. try_then to_string (fetch_one_tx tx select_rev) λ rev. pure (ok rev)

  unfoldable pub checkpoint_wal : Pool → Io World (Result String (Unit {0}))
  checkpoint_wal pool = try_then to_string (execute pool checkpoint_truncate) λ _. pure (ok tt)

  unfoldable pub checkpoint_wal_passive : Pool → Io World (Result String (Unit {0}))
  checkpoint_wal_passive pool =
      try_then to_string (execute pool checkpoint_passive) λ _. pure (ok tt)
