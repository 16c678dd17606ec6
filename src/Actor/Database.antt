-- ===== src/Actor/Database.antt =====
-- daemon/src/db.rs: opening the database.
use Prim.Native.String.{◌++◌}
use sqlite_daemon.Prelude.{String, none, some, ok, ℤ, Result, err, Io, pure, ◌>>=◌}
use sqlite_daemon.Platform.{Platform}
use sqlite_daemon.Worker.Database.{
  try_then, wal_autocheckpoint, create_meta, insert_meta, select_rev, connect_options, keep_or_drop,
}

module _ (P : Platform) where
  open P.sqlx use {World, Pool, to_string, from_str, connect_with, execute, fetch_one}

  unfoldable pub db_migrations : Pool → Io World (Result String (Unit {0}))
  db_migrations pool =
      try_then to_string (execute pool create_meta)
        λ _. try_then to_string (execute pool insert_meta) λ _. pure (ok tt)

  -- An error is given by its `Display`.
  unfoldable pub init_db : String → Io World (Result String Pool)
  unfolding db_migrations keep_or_drop
  init_db db_path = elim (from_str ("sqlite:" ++ db_path)) [
    | some e ↦ pure (err (to_string e))
    | none ↦
        try_then (λ _. "Failed to connect to database")
          (connect_with (connect_options P ("sqlite:" ++ db_path)))
          λ pool. do
            r ← try_then to_string (execute pool wal_autocheckpoint) λ _. db_migrations pool
            keep_or_drop P pool r
  ]

  unfoldable pub db_current_rev : Pool → Io World (Result String ℤ)
  db_current_rev pool = try_then to_string (fetch_one pool select_rev) λ rev. pure (ok rev)
