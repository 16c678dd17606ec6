-- ===== src/Worker/Database/Migrations.antt =====
-- daemon/src/worker.rs, `init_database` and `run_migrations`: the table `meta`, and all else.
use Prim.Native.String.{◌++◌}
use sqlite_daemon.Prelude.{
  ℕ, String, ◌≡◌, refl, sym, ap, ◌∙◌, ◌⊎◌, ℤ, pos, Result, ok, err, Result-cases, Option-cases, inl,
  inr, arith, subst,
}
use sqlite_daemon.Platform.{Platform}
use sqlite_daemon.Sqlx.{Sqlx, ConnectOptions}
use sqlite_daemon.Worker.Sqlite.{TransactionLaws}
use sqlite_daemon.Worker.Database.{
  wal_autocheckpoint, create_meta, insert_meta, connect_options, run_migrations, set_up,
  keep_or_drop, init_database,
}

-- The table `meta`: not there, without a row, or with one.
pub data Meta : Type 0 where
  absent : Meta
  empty : Meta
  at : (rev : ℤ) → Meta

-- `CREATE TABLE IF NOT EXISTS`
abbrev pub after_create : Meta → Meta
after_create absent = empty
after_create m = m

-- `INSERT … WHERE NOT EXISTS`
abbrev pub after_insert : Meta → Meta
after_insert empty = at (pos 0)
after_insert m = m

-- What SQLite does with the two queries of the migrations, and with what surrounds them.
pub record MigrationLaws {F : Type 0} {S : Sqlx F} (L : TransactionLaws S) : Type 1 where
  pub meta : L.Content → Meta
  -- all other tables
  pub Others : Type 0
  pub others : L.Content → Others
  pub connect_committed :
      (o : ConnectOptions) (w : S.World) → L.committed (S.connect_with o w).1 ≡ L.committed w
  pub drop_pool_committed :
      (p : S.Pool) (w : S.World) → L.committed (S.drop_pool p w).1 ≡ L.committed w
  pub pragma_committed :
      (p : S.Pool) (w : S.World) → L.committed (S.execute p wal_autocheckpoint w).1 ≡ L.committed w
  pub create_plain : L.IsPlain create_meta
  pub create_runs :
      (c d : L.Content) (n : ℕ)
      → L.Runs create_meta c n d
      → (meta d ≡ after_create (meta c)) × (others d ≡ others c)
  -- neither query makes more than one row
  pub create_fails : (c d : L.Content) → L.Fails create_meta c d → d ≡ c
  pub insert_fails : (c d : L.Content) → L.Fails insert_meta c d → d ≡ c
  pub insert_plain : L.IsPlain insert_meta
  pub insert_runs :
      (c d : L.Content) (n : ℕ)
      → L.Runs insert_meta c n d
      → (meta d ≡ after_insert (meta c)) × (others d ≡ others c)

module _ (P : Platform) (L : TransactionLaws P.sqlx) (M : MigrationLaws L) where
  open P.sqlx use {World, Pool, Error, execute, connect_with, drop_pool, from_str, to_string}
  open L use {Content, committed, execute_runs, execute_err}
  open M use {meta, Others, others, connect_committed, drop_pool_committed, pragma_committed}

  -- The revision of a table is kept, and one that is missing is zero.
  abbrev pub migrated : Meta → Meta
  migrated (at rev) = at rev
  migrated _ = at (pos 0)

  -- After an error, the table is as it was, or was created.
  abbrev pub Migrated : {A : Type 0} → Result String A → Content → Content → Type 0
  Migrated (ok a) c d = (meta d ≡ migrated (meta c)) × (others d ≡ others c)
  Migrated (err e) c d =
      ((meta d ≡ meta c) ⊎ (meta d ≡ after_create (meta c))) × (others d ≡ others c)

  insert_create : (m : Meta) → after_insert (after_create m) ≡ migrated m
  insert_create absent = refl
  insert_create empty = refl
  insert_create (at rev) = refl

  -- How a call ended, and the content that it leaves.
  abbrev Left : {A : Type 0} → Content → Result String A × World → Type 0
  Left c (r, w) = Migrated r c (committed w)

  create_lem :
      (pool : Pool) (w : World) (n : ℕ)
      → (execute pool create_meta w).0 ≡ ok n
      → let d = committed (execute pool create_meta w).1 in
        (meta d ≡ after_create (meta (committed w))) × (others d ≡ others (committed w))
  create_lem pool w n x =
      M.create_runs (committed w) (committed (execute pool create_meta w).1) n
        (execute_runs pool create_meta w n M.create_plain x)

  insert_lem :
      (pool : Pool) (w : World) (n : ℕ)
      → (execute pool insert_meta w).0 ≡ ok n
      → let d = committed (execute pool insert_meta w).1 in
        (meta d ≡ after_insert (meta (committed w))) × (others d ≡ others (committed w))
  insert_lem pool w n x =
      M.insert_runs (committed w) (committed (execute pool insert_meta w).1) n
        (execute_runs pool insert_meta w n M.insert_plain x)

  run_migrations-Left : (pool : Pool) (w : World) → Left (committed w) (run_migrations P pool w)
  unfolding run_migrations
  run_migrations-Left pool w =
      let w₁ = (execute pool create_meta w).1 in
      let w₂ = (execute pool insert_meta w₁).1 in
      elim (Result-cases (execute pool create_meta w).0) [
        | inl (n, x) ↦
            let (made, kept) = create_lem pool w n x in
            elim (Result-cases (execute pool insert_meta w₁).0) [
              | inl (k, y) ↦
                  let (filled, kept₂) = insert_lem pool w₁ k y in
                  let e : run_migrations P pool w ≡ (ok tt, w₂) = ground arith in
                  subst (Left (committed w)) (sym e) (
                    filled ∙ ap after_insert made ∙ insert_create (meta (committed w)),
                    kept₂ ∙ kept,
                  )
              | inr (z, y) ↦
                  let e : run_migrations P pool w ≡ (err (to_string z), w₂) = ground arith in
                  let same =
                    M.insert_fails (committed w₁) (committed w₂)
                      (execute_err pool insert_meta w₁ z M.insert_plain y) in
                  subst (Left (committed w)) (sym e)
                    (inr (ap meta same ∙ made), ap others same ∙ kept)
            ]
        | inr (z, x) ↦
            let e : run_migrations P pool w ≡ (err (to_string z), w₁) = ground arith in
            let same =
              M.create_fails (committed w) (committed w₁)
                (execute_err pool create_meta w z M.create_plain x) in
            subst (Left (committed w)) (sym e) (inl (ap meta same), ap others same)
      ]

  set_up-Left : (pool : Pool) (w : World) → Left (committed w) (set_up P pool w)
  unfolding set_up
  set_up-Left pool w =
      let w₁ = (execute pool wal_autocheckpoint w).1 in
      let same = pragma_committed pool w in
      elim (Result-cases (execute pool wal_autocheckpoint w).0) [
        | inl (n, x) ↦
            let e : set_up P pool w ≡ run_migrations P pool w₁ = ground arith in
            subst (Left (committed w)) (sym e)
              (subst (λ c. Left c (run_migrations P pool w₁)) same (run_migrations-Left pool w₁))
        | inr (z, x) ↦
            let e : set_up P pool w ≡ (err (to_string z), w₁) = ground arith in
            subst (Left (committed w)) (sym e) (inl (ap meta same), ap others same)
      ]

  keep_or_drop-Left :
      (c : Content) (pool : Pool) (r : Result String (Unit {0})) (w : World)
      → Left c (r, w)
      → Left c (keep_or_drop P pool r w)
  unfolding keep_or_drop
  keep_or_drop-Left c pool (ok t) w h = h
  keep_or_drop-Left c pool (err e) w h =
      subst (λ d. ((meta d ≡ meta c) ⊎ (meta d ≡ after_create (meta c))) × (others d ≡ others c))
        (sym (drop_pool_committed pool w)) h

  -- Opening a database keeps all of its tables but `meta`, and the revision if it has one; a database
  -- without one has revision zero after a success. After an error, `meta` is as it was, or was created.
  pub init_database-Migrated :
      (path : String) (w : World)
      → let (r, w') = init_database P path w in Migrated r (committed w) (committed w')
  unfolding init_database
  init_database-Migrated path w =
      let url = "sqlite:" ++ path in
      let options = connect_options P url in
      let w₁ = (connect_with options w).1 in
      let same = connect_committed options w in
      elim (Option-cases (from_str url)) [
        | inl x ↦ elim (Result-cases (connect_with options w).0) [
          | inl (pool, y) ↦
              let (r, w₂) = set_up P pool w₁ in
              let e : init_database P path w ≡ keep_or_drop P pool r w₂ = ground arith in
              subst (Left (committed w)) (sym e) (
                keep_or_drop-Left (committed w) pool r w₂
                  (subst (λ c. Left c (r, w₂)) same (set_up-Left pool w₁)))
          | inr (z, y) ↦
              let e : init_database P path w ≡ (err "Failed to connect to database", w₁) =
                ground arith in
              subst (Left (committed w)) (sym e) (inl (ap meta same), ap others same)
        ]
        | inr (z, x) ↦
            let e : init_database P path w ≡ (err (to_string z), w) = ground arith in
            subst (Left (committed w)) (sym e) (inl refl, refl)
      ]
