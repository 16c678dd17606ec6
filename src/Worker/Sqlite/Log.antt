-- ===== src/Worker/Sqlite/Log.antt =====
-- A small engine for examples: a content is the texts of the statements that ran, in order, and the
-- revision. A statement whose text is "fail" fails.
use Prim.Native.String.{String}
use text.Mathlib.Text.{◌==◌ as str_eq}
use sqlite_daemon.Prelude.{
  ℕ, ◌+◌, ◌≡◌, ◌∙◌, refl, ap, Bool, true, false, ◌||◌, List, [], ◌∷◌, ◌++◌, none, some, ℤ, pos,
  ◌+ℤ◌, ok, err, ◌==◌, ltb, if◌then◌else◌, arith,
}
use sqlite_daemon.Protocol.{Json}
use sqlite_daemon.Sqlx.{Sqlx, Query}
use sqlite_daemon.Platform.{Platform}
use sqlite_daemon.Worker.Sqlite.{TransactionLaws, PoolLaws}
use sqlite_daemon.Worker.Database.{create_meta, insert_meta}
use sqlite_daemon.Worker.Database.Migrations.{at, MigrationLaws}

pub record Content : Type 0 where
  pub ran : List String
  pub rev : ℤ

pub record World : Type 0 where
  pub committed : Content
  pub pending : Content
  pub holds : ℕ → Bool
  pub next : ℕ

abbrev pub F : Type 0
F = Unit {0}

abbrev pub is_pragma : String → Bool
is_pragma sql =
    str_eq sql "PRAGMA wal_checkpoint(PASSIVE)"
    || str_eq sql "PRAGMA wal_checkpoint(TRUNCATE)"
    || str_eq sql "PRAGMA wal_autocheckpoint=1000"

abbrev pub apply : Query F → Content → Content
apply q c =
    if is_pragma q.sql
    then c
    else if str_eq q.sql "UPDATE meta SET rev = rev + 1, ts = ?"
    then record c { rev = c.rev +ℤ pos 1 }
    else record c { ran = c.ran ++ q.sql ∷ [] }

abbrev pub log_sqlx : Sqlx F
log_sqlx = record {
  World = World;
  Error = String;
  Pool = ℕ;
  Transaction = Unit {0};
  to_string = λ e. e;
  from_str = λ url. if str_eq url "sqlite:bad" then some "bad url" else none;
  connect_with = λ o w. (
    if str_eq o.url "sqlite:locked" then err "locked" else ok w.next,
    if str_eq o.url "sqlite:locked"
        then w
        else record w { holds = λ q. if q == w.next then true else w.holds q; next = w.next + 1 },
  );
  execute = λ p q w.
      if str_eq q.sql "fail"
      then (err "failed", w)
      else (ok 1, record w { committed = apply q w.committed });
  fetch_one = λ p q w. (ok w.committed.rev, w);
  close = λ p w. (tt, record w { holds = λ q. if q == p then false else w.holds q });
  drop_pool = λ p w. (tt, record w { holds = λ q. if q == p then false else w.holds q });
  begin = λ p w. (ok tt, record w { pending = w.committed });
  execute_tx = λ t q w.
      if str_eq q.sql "fail"
      then (err "failed", w)
      else (ok 1, record w { pending = apply q w.pending });
  fetch_one_tx = λ t q w. (ok w.pending.rev, w);
  commit = λ t w. (ok tt, record w { committed = w.pending });
  drop_tx = λ t w. (tt, w);
  unix_timestamp = λ w. (pos 1700000000, w);
}

pub execute-holds : (p : ℕ) (q : Query F) (w : World) → (log_sqlx.execute p q w).1.holds ≡ w.holds
execute-holds p q w = ground arith

pub execute_tx-holds :
    (t : Unit {0}) (q : Query F) (w : World) → (log_sqlx.execute_tx t q w).1.holds ≡ w.holds
execute_tx-holds t q w = ground arith

abbrev pub log_transactions : TransactionLaws log_sqlx
log_transactions = record {
  Content = Content;
  committed = λ w. w.committed;
  pending = λ t w. w.pending;
  Runs = λ q c n d. (n ≡ 1) × (d ≡ apply q c);
  Fails = λ q c d. d ≡ c;
  IsPlain = λ q. Unit {0};
  rev_of = λ c. some c.rev;
  begin_committed = λ p w. refl;
  begin_pending = λ p w t e. refl;
  execute_tx_committed = λ t q w plain. ground arith;
  execute_tx_runs = λ t q w n plain e. ground arith;
  fetch_tx_committed = λ t w. refl;
  fetch_tx_pending = λ t w. refl;
  fetch_tx_rev = λ t w rev e. ground arith;
  commit_ok = λ t w e. refl;
  commit_err = λ t w x e. absurd (ground arith);
  drop_committed = λ t w. refl;
  execute_runs = λ p q w n plain e. ground arith;
  execute_err = λ p q w x plain e. ground arith;
  fetch_committed = λ p w. refl;
  fetch_rev = λ p w rev e. ground arith;
  clock_committed = λ w. refl;
  clock_pending = λ t w. refl;
  passive_committed = λ p w. refl;
  truncate_committed = λ p w. refl;
  update_plain = λ ts. tt;
  update_rev = λ ts c d n rev ran at small. ground arith;
}

abbrev pub log_pools : PoolLaws log_sqlx
log_pools = record {
  Holds = λ w p. w.holds p ≡ true;
  connect_holds = λ o w p e. ground arith;
  connect_only = λ o w p q e h. ground arith;
  connect_err = λ o w x q e h. ground arith;
  close_releases = λ p w h. ground arith;
  close_only = λ p q w h. ground arith;
  drop_releases = λ p w h. ground arith;
  drop_only = λ p q w h. ground arith;
  execute_holds =
      λ p x w. ap {B = ℕ → Type 0} (λ (h : ℕ → Bool) q. h q ≡ true) (execute-holds p x w);
  fetch_holds = λ p x w. refl;
  begin_holds = λ p w. refl;
  execute_tx_holds =
      λ t x w. ap {B = ℕ → Type 0} (λ (h : ℕ → Bool) q. h q ≡ true) (execute_tx-holds t x w);
  fetch_tx_holds = λ t x w. refl;
  commit_holds = λ t w. refl;
  drop_tx_holds = λ t w. refl;
  clock_holds = λ w. refl;
}

-- The texts that are not the migrations'.
abbrev pub is_migration : String → Bool
is_migration sql = str_eq sql ((create_meta {F = F}).sql) || str_eq sql ((insert_meta {F = F}).sql)

abbrev pub besides : List String → List String
besides [] = []
besides (sql ∷ ran) = if is_migration sql then besides ran else sql ∷ besides ran

pub besides-snoc :
    (ran : List String) (sql : String)
    → is_migration sql ≡ true
    → besides (ran ++ sql ∷ []) ≡ besides ran
besides-snoc [] sql e = ground arith
besides-snoc (x ∷ ran) sql e = let h = besides-snoc ran sql e in ground arith

abbrev pub log_migrations : MigrationLaws log_transactions
log_migrations = record {
  meta = λ c. at c.rev;
  Others = List String;
  others = λ c. besides c.ran;
  connect_committed = λ o w. ground arith;
  drop_pool_committed = λ p w. refl;
  pragma_committed = λ p w. refl;
  create_plain = tt;
  create_runs = λ c d n r. (
    ap (λ x. at x.rev) r.1,
    ap (λ x. besides x.ran) r.1 ∙ besides-snoc c.ran ((create_meta {F = F}).sql) refl,
  );
  create_fails = λ c d same. same;
  insert_plain = tt;
  insert_runs = λ c d n r. (
    ap (λ x. at x.rev) r.1,
    ap (λ x. besides x.ran) r.1 ∙ besides-snoc c.ran ((insert_meta {F = F}).sql) refl,
  );
  insert_fails = λ c d same. same;
}

abbrev pub log_json : Json
log_json = record {
  Number = ℕ;
  Float = F;
  Array = Unit {0};
  Map = Unit {0};
  as_i64 = λ n. if ltb n 9223372036854775808 then some (pos n) else none;
  as_u64 = λ n. some n;
  as_f64 = λ n. none;
  array_to_string = λ a. "[]";
  object_to_string = λ m. "{}";
}

abbrev pub log_platform : Platform
log_platform = record { json = log_json; sqlx = log_sqlx; upper = λ c. c ∷ [] }

abbrev pub empty : World
empty = record {
  committed = record { ran = []; rev = pos 0 };
  pending = record { ran = []; rev = pos 0 };
  holds = λ q. false;
  next = 0;
}

-- The first pool is open.
abbrev pub one_open : World
one_open = record empty { holds = λ q. q == 0; next = 1 }
