-- ===== src/Worker/Sqlite.antt =====
-- What the worker relies on of sqlx and SQLite, as named laws of the operations that it calls.
pub mod Log
use sqlite_daemon.Prelude.{ℕ, ◌≡◌, ◌≢◌, ◌⊎◌, Option, some, ℤ, pos, i64_max, ◌+ℤ◌, Result, ok, err}
use sqlite_daemon.Sqlx.{Sqlx, Query, ConnectOptions}
use sqlite_daemon.Worker.Database.{
  create_meta, insert_meta, select_rev, update_meta, wal_autocheckpoint, checkpoint_truncate,
  checkpoint_passive,
}

module _ {F : Type 0} (S : Sqlx F) where
  open S use {
    World, Error, Pool, Transaction, connect_with, execute, fetch_one, close, drop_pool, begin,
    execute_tx, fetch_one_tx, commit, drop_tx, unix_timestamp,
  }

  -- Transactions. A query is plain if it is one statement that leaves the transaction's state alone
  -- (it is no BEGIN, COMMIT, ROLLBACK or the like); these laws speak of plain queries.
  pub record TransactionLaws : Type 1 where
    pub Content : Type 0
    -- what a new connection reads
    pub committed : World → Content
    -- what the transaction reads
    pub pending : Transaction → World → Content
    -- the query, run on a content, can affect so many rows and leave this content
    pub Runs : Query F → Content → ℕ → Content → Type 0
    -- outside of a transaction the query, run on a content, can fail and leave this content: as a rule the
    -- same one, but `OR FAIL` and `RAISE(FAIL)` keep the rows before the one that failed
    pub Fails : Query F → Content → Content → Type 0
    pub IsPlain : Query F → Type 0
    -- the `rev` of the row of `meta`
    pub rev_of : Content → Option ℤ
    pub begin_committed : (p : Pool) (w : World) → committed (begin p w).1 ≡ committed w
    pub begin_pending :
        (p : Pool) (w : World) (tx : Transaction)
        → (begin p w).0 ≡ ok tx
        → pending tx (begin p w).1 ≡ committed w
    pub execute_tx_committed :
        (tx : Transaction) (q : Query F) (w : World)
        → IsPlain q
        → committed (execute_tx tx q w).1 ≡ committed w
    pub execute_tx_runs :
        (tx : Transaction) (q : Query F) (w : World) (n : ℕ)
        → IsPlain q
        → (execute_tx tx q w).0 ≡ ok n
        → Runs q (pending tx w) n (pending tx (execute_tx tx q w).1)
    pub fetch_tx_committed :
        (tx : Transaction) (w : World) → committed (fetch_one_tx tx select_rev w).1 ≡ committed w
    pub fetch_tx_pending :
        (tx : Transaction) (w : World) → pending tx (fetch_one_tx tx select_rev w).1 ≡ pending tx w
    pub fetch_tx_rev :
        (tx : Transaction) (w : World) (rev : ℤ)
        → (fetch_one_tx tx select_rev w).0 ≡ ok rev
        → rev_of (pending tx w) ≡ some rev
    pub commit_ok :
        (tx : Transaction) (w : World)
        → (commit tx w).0 ≡ ok tt
        → committed (commit tx w).1 ≡ pending tx w
    pub commit_err :
        (tx : Transaction) (w : World) (e : Error)
        → (commit tx w).0 ≡ err e
        → committed (commit tx w).1 ≡ committed w
    pub drop_committed : (tx : Transaction) (w : World) → committed (drop_tx tx w).1 ≡ committed w
    -- outside a transaction a statement commits itself
    pub execute_runs :
        (p : Pool) (q : Query F) (w : World) (n : ℕ)
        → IsPlain q
        → (execute p q w).0 ≡ ok n
        → Runs q (committed w) n (committed (execute p q w).1)
    pub execute_err :
        (p : Pool) (q : Query F) (w : World) (e : Error)
        → IsPlain q
        → (execute p q w).0 ≡ err e
        → Fails q (committed w) (committed (execute p q w).1)
    pub fetch_committed :
        (p : Pool) (w : World) → committed (fetch_one p select_rev w).1 ≡ committed w
    pub fetch_rev :
        (p : Pool) (w : World) (rev : ℤ)
        → (fetch_one p select_rev w).0 ≡ ok rev
        → rev_of (committed w) ≡ some rev
    pub clock_committed : (w : World) → committed (unix_timestamp w).1 ≡ committed w
    pub clock_pending :
        (tx : Transaction) (w : World) → pending tx (unix_timestamp w).1 ≡ pending tx w
    -- a checkpoint moves pages, and changes no content
    pub passive_committed :
        (p : Pool) (w : World) → committed (execute p checkpoint_passive w).1 ≡ committed w
    pub truncate_committed :
        (p : Pool) (w : World) → committed (execute p checkpoint_truncate w).1 ≡ committed w
    pub update_plain : (ts : ℤ) → IsPlain (update_meta ts)
    -- `SET rev = rev + 1`, where the sum is a 64-bit integer
    pub update_rev :
        (ts : ℤ) (c d : Content) (n : ℕ) (rev : ℤ)
        → Runs (update_meta ts) c n d
        → rev_of c ≡ some rev
        → rev ≢ i64_max
        → rev_of d ≡ some (rev +ℤ pos 1)

  -- Which pools hold the database's files.
  pub record PoolLaws : Type 1 where
    pub Holds : World → Pool → Type 0
    pub connect_holds :
        (o : ConnectOptions) (w : World) (p : Pool)
        → (connect_with o w).0 ≡ ok p
        → Holds (connect_with o w).1 p
    pub connect_only :
        (o : ConnectOptions) (w : World) (p q : Pool)
        → (connect_with o w).0 ≡ ok p
        → Holds (connect_with o w).1 q
        → (q ≡ p) ⊎ Holds w q
    pub connect_err :
        (o : ConnectOptions) (w : World) (e : Error) (q : Pool)
        → (connect_with o w).0 ≡ err e
        → Holds (connect_with o w).1 q
        → Holds w q
    pub close_releases : (p : Pool) (w : World) → ¬ Holds (close p w).1 p
    pub close_only : (p q : Pool) (w : World) → Holds (close p w).1 q → Holds w q
    pub drop_releases : (p : Pool) (w : World) → ¬ Holds (drop_pool p w).1 p
    pub drop_only : (p q : Pool) (w : World) → Holds (drop_pool p w).1 q → Holds w q
    -- nothing else opens or closes a pool, and no query attaches the database to another one's pool
    pub execute_holds : (p : Pool) (x : Query F) (w : World) → Holds (execute p x w).1 ≡ Holds w
    pub fetch_holds : (p : Pool) (x : Query F) (w : World) → Holds (fetch_one p x w).1 ≡ Holds w
    pub begin_holds : (p : Pool) (w : World) → Holds (begin p w).1 ≡ Holds w
    pub execute_tx_holds :
        (tx : Transaction) (x : Query F) (w : World) → Holds (execute_tx tx x w).1 ≡ Holds w
    pub fetch_tx_holds :
        (tx : Transaction) (x : Query F) (w : World) → Holds (fetch_one_tx tx x w).1 ≡ Holds w
    pub commit_holds : (tx : Transaction) (w : World) → Holds (commit tx w).1 ≡ Holds w
    pub drop_tx_holds : (tx : Transaction) (w : World) → Holds (drop_tx tx w).1 ≡ Holds w
    pub clock_holds : (w : World) → Holds (unix_timestamp w).1 ≡ Holds w
