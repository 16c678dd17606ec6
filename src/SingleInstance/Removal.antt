-- ===== src/SingleInstance/Removal.antt =====
-- daemon/src/single_instance.rs: what the removal of the lock file in `drop` lets in.
use sqlite_daemon.Prelude.{
  ℕ, ◌<◌, ◌≡◌, ◌≢◌, true, none, some, ==_iff, arith, Option-cases, inl, inr,
}
use sqlite_daemon.SingleInstance.{
  start, opened, locked, holding, removed, System, open_lock_file, flock, close_file, write_pid,
  remove_lock_file, Step, opens, locks, writes, removes, closes, dies_locked, dies_holding, fresh,
}
use sqlite_daemon.SingleInstance.Exclusion.{Reach, here, next}

-- Files are numbered below the next one.
record IsNumbered (s : System) : Type 0 where
  entry_below : (i : ℕ) → s.entry ≡ some i → i < s.next_inode
  owned_below : (q i : ℕ) → s.owner i ≡ some q → i < s.next_inode
  open_below : (q i : ℕ) → s.stage q ≡ opened i → i < s.next_inode

Step-IsNumbered : {s t : System} → Step s t → IsNumbered s → IsNumbered t
unfolding open_lock_file flock close_file write_pid remove_lock_file
Step-IsNumbered {s} (opens p e) h = record {
  entry_below = λ i x. ground (arith, h.entry_below i);
  owned_below = λ q i x. ground (arith, h.owned_below q i);
  open_below = λ q i x. ground (arith, h.open_below q i, h.entry_below i);
}
Step-IsNumbered {s} (locks p i e) h = record {
  entry_below = λ j x. ground (arith, h.entry_below j);
  owned_below = λ q j x. ground (arith, h.owned_below q j, h.open_below p i e, ==_iff j i);
  open_below = λ q j x. ground (arith, h.open_below q j);
}
Step-IsNumbered {s} (writes p i written e) h = record {
  entry_below = λ j x. ground (arith, h.entry_below j);
  owned_below = λ q j x. ground (arith, h.owned_below q j);
  open_below = λ q j x. ground (arith, h.open_below q j);
}
Step-IsNumbered {s} (removes p i e) h = record {
  entry_below = λ j x. cc;
  owned_below = λ q j x. ground (arith, h.owned_below q j);
  open_below = λ q j x. ground (arith, h.open_below q j);
}
Step-IsNumbered {s} (closes p i e) h = record {
  entry_below = λ j x. ground (arith, h.entry_below j);
  owned_below = λ q j x. ground (arith, h.owned_below q j);
  open_below = λ q j x. ground (arith, h.open_below q j);
}
Step-IsNumbered {s} (dies_locked p i e) h = record {
  entry_below = λ j x. ground (arith, h.entry_below j);
  owned_below = λ q j x. ground (arith, h.owned_below q j);
  open_below = λ q j x. ground (arith, h.open_below q j);
}
Step-IsNumbered {s} (dies_holding p i e) h = record {
  entry_below = λ j x. ground (arith, h.entry_below j);
  owned_below = λ q j x. ground (arith, h.owned_below q j);
  open_below = λ q j x. ground (arith, h.open_below q j);
}

Reach-IsNumbered : {s : System} → Reach fresh s → IsNumbered s
Reach-IsNumbered here = record {
  entry_below = λ i e. cc;
  owned_below = λ q i e. cc;
  open_below = λ q i e. cc;
}
Reach-IsNumbered (next r st) = Step-IsNumbered st (Reach-IsNumbered r)

next_inode-free : (s : System) → IsNumbered s → s.owner s.next_inode ≡ none
next_inode-free s h = elim (Option-cases (s.owner s.next_inode)) [
  | inl e ↦ e
  | inr (q, e) ↦ absurd (omega (arith, h.owned_below q s.next_inode e))
]

-- Once a daemon `p` removes the lock file and closes it while `q` has it open and `r` has not
-- started, both `q` and `r` may start: `q` locks the file without a name, `r` a new one.
module _ (s : System) (p q r i : ℕ) (p_ne_q : p ≢ q) (q_ne_r : q ≢ r) (p_ne_r : p ≢ r) where
  after_drop : System
  after_drop = close_file p (remove_lock_file p s i) i

  after_lock : System
  after_lock = write_pid q (flock q after_drop i) i true

  after_open : System
  after_open = open_lock_file r after_lock

  after_both : System
  after_both = write_pid r (flock r after_open s.next_inode) s.next_inode true

  -- From every reachable state in which a daemon holds the lock, a second process has opened the file
  -- and a third has not started, a state can be reached in which the second and the third, two
  -- different processes, both run as daemons.
  pub drop_lets_two_in :
      Reach fresh s
      → s.stage p ≡ holding i
      → s.stage q ≡ opened i
      → s.stage r ≡ start
      → (t : System) × Reach s t × (t.stage q ≡ holding i) × (t.stage r ≡ holding s.next_inode)
  unfolding after_drop after_lock after_open after_both open_lock_file flock close_file write_pid
      remove_lock_file
  drop_lets_two_in reached at_p at_q at_r =
      let low : i < s.next_inode = (Reach-IsNumbered reached).open_below q i at_q in
      let free = next_inode-free s (Reach-IsNumbered reached) in
      let s₁ = remove_lock_file p s i in
      let s₃ = flock q after_drop i in
      let s₆ = flock r after_open s.next_inode in
      let e₂ : s₁.stage p ≡ removed i = ground arith in
      let e₃ : after_drop.stage q ≡ opened i = ground arith in
      let e₄ : s₃.stage q ≡ locked i = ground arith in
      let e₅ : after_lock.stage r ≡ start = ground arith in
      let e₆ : after_open.stage r ≡ opened s.next_inode = ground arith in
      let e₇ : s₆.stage r ≡ locked s.next_inode = ground arith in
      (
        after_both,
        next
            (next
              (next
                (next (next (next (next here (removes p i at_p)) (closes p i e₂)) (locks q i e₃))
                  (writes q i true e₄))
                (opens r e₅))
              (locks r s.next_inode e₆))
            (writes r s.next_inode true e₇),
        ground arith,
        ground arith,
      )
