-- ===== src/SingleInstance/Exclusion.antt =====
-- daemon/src/single_instance.rs: what the lock excludes.
use sqlite_daemon.Prelude.{ℕ, ◌≡◌, refl, sym, Bool, true, false, some, ==_iff, arith, subst}
use sqlite_daemon.SingleInstance.{
  Stage, opened, locked, holding, removed, System, open_lock_file, flock, close_file, write_pid,
  remove_lock_file, Step, opens, locks, writes, removes, closes, dies_locked, dies_holding, fresh,
  Owns,
}

pub data Reach (s : System) : System → Type 0 where
  here : Reach s s
  next : {t u : System} → Reach s t → Step t u → Reach s u

-- The lock table names the owner.
abbrev pub IsRecorded : System → Type 0
IsRecorded s = (q j : ℕ) → Owns (s.stage q) j → s.owner j ≡ some q

close_file-IsRecorded :
    (p i : ℕ) (s : System) → Owns (s.stage p) i → IsRecorded s → IsRecorded (close_file p s i)
unfolding close_file
close_file-IsRecorded p i s own h q j o = ground (arith, h p i own, h q j, ==_iff q p, ==_iff j i)

open_lock_file-IsRecorded : (p : ℕ) (s : System) → IsRecorded s → IsRecorded (open_lock_file p s)
unfolding open_lock_file
open_lock_file-IsRecorded p s h q j o = ground (arith, h q j)

flock-IsRecorded : (p i : ℕ) (s : System) → IsRecorded s → IsRecorded (flock p s i)
unfolding flock
flock-IsRecorded p i s h q j o = ground (arith, h q j, ==_iff q p, ==_iff j i)

own_locked : (s : Stage) (i : ℕ) → s ≡ locked i → Owns s i
own_locked s i e = subst (λ t. Owns t i) (sym e) refl

own_holding : (s : Stage) (i : ℕ) → s ≡ holding i → Owns s i
own_holding s i e = subst (λ t. Owns t i) (sym e) refl

own_removed : (s : Stage) (i : ℕ) → s ≡ removed i → Owns s i
own_removed s i e = subst (λ t. Owns t i) (sym e) refl

remove_lock_file-IsRecorded :
    (p i : ℕ) (s : System) → Owns (s.stage p) i → IsRecorded s → IsRecorded (remove_lock_file p s i)
unfolding remove_lock_file
remove_lock_file-IsRecorded p i s own h q j o = ground (arith, h p i own, h q j, ==_iff q p)

write_pid-IsRecorded :
    (p i : ℕ) (written : Bool) (s : System)
    → Owns (s.stage p) i
    → IsRecorded s
    → IsRecorded (write_pid p s i written)
unfolding write_pid
write_pid-IsRecorded p i true s own h q j o = ground (arith, h p i own, h q j, ==_iff q p)
write_pid-IsRecorded p i false s own h q j o = close_file-IsRecorded p i s own h q j o

Step-IsRecorded : {s t : System} → Step s t → IsRecorded s → IsRecorded t
Step-IsRecorded {s} (opens p e) h = open_lock_file-IsRecorded p s h
Step-IsRecorded {s} (locks p i e) h = flock-IsRecorded p i s h
Step-IsRecorded {s} (writes p i written e) h =
    write_pid-IsRecorded p i written s (own_locked (s.stage p) i e) h
Step-IsRecorded {s} (removes p i e) h =
    remove_lock_file-IsRecorded p i s (own_holding (s.stage p) i e) h
Step-IsRecorded {s} (closes p i e) h = close_file-IsRecorded p i s (own_removed (s.stage p) i e) h
Step-IsRecorded {s} (dies_locked p i e) h =
    close_file-IsRecorded p i s (own_locked (s.stage p) i e) h
Step-IsRecorded {s} (dies_holding p i e) h =
    close_file-IsRecorded p i s (own_holding (s.stage p) i e) h

Reach-IsRecorded : {s : System} → Reach fresh s → IsRecorded s
Reach-IsRecorded here = λ q j o. absurd o
Reach-IsRecorded (next r st) = Step-IsRecorded st (Reach-IsRecorded r)

-- Whatever the interleaving, at most one process owns the lock of a file.
pub owner_unique :
    (s : System) (p q i : ℕ) → Reach fresh s → Owns (s.stage p) i → Owns (s.stage q) i → p ≡ q
owner_unique s p q i r own_p own_q = let h = Reach-IsRecorded r in cc (h p i own_p, h q i own_q)

-- The process has the file open.
abbrev pub HasOpen : Stage → ℕ → Type 0
HasOpen (opened i) j = i ≡ j
HasOpen s j = Owns s j

abbrev pub IsKept : {s t : System} → Step s t → Type 0
IsKept (removes p i e) = ⊥
IsKept _ = Unit

-- No daemon has removed the lock file on the way.
abbrev pub NoRemoval : {s t : System} → Reach s t → Type 0
NoRemoval here = Unit
NoRemoval (next r st) = NoRemoval r × IsKept st

-- Every file that a process has open is the one that the path names.
abbrev IsNamed : System → Type 0
IsNamed s = (q j : ℕ) → HasOpen (s.stage q) j → s.entry ≡ some j

open_lock_file-IsNamed : (p : ℕ) (s : System) → IsNamed s → IsNamed (open_lock_file p s)
unfolding open_lock_file
open_lock_file-IsNamed p s h q j o = ground (arith, h q j)

flock-IsNamed : (p i : ℕ) (s : System) → s.stage p ≡ opened i → IsNamed s → IsNamed (flock p s i)
unfolding flock
flock-IsNamed p i s e h q j o =
    let named : s.entry ≡ some i = h p i (subst (λ t. HasOpen t i) (sym e) refl) in
    ground (arith, h q j)

close_file-IsNamed : (p i : ℕ) (s : System) → IsNamed s → IsNamed (close_file p s i)
unfolding close_file
close_file-IsNamed p i s h q j o = ground (arith, h q j)

write_pid-IsNamed :
    (p i : ℕ) (written : Bool) (s : System)
    → s.stage p ≡ locked i
    → IsNamed s
    → IsNamed (write_pid p s i written)
unfolding write_pid
write_pid-IsNamed p i true s e h q j o =
    let named : s.entry ≡ some i = h p i (subst (λ t. HasOpen t i) (sym e) refl) in
    ground (arith, h q j)
write_pid-IsNamed p i false s e h q j o = close_file-IsNamed p i s h q j o

Step-IsNamed : {s t : System} (st : Step s t) → IsKept st → IsNamed s → IsNamed t
Step-IsNamed {s} (opens p e) k h = open_lock_file-IsNamed p s h
Step-IsNamed {s} (locks p i e) k h = flock-IsNamed p i s e h
Step-IsNamed {s} (writes p i written e) k h = write_pid-IsNamed p i written s e h
Step-IsNamed {s} (removes p i e) k h = absurd k
Step-IsNamed {s} (closes p i e) k h = close_file-IsNamed p i s h
Step-IsNamed {s} (dies_locked p i e) k h = close_file-IsNamed p i s h
Step-IsNamed {s} (dies_holding p i e) k h = close_file-IsNamed p i s h

Reach-IsNamed : {s : System} (r : Reach fresh s) → NoRemoval r → IsNamed s
Reach-IsNamed here k = λ q j o. absurd o
Reach-IsNamed (next r st) (k, kept) = Step-IsNamed st kept (Reach-IsNamed r k)

-- As long as no daemon has removed the lock file, at most one process is a running daemon.
pub daemon_unique :
    (s : System) (p q i j : ℕ) (r : Reach fresh s)
    → NoRemoval r
    → s.stage p ≡ holding i
    → s.stage q ≡ holding j
    → p ≡ q
daemon_unique s p q i j r kept hold_p hold_q =
    let named = Reach-IsNamed r kept in
    let at_p : s.entry ≡ some i = named p i (subst (λ t. HasOpen t i) (sym hold_p) refl) in
    let at_q : s.entry ≡ some j = named q j (subst (λ t. HasOpen t j) (sym hold_q) refl) in
    let same : i ≡ j = cc in
    owner_unique s p q j r (subst (λ t. Owns t j) (sym hold_p) same)
      (subst (λ t. Owns t j) (sym hold_q) refl)
