-- ===== src/Router/Single.antt =====
-- daemon/src/router.rs: how many workers run for one database, while the map names those that run.
use text.Mathlib.TextEquality.{eq_iff}
use sqlite_daemon.Prelude.{
  ℕ, ◌<◌, ◌≡◌, ◌≢◌, refl, sym, ap, ◌∙◌, String, true, false, none, some, ==_iff, ◌==◌, arith,
  Option-cases, Bool-cases, inl, inr,
}
use sqlite_daemon.Router.{
  respond, forward, running, is_running, Router, new, begin, fast_path, slow_path, send, receive,
  remove_worker, terminate, clean_up, Step, begins, looks, creates, sends, receives, removes,
  terminates, cleans, Reach, here, next, set, set_name,
}

-- The step takes no running worker out of the map.
abbrev pub IsKept : {r s : Router} → Step r s → Type 0
IsKept {r} (removes t name e) = (w : ℕ) → r.workers name ≡ some w → r.life w ≢ running
IsKept {r} (cleans w e) = (v : ℕ) → r.workers (r.db_name w) ≡ some v → r.life v ≢ running
IsKept _ = Unit

abbrev pub AllKept : {r s : Router} → Reach r s → Type 0
AllKept here = Unit
AllKept (next run st) = AllKept run × IsKept st

-- Every running worker is in the map, under its name.
pub record IsListed (r : Router) : Type 0 where
  pub listed : (w : ℕ) → r.life w ≡ running → r.workers (r.db_name w) ≡ some w
  pub below : (w : ℕ) → r.life w ≡ running → w < r.next_worker

spawn_listed :
    (n : String) (r : Router)
    → r.workers n ≡ none
    → IsListed r
    → (w : ℕ) → set r.life r.next_worker running w ≡ running
    → set_name r.workers n (some r.next_worker) (set r.db_name r.next_worker n w) ≡ some w
spawn_listed n r free h w run_w = elim (Bool-cases (w == r.next_worker)) [
  | inl new_one ↦
      let e : w ≡ r.next_worker = (==_iff w r.next_worker).0 new_one in
      rw (new_one, (eq_iff n n).1 refl) (ap some (sym e))
  | inr old ↦
      let run_old : r.life w ≡ running = ground arith in
      let at_w = h.listed w run_old in rw old (ground (arith, eq_iff (r.db_name w) n))
]

pub Step-IsListed : {r s : Router} (st : Step r s) → IsKept st → IsListed r → IsListed s
unfolding begin fast_path slow_path send receive remove_worker terminate clean_up
Step-IsListed {r} (begins t (respond x) e) k h = h
Step-IsListed {r} (begins t (forward n) e) k h = record { listed = h.listed; below = h.below }
Step-IsListed {r} (looks t n e) k h = elim (Option-cases (r.workers n)) [
  | inl x ↦ rw (x, fast_path) (record { listed = h.listed; below = h.below })
  | inr (v, x) ↦ rw (x, fast_path) (record { listed = h.listed; below = h.below })
]
Step-IsListed {r} (creates t n e) k h = elim (Option-cases (r.workers n)) [
  | inl x ↦
      rw (x, slow_path)
        (record {
          listed = λ w run_w. spawn_listed n r x h w run_w;
          below = λ w x. ground (arith, h.below w, ==_iff w r.next_worker);
        })
  | inr (v, x) ↦ rw (x, slow_path) (record { listed = h.listed; below = h.below })
]
Step-IsListed {r} (sends t n w e) k h = elim (Bool-cases (is_running (r.life w))) [
  | inl x ↦ rw (x, send) (record { listed = h.listed; below = h.below })
  | inr x ↦ rw (x, send) (record { listed = h.listed; below = h.below })
]
Step-IsListed {r} (receives t n w true e) k h = record { listed = h.listed; below = h.below }
Step-IsListed {r} (receives t n w false e) k h = record { listed = h.listed; below = h.below }
Step-IsListed {r} (removes t n e) k h = record {
  listed = λ w x. ground (arith, h.listed w, k w, eq_iff (r.db_name w) n);
  below = h.below;
}
Step-IsListed {r} (terminates v e) k h = record {
  listed = λ w x. ground (arith, h.listed w, ==_iff w v);
  below = λ w x. ground (arith, h.below w, ==_iff w v);
}
Step-IsListed {r} (cleans v e) k h = record {
  listed = λ w x. ground (arith, h.listed w, k w, ==_iff w v, eq_iff (r.db_name w) (r.db_name v));
  below = λ w x. ground (arith, h.below w, ==_iff w v);
}

pub Reach-IsListed : {r : Router} (run : Reach new r) → AllKept run → IsListed r
Reach-IsListed here k = record { listed = λ w e. absurd (cc); below = λ w e. absurd (cc) }
Reach-IsListed (next run st) (k, kept) = Step-IsListed st kept (Reach-IsListed run k)

-- As long as no running worker is taken out of the map, two running workers of one database are the
-- same worker, whatever the interleaving.
pub worker_unique :
    (r : Router) (v w : ℕ) (run : Reach new r)
    → AllKept run
    → r.life v ≡ running
    → r.life w ≡ running
    → r.db_name v ≡ r.db_name w
    → v ≡ w
worker_unique r v w run k run_v run_w same =
    let h = Reach-IsListed run k in
    let at_v = h.listed v run_v in
    let at_w = h.listed w run_w in
    let e : some v ≡ some w = sym at_v ∙ ap r.workers same ∙ at_w in cc
