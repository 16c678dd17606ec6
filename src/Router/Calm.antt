-- ===== src/Router/Calm.antt =====
-- daemon/src/router.rs: runs in which no request takes a worker out of the map, so that only a worker's own
-- task does.
use text.Mathlib.TextEquality.{eq_iff}
use sqlite_daemon.Prelude.{
  ℕ, ◌<◌, ◌≡◌, ◌≢◌, refl, sym, ap, ◌∙◌, String, Bool, true, false, none, some, ==_iff, ◌==◌, arith,
  Option-cases, Bool-cases, inl, inr,
}
use sqlite_daemon.Router.{
  respond, forward, Life, absent, running, terminated, gone, is_running, Router, begin, fast_path,
  slow_path, send, receive, remove_worker, terminate, clean_up, Step, begins, looks, creates, sends,
  receives, removes, terminates, cleans, set, set_name,
}
use sqlite_daemon.Router.Single.{IsKept}

-- The step is not `remove_worker` of a request.
abbrev pub IsCalm : {r s : Router} → Step r s → Type 0
IsCalm (removes t name e) = ⊥
IsCalm _ = Unit

-- The worker's own removal from the map is to come.
abbrev pub has_name : Life → Bool
has_name absent = false
has_name running = true
has_name terminated = true
has_name gone = false

pub record IsNamed (r : Router) : Type 0 where
  pub listed : (w : ℕ) → has_name (r.life w) ≡ true → r.workers (r.db_name w) ≡ some w
  pub below : (w : ℕ) → has_name (r.life w) ≡ true → w < r.next_worker

spawn_named :
    (n : String) (r : Router)
    → r.workers n ≡ none
    → IsNamed r
    → (w : ℕ) → has_name (set r.life r.next_worker running w) ≡ true
    → set_name r.workers n (some r.next_worker) (set r.db_name r.next_worker n w) ≡ some w
spawn_named n r free h w named = elim (Bool-cases (w == r.next_worker)) [
  | inl new_one ↦
      let e : w ≡ r.next_worker = (==_iff w r.next_worker).0 new_one in
      rw (new_one, (eq_iff n n).1 refl) (ap some (sym e))
  | inr old ↦
      let at_w = h.listed w (rw old at named) in rw old (ground (arith, eq_iff (r.db_name w) n))
]

pub Step-IsNamed : {r s : Router} (st : Step r s) → IsCalm st → IsNamed r → IsNamed s
unfolding begin fast_path slow_path send receive remove_worker terminate clean_up
Step-IsNamed {r} (begins t (respond x) e) k h = h
Step-IsNamed {r} (begins t (forward n) e) k h = record { listed = h.listed; below = h.below }
Step-IsNamed {r} (looks t n e) k h = elim (Option-cases (r.workers n)) [
  | inl x ↦ rw (x, fast_path) (record { listed = h.listed; below = h.below })
  | inr (v, x) ↦ rw (x, fast_path) (record { listed = h.listed; below = h.below })
]
Step-IsNamed {r} (creates t n e) k h = elim (Option-cases (r.workers n)) [
  | inl x ↦
      rw (x, slow_path)
        (record {
          listed = spawn_named n r x h;
          below = λ w x. ground (arith, h.below w, ==_iff w r.next_worker);
        })
  | inr (v, x) ↦ rw (x, slow_path) (record { listed = h.listed; below = h.below })
]
Step-IsNamed {r} (sends t n w e) k h = elim (Bool-cases (is_running (r.life w))) [
  | inl x ↦ rw (x, send) (record { listed = h.listed; below = h.below })
  | inr x ↦ rw (x, send) (record { listed = h.listed; below = h.below })
]
Step-IsNamed {r} (receives t n w true e) k h = record { listed = h.listed; below = h.below }
Step-IsNamed {r} (receives t n w false e) k h = record { listed = h.listed; below = h.below }
Step-IsNamed {r} (removes t n e) k h = absurd k
Step-IsNamed {r} (terminates v e) k h = record {
  listed = λ w x. ground (arith, h.listed w, h.listed v, ==_iff w v);
  below = λ w x. ground (arith, h.below w, h.below v, ==_iff w v);
}
Step-IsNamed {r} (cleans v e) k h = record {
  listed =
      λ w x. ground (arith, h.listed w, h.listed v, ==_iff w v, eq_iff (r.db_name w) (r.db_name v));
  below = λ w x. ground (arith, h.below w, ==_iff w v);
}

clean_keeps :
    {r : Router} (w : ℕ)
    → r.life w ≡ terminated
    → IsNamed r
    → (v : ℕ) → r.workers (r.db_name w) ≡ some v
    → r.life v ≢ running
clean_keeps {r} w e h v at run_v =
    let own = h.listed w (rw e refl) in
    let same : some w ≡ some v = sym own ∙ at in
    let one : w ≡ v = cc in let z : terminated ≡ running = sym e ∙ ap r.life one ∙ run_v in cc

-- Such a step takes no running worker out of the map.
pub Step-IsKept : {r s : Router} (st : Step r s) → IsCalm st → IsNamed r → IsKept st
Step-IsKept (begins t x e) k h = tt
Step-IsKept (looks t n e) k h = tt
Step-IsKept (creates t n e) k h = tt
Step-IsKept (sends t n w e) k h = tt
Step-IsKept (receives t n w replied e) k h = tt
Step-IsKept (removes t n e) k h = absurd k
Step-IsKept (terminates w e) k h = tt
Step-IsKept (cleans w e) k h = clean_keeps w e h
