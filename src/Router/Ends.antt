-- ===== src/Router/Ends.antt =====
-- daemon/src/router.rs: workers that have ended.
use sqlite_daemon.Prelude.{
  ℕ, ◌<◌, ◌≢◌, Option-cases, inl, inr, arith, ==_iff, Bool-cases, String, true, false,
}
use sqlite_daemon.Router.{
  Router, running, respond, forward, begin, fast_path, slow_path, send, receive, remove_worker,
  terminate, clean_up, Step, begins, looks, creates, sends, receives, removes, terminates, cleans,
  Reach, here, next, is_running,
}

-- The worker was spawned, and runs no more.
abbrev pub IsOver : Router → ℕ → Type 0
IsOver r w = (w < r.next_worker) × (r.life w ≢ running)

slow_path-IsOver :
    (t : ℕ) (name : String) (w : ℕ) (r : Router) → IsOver r w → IsOver (slow_path t r name) w
unfolding slow_path
slow_path-IsOver t name w r (low, ended) = elim (Option-cases (r.workers name)) [
  | inl e ↦ rw (e, slow_path) (ground (arith), λ x. ended (ground (arith, ==_iff w r.next_worker)))
  | inr (v, e) ↦ rw (e, slow_path) (low, ended)
]

Step-IsOver : {r s : Router} (w : ℕ) → Step r s → IsOver r w → IsOver s w
unfolding begin fast_path send receive remove_worker terminate clean_up
Step-IsOver w (begins t (respond x) e) h = h
Step-IsOver w (begins t (forward n) e) h = h
Step-IsOver {r} w (looks t n e) h = elim (Option-cases (r.workers n)) [
  | inl x ↦ rw (x, fast_path) h
  | inr (v, x) ↦ rw (x, fast_path) h
]
Step-IsOver {r} w (creates t n e) h = slow_path-IsOver t n w r h
Step-IsOver {r} w (sends t n v e) h = elim (Bool-cases (is_running (r.life v))) [
  | inl x ↦ rw x h
  | inr x ↦ rw x h
]
Step-IsOver w (receives t n v true e) h = h
Step-IsOver w (receives t n v false e) h = h
Step-IsOver w (removes t n e) h = h
Step-IsOver {r} w (terminates v e) (low, ended) = (low, λ x. ended (ground arith))
Step-IsOver {r} w (cleans v e) (low, ended) = (low, λ x. ended (ground arith))

-- It never runs again.
pub Reach-IsOver : {r s : Router} (w : ℕ) → Reach r s → IsOver r w → IsOver s w
Reach-IsOver w here h = h
Reach-IsOver w (next run st) h = Step-IsOver w st (Reach-IsOver w run h)
