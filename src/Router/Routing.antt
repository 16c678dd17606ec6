-- ===== src/Router/Routing.antt =====
-- daemon/src/router.rs: where `route_request` sends a request.
use text.Mathlib.TextEquality.{eq_iff}
use sqlite_daemon.Prelude.{
  ℕ, suc, ◌<◌, ◌≡◌, refl, sym, ap, ◌∙◌, String, Bool, true, false, none, some, ◌==◌, ==_iff, ◌↔◌,
  arith, subst, ◌⊎◌, inl, inr, if◌then◌else◌, Option-cases, Bool-cases,
}
use sqlite_daemon.Protocol.{
  Json, Request, ping, exec_batch, prepare_for_maintenance, close_database, reopen_database,
  shutdown, Response,
}
use sqlite_daemon.Protocol.Responses.{ok_shutdown}
use sqlite_daemon.Router.{
  respond, forward, route_start, Life, running, Task, idle, looking, missed, sending, awaiting,
  removing, Router, new, begin, fast_path, slow_path, send, receive, remove_worker, terminate,
  clean_up, Step, begins, looks, creates, sends, receives, removes, terminates, cleans, Reach, here,
  next, set, set_name, is_running,
}

-- Only a shutdown is answered without a worker, and always with the same success: the branch of a
-- missing name is never taken, and a shutdown reaches no worker.
pub route_start_respond_iff :
    {J : Json} (req : Request J) (response : Response)
    → (route_start req ≡ respond response) ↔ ((req ≡ shutdown) × (response ≡ ok_shutdown))
unfolding route_start
route_start_respond_iff (ping db) response = (λ e. absurd (cc), λ h. absurd (cc (h.0)))
route_start_respond_iff (exec_batch db stmts tx) response =
    (λ e. absurd (cc), λ h. absurd (cc (h.0)))
route_start_respond_iff (prepare_for_maintenance db) response =
    (λ e. absurd (cc), λ h. absurd (cc (h.0)))
route_start_respond_iff (close_database db) response = (λ e. absurd (cc), λ h. absurd (cc (h.0)))
route_start_respond_iff (reopen_database db) response = (λ e. absurd (cc), λ h. absurd (cc (h.0)))
route_start_respond_iff shutdown response = (λ e. (refl, cc), λ h. ap respond (sym h.1))

-- The worker that the task has the channel of.
abbrev pub Uses : Task → String → ℕ → Type 0
Uses (sending db v) name w = (db ≡ name) × (v ≡ w)
Uses (awaiting db v) name w = (db ≡ name) × (v ≡ w)
Uses _ name w = ⊥

-- What the map and the tasks hold leads to a worker that was spawned for the name.
pub record IsRouted (r : Router) : Type 0 where
  pub mapped :
      (name : String) (w : ℕ) → r.workers name ≡ some w → (r.db_name w ≡ name) × (w < r.next_worker)
  pub used :
      (t : ℕ) (name : String) (w : ℕ)
      → Uses (r.task t) name w
      → (r.db_name w ≡ name) × (w < r.next_worker)

Uses-cases :
    (b : Bool) (at old : Task) (name : String) (w : ℕ)
    → Uses (if b then at else old) name w
    → Uses at name w ⊎ Uses old name w
Uses-cases true at old name w u = inl u
Uses-cases false at old name w u = inr u

-- A task moves on, and holds at most a channel that leads where its name says.
retask-IsRouted :
    (t : ℕ) (at : Task) (r : Router)
    → IsRouted r
    → ((name : String) (w : ℕ) → Uses at name w → (r.db_name w ≡ name) × (w < r.next_worker))
    → IsRouted (record r { task = set r.task t at })
retask-IsRouted t at r h new_used = record {
  mapped = h.mapped;
  used = λ j name w u. elim (Uses-cases (j == t) at (r.task j) name w u) [
    | inl x ↦ new_used name w x
    | inr x ↦ h.used j name w x
  ];
}

holds :
    (r : Router) (n : String) (w : ℕ)
    → (r.db_name w ≡ n) × (w < r.next_worker)
    → (name : String) (v : ℕ) → (n ≡ name) × (w ≡ v)
    → (r.db_name v ≡ name) × (v < r.next_worker)
holds r n w (e, low) name v (x, y) =
    subst (λ j. (r.db_name j ≡ name) × (j < r.next_worker)) y (e ∙ x, low)

-- A name is taken out of the map.
unmap-IsRouted :
    (n : String) (life : ℕ → Life) (r : Router)
    → IsRouted r
    → IsRouted (record r { workers = set_name r.workers n none; life = life })
unmap-IsRouted n life r h = record {
  mapped = λ name w e. ground (arith, h.mapped name w, eq_iff name n);
  used = h.used;
}

-- A worker is spawned, and put into the map.
spawn-IsRouted :
    (t : ℕ) (n : String) (r : Router)
    → IsRouted r
    → IsRouted (record r {
      workers = set_name r.workers n (some r.next_worker);
      next_worker = suc r.next_worker;
      db_name = set r.db_name r.next_worker n;
      life = set r.life r.next_worker running;
      task = set r.task t (sending n r.next_worker);
    })
spawn-IsRouted t n r h = record {
  mapped = λ name w e. ground (arith, h.mapped name w, eq_iff name n, ==_iff w r.next_worker);
  used = λ j name w u. elim (Uses-cases (j == t) (sending n r.next_worker) (r.task j) name w u) [
    | inl x ↦ ground (arith, x.0, x.1, ==_iff w r.next_worker)
    | inr x ↦ ground (arith, h.used j name w x, ==_iff w r.next_worker)
  ];
}

fast_path-IsRouted : (t : ℕ) (n : String) (r : Router) → IsRouted r → IsRouted (fast_path t r n)
unfolding fast_path
fast_path-IsRouted t n r h = elim (Option-cases (r.workers n)) [
  | inl e ↦ rw (e, fast_path) (retask-IsRouted t (missed n) r h (λ name w u. absurd u))
  | inr (w, e) ↦
      rw (e, fast_path) (retask-IsRouted t (sending n w) r h (holds r n w (h.mapped n w e)))
]

slow_path-IsRouted : (t : ℕ) (n : String) (r : Router) → IsRouted r → IsRouted (slow_path t r n)
unfolding slow_path
slow_path-IsRouted t n r h = elim (Option-cases (r.workers n)) [
  | inl e ↦ rw (e, slow_path) (spawn-IsRouted t n r h)
  | inr (w, e) ↦
      rw (e, slow_path) (retask-IsRouted t (sending n w) r h (holds r n w (h.mapped n w e)))
]

send-IsRouted :
    (t : ℕ) (n : String) (w : ℕ) (r : Router)
    → r.task t ≡ sending n w
    → IsRouted r
    → IsRouted (send t r n w)
unfolding send
send-IsRouted t n w r e h =
    let leads = h.used t n w (subst (λ k. Uses k n w) (sym e) (refl, refl)) in
    elim (Bool-cases (is_running (r.life w))) [
      | inl x ↦ rw x (retask-IsRouted t (awaiting n w) r h (holds r n w leads))
      | inr x ↦ rw x (retask-IsRouted t (removing n) r h (λ name v u. absurd u))
    ]

receive-IsRouted :
    (t : ℕ) (n : String) (w : ℕ) (replied : Bool) (r : Router)
    → IsRouted r
    → IsRouted (receive t r n w replied)
unfolding receive
receive-IsRouted t n w true r h = retask-IsRouted t idle r h (λ name v u. absurd u)
receive-IsRouted t n w false r h = retask-IsRouted t (removing n) r h (λ name v u. absurd u)

Step-IsRouted : {r s : Router} → Step r s → IsRouted r → IsRouted s
unfolding begin remove_worker terminate clean_up
Step-IsRouted {r} (begins t (respond x) e) h = h
Step-IsRouted {r} (begins t (forward n) e) h =
    retask-IsRouted t (looking n) r h (λ name w u. absurd u)
Step-IsRouted {r} (looks t n e) h = fast_path-IsRouted t n r h
Step-IsRouted {r} (creates t n e) h = slow_path-IsRouted t n r h
Step-IsRouted {r} (sends t n w e) h = send-IsRouted t n w r e h
Step-IsRouted {r} (receives t n w replied e) h = receive-IsRouted t n w replied r h
Step-IsRouted {r} (removes t n e) h =
    retask-IsRouted t idle _ (unmap-IsRouted n r.life r h) (λ name w u. absurd u)
Step-IsRouted {r} (terminates w e) h = record { mapped = h.mapped; used = h.used }
Step-IsRouted {r} (cleans w e) h = unmap-IsRouted (r.db_name w) _ r h

pub Reach-IsRouted : {r : Router} → Reach new r → IsRouted r
Reach-IsRouted here = record { mapped = λ name w e. absurd (cc); used = λ t name w u. absurd u }
Reach-IsRouted (next run st) = Step-IsRouted st (Reach-IsRouted run)

-- Whatever the interleaving of tasks and workers: a task that has a worker's channel, for a request to
-- a database, has that of a worker spawned for this database.
pub request_goes_to_own_db :
    (r : Router) (t : ℕ) (name : String) (w : ℕ)
    → Reach new r
    → Uses (r.task t) name w
    → r.db_name w ≡ name
request_goes_to_own_db r t name w run u = ((Reach-IsRouted run).used t name w u).0

pub used_worker_below :
    (r : Router) (t : ℕ) (name : String) (w : ℕ)
    → Reach new r
    → Uses (r.task t) name w
    → w < r.next_worker
used_worker_below r t name w run u = ((Reach-IsRouted run).used t name w u).1
