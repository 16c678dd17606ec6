-- ===== src/Startup/Listens.antt =====
-- daemon/src/main.rs and daemon/src/server.rs: what the socket's path names while a daemon listens.
use sqlite_daemon.Prelude.{
  ℕ, ◌≡◌, refl, sym, ap, ◌∙◌, subst, Option, none, some, ◌==◌, ==_iff, arith, Bool-cases, inl, inr,
}
use sqlite_daemon.SingleInstance.Owners.{IsExclusive, set-IsExclusive, set_first-IsExclusive}
use sqlite_daemon.Startup.{
  Progress, guarded, cleared, listening, server_failed, stopped, Machine, HasGuard, acquire,
  clear_path, bind_socket, fail_bind, stop, Step, acquires, refused, clears, binds, fails, stops,
  Reach, here, next, booted,
}

record IsOrderly (m : Machine) : Type 0 where
  exclusive : IsExclusive HasGuard m.progress
  empty : (p : ℕ) → m.progress p ≡ cleared → m.socket ≡ none
  named : (p : ℕ) → m.progress p ≡ listening → m.socket ≡ some p

guard_at : {a b : Progress} → a ≡ b → HasGuard b → HasGuard a
guard_at e h = subst HasGuard (sym e) h

-- What the process with the guard does leaves no other one to be cleared or to listen.
alone :
    {m : Machine} (p i : ℕ)
    → IsOrderly m
    → HasGuard (m.progress p)
    → HasGuard (m.progress i)
    → i ≡ p
alone p i h own own_i = h.exclusive i p own_i own

stop-IsOrderly : {m : Machine} (p : ℕ) → IsOrderly m → IsOrderly (stop p m)
unfolding stop
stop-IsOrderly {m} p h = record {
  exclusive = set-IsExclusive HasGuard m.progress p stopped (λ o. absurd o) h.exclusive;
  empty = λ i x. ground (arith, h.empty i);
  named = λ i x. ground (arith, h.named i);
}

clear_path-IsOrderly :
    {m : Machine} (p : ℕ) → m.progress p ≡ guarded → IsOrderly m → IsOrderly (clear_path p m)
unfolding clear_path
clear_path-IsOrderly {m} p e h = record {
  exclusive = set-IsExclusive HasGuard m.progress p cleared (λ o. guard_at e tt) h.exclusive;
  empty = λ i x. refl;
  named = λ i x.
      let listens : (m.progress i ≡ listening) = ground (arith, ==_iff i p) in
      let same : i ≡ p = alone p i h (guard_at e tt) (guard_at listens tt) in
      let z : listening ≡ guarded = sym listens ∙ ap m.progress same ∙ e in absurd (cc);
}

fail_bind-IsOrderly :
    {m : Machine} (p : ℕ) → m.progress p ≡ cleared → IsOrderly m → IsOrderly (fail_bind p m)
unfolding fail_bind
fail_bind-IsOrderly {m} p e h = record {
  exclusive = set-IsExclusive HasGuard m.progress p server_failed (λ o. guard_at e tt) h.exclusive;
  empty = λ i x. ground (arith, h.empty i);
  named = λ i x. ground (arith, h.named i);
}

bind_socket-IsOrderly :
    {m : Machine} (p : ℕ) → m.progress p ≡ cleared → IsOrderly m → IsOrderly (bind_socket p m)
unfolding bind_socket
bind_socket-IsOrderly {m} p e h = rw (h.empty p e) (record {
  exclusive = set-IsExclusive HasGuard m.progress p listening (λ o. guard_at e tt) h.exclusive;
  empty = λ i x.
      let clear : (m.progress i ≡ cleared) = ground (arith, ==_iff i p) in
      let same : i ≡ p = alone p i h (guard_at e tt) (guard_at clear tt) in
      ground (arith, ==_iff i p);
  named = λ i x. elim (Bool-cases (i == p)) [
    | inl y ↦ ap some (sym ((==_iff i p).0 y))
    | inr y ↦
        let listens : (m.progress i ≡ listening) = rw y at x in
        let same : i ≡ p = alone p i h (guard_at e tt) (guard_at listens tt) in
        ground (arith, ==_iff i p)
  ];
})

Step-IsOrderly : {m v : Machine} → Step m v → IsOrderly m → IsOrderly v
unfolding acquire
Step-IsOrderly {m} (acquires p e free) h = record {
  exclusive = set_first-IsExclusive HasGuard m.progress p guarded free;
  empty = λ i x. ground (arith, h.empty i);
  named = λ i x. ground (arith, h.named i);
}
Step-IsOrderly (refused p e) h = stop-IsOrderly p h
Step-IsOrderly (clears p e) h = clear_path-IsOrderly p e h
Step-IsOrderly (binds p e) h = bind_socket-IsOrderly p e h
Step-IsOrderly (fails p e) h = fail_bind-IsOrderly p e h
Step-IsOrderly (stops p own) h = stop-IsOrderly p h

Reach-IsOrderly : {left_over : Option ℕ} {m : Machine} → Reach (booted left_over) m → IsOrderly m
Reach-IsOrderly here = record {
  exclusive = λ p q own_p own_q. absurd own_p;
  empty = λ p e. absurd (cc);
  named = λ p e. absurd (cc);
}
Reach-IsOrderly (next run st) = Step-IsOrderly st (Reach-IsOrderly run)

-- With a guard that one process has at a time, whatever is left over at the path: while a process
-- listens, the socket's path names its listener, so that clients reach the daemon that has the guard.
pub socket_names_listener :
    (left_over : Option ℕ) (m : Machine) (p : ℕ)
    → Reach (booted left_over) m
    → m.progress p ≡ listening
    → m.socket ≡ some p
socket_names_listener left_over m p run e = (Reach-IsOrderly run).named p e

-- With such a guard, binding never finds the path in use: it is the binding process that listens next.
pub bind_socket_listens :
    (left_over : Option ℕ) (m : Machine) (p : ℕ)
    → Reach (booted left_over) m
    → m.progress p ≡ cleared
    → ((bind_socket p m).socket ≡ some p) × ((bind_socket p m).progress p ≡ listening)
unfolding bind_socket
bind_socket_listens left_over m p run e =
    let free : m.socket ≡ none = (Reach-IsOrderly run).empty p e in
    (ground arith, ground (arith, ==_iff p p))
