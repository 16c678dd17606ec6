-- ===== src/Pipes/Clients.antt =====
-- daemon/src/server.rs and cli/src/main.rs on Windows: which clients get a connection.
use sqlite_daemon.Prelude.{ℕ, ◌≡◌, ◌≢◌, ◌≤◌, ◌<◌, ◌⊎◌, inl, inr, refl, true, false, ==_iff, arith}
use sqlite_daemon.Pipes.{
  absent, waiting, held, closed, creating, connecting, outside, attached, refused, Pipes,
  no_instance, create_instance, spawn_handler, fail_create, fail_connect, end_handler, open_pipe,
  refuse, Step, creates, create_fails, connects, connect_fails, ends, opens, refuses, Reach, here,
  next,
}

record IsAccepting (s : Pipes) : Type 0 where
  made : (i : ℕ) → s.instance_at i ≢ absent → i < s.next_instance
  not_spawned : (i : ℕ) → s.next_instance ≤ i → s.spawned i ≡ false
  next_one : (i : ℕ) → s.acceptor ≡ connecting i → i < s.next_instance
  one_waits : (i : ℕ) → s.instance_at i ≡ waiting → s.acceptor ≡ connecting i
  taken_up :
      (i c : ℕ) → s.instance_at i ≡ held c → (s.spawned i ≡ true) ⊎ (s.acceptor ≡ connecting i)
  has :
      (c i : ℕ) → s.client c ≡ attached i → (s.instance_at i ≡ held c) ⊎ (s.instance_at i ≡ closed)
  alone : (c d i : ℕ) → s.client c ≡ attached i → s.client d ≡ attached i → c ≡ d

create_instance-IsAccepting :
    (s : Pipes) → s.acceptor ≡ creating → IsAccepting s → IsAccepting (create_instance s)
unfolding create_instance
create_instance-IsAccepting s e h = record {
  made = λ i x. ground (arith, ==_iff i s.next_instance, h.made i);
  not_spawned = λ i x. ground (arith, h.not_spawned i);
  next_one = λ i x. ground (arith, h.next_one i);
  one_waits = λ i x. ground (arith, ==_iff i s.next_instance, h.one_waits i);
  taken_up = λ i c x. ground (arith, ==_iff i s.next_instance, h.taken_up i c);
  has = λ c i x. ground (arith, ==_iff i s.next_instance, h.has c i, h.made i);
  alone = h.alone;
}

spawn_handler-IsAccepting :
    (s : Pipes) (i c : ℕ)
    → s.acceptor ≡ connecting i
    → s.instance_at i ≡ held c
    → IsAccepting s
    → IsAccepting (spawn_handler s i)
unfolding spawn_handler
spawn_handler-IsAccepting s k d e at h = record {
  made = h.made;
  not_spawned = λ i x. ground (arith, ==_iff i k, h.not_spawned i, h.next_one k);
  next_one = λ i x. ground (arith, h.next_one i);
  one_waits = λ i x. ground (arith, h.one_waits i);
  taken_up = λ i c x. ground (arith, ==_iff i k, h.taken_up i c);
  has = h.has;
  alone = h.alone;
}

fail_create-IsAccepting :
    (s : Pipes) → s.acceptor ≡ creating → IsAccepting s → IsAccepting (fail_create s)
unfolding fail_create
fail_create-IsAccepting s e h = record {
  made = h.made;
  not_spawned = h.not_spawned;
  next_one = λ i x. ground (arith, h.next_one i);
  one_waits = λ i x. ground (arith, h.one_waits i);
  taken_up = λ i c x. ground (arith, h.taken_up i c);
  has = h.has;
  alone = h.alone;
}

fail_connect-IsAccepting :
    (s : Pipes) (i : ℕ) → s.acceptor ≡ connecting i → IsAccepting s → IsAccepting (fail_connect s i)
unfolding fail_connect
fail_connect-IsAccepting s k e h = record {
  made = λ i x. ground (arith, ==_iff i k, h.made i, h.next_one k);
  not_spawned = h.not_spawned;
  next_one = λ i x. ground (arith, h.next_one i);
  one_waits = λ i x. ground (arith, ==_iff i k, h.one_waits i);
  taken_up = λ i c x. ground (arith, ==_iff i k, h.taken_up i c);
  has = λ c i x. ground (arith, ==_iff i k, h.has c i);
  alone = h.alone;
}

end_handler-IsAccepting :
    (s : Pipes) (i : ℕ) → s.spawned i ≡ true → IsAccepting s → IsAccepting (end_handler s i)
unfolding end_handler
end_handler-IsAccepting s k e h = record {
  made = λ i x. ground (arith, ==_iff i k, h.made i, h.not_spawned i);
  not_spawned = h.not_spawned;
  next_one = h.next_one;
  one_waits = λ i x. ground (arith, ==_iff i k, h.one_waits i);
  taken_up = λ i c x. ground (arith, ==_iff i k, h.taken_up i c);
  has = λ c i x. ground (arith, ==_iff i k, h.has c i);
  alone = h.alone;
}

open_pipe-IsAccepting :
    (s : Pipes) (c i : ℕ)
    → s.client c ≡ outside
    → s.instance_at i ≡ waiting
    → IsAccepting s
    → IsAccepting (open_pipe s c i)
unfolding open_pipe
open_pipe-IsAccepting s b k e at h = record {
  made = λ i x. ground (arith, ==_iff i k, h.made i);
  not_spawned = h.not_spawned;
  next_one = h.next_one;
  one_waits = λ i x. ground (arith, ==_iff i k, h.one_waits i);
  taken_up = λ i c x. ground (arith, ==_iff i k, h.taken_up i c, h.one_waits k);
  has = λ c i x. ground (arith, ==_iff i k, ==_iff c b, h.has c i);
  alone = λ c d i x y.
      ground (arith, ==_iff c b, ==_iff d b, ==_iff i k, h.has c i, h.has d i, h.alone c d i);
}

refuse-IsAccepting : (s : Pipes) (c : ℕ) → IsAccepting s → IsAccepting (refuse s c)
unfolding refuse
refuse-IsAccepting s b h = record {
  made = h.made;
  not_spawned = h.not_spawned;
  next_one = h.next_one;
  one_waits = h.one_waits;
  taken_up = h.taken_up;
  has = λ c i x. ground (arith, ==_iff c b, h.has c i);
  alone = λ c d i x y. ground (arith, ==_iff c b, ==_iff d b, h.alone c d i);
}

Step-IsAccepting : {s v : Pipes} → Step s v → IsAccepting s → IsAccepting v
Step-IsAccepting {s} (creates e) h = create_instance-IsAccepting s e h
Step-IsAccepting {s} (create_fails e) h = fail_create-IsAccepting s e h
Step-IsAccepting {s} (connects i c e at) h = spawn_handler-IsAccepting s i c e at h
Step-IsAccepting {s} (connect_fails i e) h = fail_connect-IsAccepting s i e h
Step-IsAccepting {s} (ends i e) h = end_handler-IsAccepting s i e h
Step-IsAccepting {s} (opens c i e at) h = open_pipe-IsAccepting s c i e at h
Step-IsAccepting {s} (refuses c e none_waits) h = refuse-IsAccepting s c h

Reach-IsAccepting : {s : Pipes} → Reach no_instance s → IsAccepting s
Reach-IsAccepting here = record {
  made = λ i x. absurd (x refl);
  not_spawned = λ i x. refl;
  next_one = λ i x. absurd (cc);
  one_waits = λ i x. absurd (cc);
  taken_up = λ i c x. absurd (cc);
  has = λ c i x. absurd (cc);
  alone = λ c d i x y. absurd (cc);
}
Reach-IsAccepting (next run st) = Step-IsAccepting st (Reach-IsAccepting run)

-- On Windows, whatever the interleaving: a client that has opened the pipe has an instance that no other
-- client has; this instance's connection has its task, or the loop is about to spawn it, or the instance
-- is closed.
pub client_has_instance :
    (s : Pipes) (c i : ℕ)
    → Reach no_instance s
    → s.client c ≡ attached i
    → ((d : ℕ) → s.client d ≡ attached i → d ≡ c)
      × ((s.spawned i ≡ true) ⊎ ((s.acceptor ≡ connecting i) ⊎ (s.instance_at i ≡ closed)))
client_has_instance s c i run at =
    let h = Reach-IsAccepting run in
    (
      λ d x. h.alone d c i x at,
      elim (h.has c i at) [
        | inl x ↦ elim (h.taken_up i c x) [ inl y ↦ inl y | inr y ↦ inr (inl y) ]
        | inr x ↦ inr (inr x)
      ],
    )

-- On Windows, from every reachable state in which an instance waits and two clients have not opened the
-- pipe: as both open it before the loop goes on, the second is refused.
pub second_client_refused :
    (s : Pipes) (a b i : ℕ)
    → Reach no_instance s
    → a ≢ b
    → s.instance_at i ≡ waiting
    → s.client a ≡ outside
    → s.client b ≡ outside
    → (v : Pipes) × Reach s v × (v.client a ≡ attached i) × (v.client b ≡ refused)
unfolding open_pipe refuse
second_client_refused s a b i run apart at out_a out_b =
    let h = Reach-IsAccepting run in
    let u = open_pipe s a i in
    let none_waits : (j : ℕ) → u.instance_at j ≢ waiting =
      λ j x. ground (arith, ==_iff j i, h.one_waits i, h.one_waits j) in
    let still : u.client b ≡ outside = ground (arith, ==_iff b a) in
    (
      refuse u b,
      next (next here (opens a i out_a at)) (refuses b still none_waits),
      ground (arith, ==_iff a b),
      ground arith,
    )
