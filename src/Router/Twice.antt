-- ===== src/Router/Twice.antt =====
-- daemon/src/router.rs: removals from the map that come late.
use text.Mathlib.TextEquality.{eq_iff}
use sqlite_daemon.Prelude.{ℕ, suc, ◌≡◌, ◌≢◌, refl, sym, ap, ◌∙◌, String, none, ==_iff, arith, subst}
use sqlite_daemon.Router.{
  running, terminated, idle, sending, removing, Router, new, send, remove_worker, clean_up, sends,
  removes, cleans, Reach, here, next, Reach_trans,
}
use sqlite_daemon.Router.Spawns.{
  after_create, respawn_run, respawn_life, respawn_others, respawn_task,
}
use sqlite_daemon.Router.Routing.{Uses, request_goes_to_own_db, used_worker_below}

module _ (a b : ℕ) (a_ne_b : a ≢ b) (name : String) (w : ℕ) (r : Router) where
  after_send : Router
  after_send = send a r name w

  after_remove : Router
  after_remove = remove_worker a after_send name

  after_respawn : Router
  after_respawn = after_create a name after_remove

  after_clean : Router
  after_clean = clean_up w after_respawn

  after_both : Router
  after_both = after_create b name after_clean

  -- the request that comes too late for the worker, and the removal by its task
  removed_run : r.life w ≡ terminated → r.task a ≡ sending name w → Reach r after_remove
  unfolding after_send after_remove send remove_worker
  removed_run over at =
      let e : after_send.task a ≡ removing name = ground arith in
      next (next here (sends a name w at)) (removes a name e)

  removed_state :
      r.life w ≡ terminated
      → (after_remove.workers name ≡ none)
        × (after_remove.task a ≡ idle)
        × (after_remove.task b ≡ r.task b)
        × (after_remove.next_worker ≡ r.next_worker)
        × (after_remove.life w ≡ terminated)
        × (after_remove.db_name w ≡ r.db_name w)
  unfolding after_send after_remove send remove_worker
  removed_state over = (
    ground (arith, eq_iff name name),
    ground arith,
    ground (arith, ==_iff b a),
    ground arith,
    ground arith,
    ground arith,
  )

  cleaned_state :
      after_respawn.db_name w ≡ name
      → (after_clean.workers name ≡ none)
        × ((j : ℕ) → j ≢ w → after_clean.life j ≡ after_respawn.life j)
  unfolding after_clean clean_up
  cleaned_state same = (rw (same, (eq_iff name name).1 refl), λ j other. ground (arith, ==_iff j w))

  cleaned_rest :
      (after_clean.next_worker ≡ after_respawn.next_worker)
      × (after_clean.db_name ≡ after_respawn.db_name)
      × (after_clean.task ≡ after_respawn.task)
  unfolding after_clean clean_up
  cleaned_rest = (refl, refl, refl)

  -- From every reachable state in which a task is about to send to a worker that has stopped and not
  -- yet been removed, and another task is idle, a state can be reached in which two workers run for
  -- the same database.
  pub two_workers_of_one_db :
      Reach new r
      → r.life w ≡ terminated
      → r.task a ≡ sending name w
      → r.task b ≡ idle
      → (s : Router) × Reach r s
        × (s.life r.next_worker ≡ running)
        × (s.life (suc r.next_worker) ≡ running)
        × (s.db_name r.next_worker ≡ name)
        × (s.db_name (suc r.next_worker) ≡ name)
  unfolding after_respawn after_both clean_up after_clean
  two_workers_of_one_db run over at_a at_b =
      let u : Uses (r.task a) name w = subst (λ k. Uses k name w) (sym at_a) (refl, refl) in
      let low = used_worker_below r a name w run u in
      let own = request_goes_to_own_db r a name w run u in
      let (free, idle_a, kept_b, n₁, over₁, own₁) = removed_state over in
      let (run₁, name₁, n₂) = respawn_life a name after_remove free in
      let (life_w, name_w) = respawn_others a name after_remove w free (ground arith) in
      let n = r.next_worker in
      let run_n : after_respawn.life n ≡ running = ap after_respawn.life (sym n₁) ∙ run₁ in
      let name_n : after_respawn.db_name n ≡ name = ap after_respawn.db_name (sym n₁) ∙ name₁ in
      let at_n : after_respawn.next_worker ≡ suc n = n₂ ∙ ap suc n₁ in
      let own_w : after_respawn.db_name w ≡ name = name_w ∙ own₁ ∙ own in
      let over_w : after_respawn.life w ≡ terminated = life_w ∙ over₁ in
      let idle_b : after_respawn.task b ≡ idle =
        respawn_task a name after_remove b free (λ e. a_ne_b (sym e)) ∙ kept_b ∙ at_b in
      let (free₂, life₂) = cleaned_state own_w in
      let run_n₂ : after_clean.life n ≡ running = life₂ n (ground arith) ∙ run_n in
      let m = after_clean.next_worker in
      let at_m : m ≡ suc n = cleaned_rest.0 ∙ at_n in
      let name_n₂ : after_clean.db_name n ≡ name = ap (λ f. f n) cleaned_rest.1 ∙ name_n in
      let idle_b₂ : after_clean.task b ≡ idle = ap (λ f. f b) cleaned_rest.2 ∙ idle_b in
      let (run₃, name₃, n₃) = respawn_life b name after_clean free₂ in
      let (life_n, db_n) = respawn_others b name after_clean n free₂ (ground arith) in
      (
        after_both,
        Reach_trans (removed_run over at_a) (
            Reach_trans (respawn_run a name after_remove idle_a free) (
              Reach_trans (next here (cleans w over_w))
                (respawn_run b name after_clean idle_b₂ free₂))),
        life_n ∙ run_n₂,
        ap after_both.life (sym at_m) ∙ run₃,
        db_n ∙ name_n₂,
        ap after_both.db_name (sym at_m) ∙ name₃,
      )
