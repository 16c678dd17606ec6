-- ===== src/Router/Spawns.antt =====
-- daemon/src/router.rs, `get_or_create_worker`: the task that spawns a worker, step after step.
use text.Mathlib.TextEquality.{eq_iff}
use sqlite_daemon.Prelude.{ℕ, suc, ◌≡◌, ◌≢◌, String, none, ==_iff, arith}
use sqlite_daemon.Router.{
  forward, running, idle, looking, missed, Router, begin, fast_path, slow_path, begins, looks,
  creates, Reach, here, next,
}

-- A task finds no worker in the map, and spawns one.
module _ (t : ℕ) (name : String) (r : Router) where
  after_begin : Router
  after_begin = begin t r (forward name)

  after_look : Router
  after_look = fast_path t after_begin name

  pub after_create : Router
  after_create = slow_path t after_look name

  pub respawn_run : r.task t ≡ idle → r.workers name ≡ none → Reach r after_create
  unfolding after_begin after_look after_create begin fast_path slow_path
  respawn_run at free =
      let e₁ : after_begin.task t ≡ looking name = ground arith in
      let e₂ : after_look.task t ≡ missed name = ground arith in
      next (next (next here (begins t (forward name) at)) (looks t name e₁)) (creates t name e₂)

  pub respawn_life :
      r.workers name ≡ none
      → (after_create.life r.next_worker ≡ running)
        × (after_create.db_name r.next_worker ≡ name)
        × (after_create.next_worker ≡ suc r.next_worker)
  unfolding after_begin after_look after_create begin fast_path slow_path
  respawn_life free = (ground arith, ground arith, ground arith)

  pub respawn_others :
      (j : ℕ)
      → r.workers name ≡ none
      → j ≢ r.next_worker
      → (after_create.life j ≡ r.life j) × (after_create.db_name j ≡ r.db_name j)
  unfolding after_begin after_look after_create begin fast_path slow_path
  respawn_others j free other =
      (ground (arith, ==_iff j r.next_worker), ground (arith, ==_iff j r.next_worker))

  pub respawn_task : (j : ℕ) → r.workers name ≡ none → j ≢ t → after_create.task j ≡ r.task j
  unfolding after_begin after_look after_create begin fast_path slow_path
  respawn_task j free other = ground (arith, ==_iff j t)

  pub respawn_map :
      (m : String) → r.workers name ≡ none → m ≢ name → after_create.workers m ≡ r.workers m
  unfolding after_begin after_look after_create begin fast_path slow_path
  respawn_map m free other = ground (arith, eq_iff m name)
