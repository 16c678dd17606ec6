-- ===== src/Service/Serial/Workers.antt =====
-- The steps of workers, each of which is an action of one history.
use text.Mathlib.TextEquality.{eq_iff}
use text.Mathlib.Text.{◌==◌ as str_eq}
use sqlite_daemon.Prelude.{
  ℕ, ◌≤◌, String, ◌≡◌, ◌≢◌, refl, sym, ap, ◌∙◌, subst, false, List, [], ◌∷◌, ◌++◌, Option, none,
  some, ◌==◌, ==_iff, arith, Bool-cases, inl, inr,
}
use sqlite_daemon.Platform.{Platform}
use sqlite_daemon.Worker.State.{WorkerState}
use sqlite_daemon.Router.{Router, running, terminated, terminate, clean_up, set, set_name}
use sqlite_daemon.Router.Single.{IsListed}
use sqlite_daemon.Service.History.{Action, perform, run, run-append}
use sqlite_daemon.Service.{Service, after_action, acted, act, leave}
use sqlite_daemon.Service.Serial.Defs.{replay, IsSerial, IsSerialNow}

module _ (P : Platform) (path : String → String) (first : String → P.sqlx.World) where
  open P use {json}
  open P.sqlx use {World}

  -- Two running workers in the map under one name are one.
  listed_unique :
      (r : Router) (v w : ℕ)
      → IsListed r
      → r.life v ≡ running
      → r.life w ≡ running
      → r.db_name v ≡ r.db_name w
      → v ≡ w
  listed_unique r v w listed run_v run_w same =
      let e : some v ≡ some w =
        sym (listed.listed v run_v) ∙ ap r.workers same ∙ listed.listed w run_w in
      cc

  -- The worker `w` acts on its database, which `actions` and the state and world they lead to are for.
  module _ (stage : ℕ → Option (WorkerState P)) (world : String → World)
      (history : String → List (Action P)) (r : Router) (w : ℕ) (actions : List (Action P))
      (v : World) (alive : r.life w ≡ running) (listed : IsListed r)
      (h : IsSerial P path first r stage world history) where
    abbrev n : String
    n = r.db_name w

    others :
        (st : Option (WorkerState P)) (j : ℕ)
        → r.life j ≡ running
        → j ≢ w
        → let name = r.db_name j in
          replay P path first name (set_name history n actions name)
          ≡ (set stage w st j, set_name world n v name)
    others st j run_j other =
        let apart : str_eq (r.db_name j) n ≡ false =
          ground (arith, eq_iff (r.db_name j) n, listed_unique r j w listed run_j alive) in
        let apart_j : (j == w) ≡ false = ground (arith, ==_iff j w) in
        rw (apart, apart_j) (h.current j run_j)

    itself :
        (st : Option (WorkerState P))
        → replay P path first n actions ≡ (st, v)
        → replay P path first n (set_name history n actions n)
          ≡ (set stage w st w, set_name world n v n)
    itself st led = rw ((eq_iff n n).1 refl, (==_iff w w).1 refl) led

    still_quiet :
        (name : String)
        → name ≢ n
        → ((k : ℕ) → r.life k ≡ running → r.db_name k ≢ name)
        → replay P path first name (set_name history n actions name)
          ≡ (none, set_name world n v name)
    still_quiet name other none_runs =
        let apart : str_eq name n ≡ false = ground (arith, eq_iff name n) in
        rw apart (h.quiet name none_runs)

    unborn_others :
        (st : Option (WorkerState P)) (j : ℕ) → r.next_worker ≤ j → set stage w st j ≡ none
    unborn_others st j above = ground (arith, listed.below w alive, ==_iff j w, h.unborn j)

    not_terminated : (j : ℕ) → set r.life w terminated j ≡ running → (j ≢ w) × (r.life j ≡ running)
    not_terminated j run_j = (ground (arith, ==_iff j w), ground (arith, ==_iff j w))

    after_action-IsSerial :
        (st : Option (WorkerState P))
        → replay P path first n actions ≡ (st, v)
        → IsSerial P path first
            (after_action P st w r)
            (set stage w st)
            (set_name world n v)
            (set_name history n actions)
    unfolding terminate
    after_action-IsSerial (some state) led = record {
      current = λ j run_j. elim (Bool-cases (j == w)) [
        | inl x ↦
            subst
              (λ k.
                replay P path first (r.db_name k) (set_name history n actions (r.db_name k))
                ≡ (set stage w (some state) k, set_name world n v (r.db_name k)))
              (sym ((==_iff j w).0 x)) (itself (some state) led)
        | inr x ↦ others (some state) j run_j (λ e. ground (arith, ==_iff j w))
      ];
      quiet = λ name none_runs. still_quiet name (λ e. none_runs w alive (sym e)) none_runs;
      unborn = unborn_others (some state);
    }
    after_action-IsSerial none led = record {
      current = λ j run_j. others none j (not_terminated j run_j).1 (not_terminated j run_j).0;
      quiet = λ name none_runs. elim (Bool-cases (str_eq name n)) [
        | inl x ↦
            rw x (
              subst (λ m. replay P path first m actions ≡ (none, v)) (sym ((eq_iff name n).0 x))
                led)
        | inr x ↦
            let other : name ≢ n = λ e. ground (arith, eq_iff name n) in
            still_quiet name other (λ k run_k e.
              let apart : k ≢ w = λ q. other (sym e ∙ ap r.db_name q) in
              none_runs k (ground (arith, ==_iff k w)) e)
      ];
      unborn = unborn_others none;
    }

  pub act-IsSerial :
      (w : ℕ) (a : Action P) (s : Service P)
      → s.router.life w ≡ running
      → IsListed s.router
      → IsSerialNow P path first s
      → IsSerialNow P path first (act P path w s a)
  unfolding act
  act-IsSerial w a s alive listed h =
      let n = s.router.db_name w in
      let acts = s.history n ++ a ∷ [] in
      after_action-IsSerial s.stage s.world s.history s.router w acts (acted P path w s a).1 alive
        listed h (acted P path w s a).0
        (run-append P (path n) n (s.history n) (a ∷ []) (none, first n)
          ∙ unfold run in ap (perform P (path n) n a) (h.current w alive))

  pub leave-IsSerial :
      (w : ℕ) (s : Service P)
      → s.router.life w ≡ terminated
      → IsSerialNow P path first s
      → IsSerialNow P path first (leave P w s)
  unfolding leave clean_up
  leave-IsSerial w s over h = record {
    current = λ j run_j. h.current j (ground (arith, ==_iff j w));
    quiet =
        λ name none_runs. h.quiet name (λ k run_k e. none_runs k (ground (arith, ==_iff k w)) e);
    unborn = h.unborn;
  }
