-- ===== src/Service/Serial/Tasks.antt =====
-- The steps of tasks, which change no history.
use sqlite_daemon.Prelude.{
  ℕ, String, ◌≡◌, sym, ap, ◌∙◌, false, List, Option, none, some, ◌==◌, ==_iff, arith, Option-cases,
  Bool-cases, inl, inr,
}
use sqlite_daemon.Platform.{Platform}
use sqlite_daemon.Worker.State.{WorkerState}
use sqlite_daemon.Router.{
  Router, Life, running, terminated, gone, Start, respond, forward, route_start, begin, fast_path,
  slow_path, receive, is_running, remove_worker, terminate, clean_up, set, set_name,
}
use sqlite_daemon.Router
use sqlite_daemon.Router.Single.{IsListed}
use sqlite_daemon.Service.History.{Action}
use sqlite_daemon.Service.Serial.Defs.{replay, IsSerial}

module _ (P : Platform) (path : String → String) (first : String → P.sqlx.World) where
  open P use {json}
  open P.sqlx use {World}

  module _ (stage : ℕ → Option (WorkerState P)) (world : String → World)
      (history : String → List (Action P)) (r : Router) where
    abbrev Now : Router → Type 0
    Now r' = IsSerial P path first r' stage world history

    pub begin-IsSerial : (t : ℕ) (x : Start) → Now r → Now (begin t r x)
    unfolding begin
    begin-IsSerial t (respond x) h = h
    begin-IsSerial t (forward n) h = record {
      current = h.current;
      quiet = h.quiet;
      unborn = h.unborn;
    }

    pub fast_path-IsSerial : (t : ℕ) (n : String) → Now r → Now (fast_path t r n)
    unfolding fast_path
    fast_path-IsSerial t n h = elim (Option-cases (r.workers n)) [
      | inl x ↦
          rw (x, fast_path) (record { current = h.current; quiet = h.quiet; unborn = h.unborn })
      | inr (v, x) ↦
          rw (x, fast_path) (record { current = h.current; quiet = h.quiet; unborn = h.unborn })
    ]

    pub send-IsSerial : (t : ℕ) (n : String) (w : ℕ) → Now r → Now (Router.send t r n w)
    unfolding Router.send
    send-IsSerial t n w h = elim (Bool-cases (is_running (r.life w))) [
      | inl x ↦
          rw (x, Router.send) (record { current = h.current; quiet = h.quiet; unborn = h.unborn })
      | inr x ↦
          rw (x, Router.send) (record { current = h.current; quiet = h.quiet; unborn = h.unborn })
    ]

    -- A worker that is spawned finds no other one for its name.
    spawn_current :
        (n : String)
        → r.workers n ≡ none
        → IsListed r
        → Now r
        → (w : ℕ) → set r.life r.next_worker running w ≡ running
        → let name = set r.db_name r.next_worker n w in
          replay P path first name (history name) ≡ (stage w, world name)
    spawn_current n free listed h w run_w = elim (Bool-cases (w == r.next_worker)) [
      | inl x ↦
          let at : w ≡ r.next_worker = (==_iff w r.next_worker).0 x in
          let fresh : stage w ≡ none = h.unborn w (omega arith) in
          rw (x, fresh)
            (h.quiet n (λ v run_v e.
              let taken : none ≡ some v = sym free ∙ sym (ap r.workers e) ∙ listed.listed v run_v in
              cc))
      | inr x ↦ let old : r.life w ≡ running = ground arith in rw x (h.current w old)
    ]

    pub slow_path-IsSerial : (t : ℕ) (n : String) → IsListed r → Now r → Now (slow_path t r n)
    unfolding slow_path
    slow_path-IsSerial t n listed h = elim (Option-cases (r.workers n)) [
      | inl x ↦
          rw (x, slow_path)
            (record {
              current = spawn_current n x listed h;
              quiet = λ name none_runs. h.quiet name (λ w run_w e.
                  let old : (w == r.next_worker) ≡ false =
                    ground (arith, listed.below w run_w, ==_iff w r.next_worker) in
                  none_runs w (rw old run_w) (rw old e));
              unborn = λ w above. h.unborn w (omega arith);
            })
      | inr (v, x) ↦
          rw (x, slow_path) (record { current = h.current; quiet = h.quiet; unborn = h.unborn })
    ]
