-- ===== src/Daemon/Lost.antt =====
-- daemon/src/server.rs: the connections whose stream has failed.
use sqlite_daemon.Prelude.{ℕ, ◌≡◌, String, Bool, true, false, ◌==◌, Bool-cases, inl, inr}
use sqlite_daemon.Platform.{Platform}
use sqlite_daemon.Router.{set}
use sqlite_daemon.Daemon.{
  Daemon, take_request, shut_down, write_reply, write_failure, hang_up, Step, takes, shuts, replies,
  gives_up, loses_answer, loses_reply, loses_failure, works,
}

pub not_lost : (lost : ℕ → Bool) (k c : ℕ) → set lost k true c ≡ false → (c == k) ≡ false
not_lost lost k c on = elim (Bool-cases (c == k)) [
  | inl x ↦ absurd (let y : true ≡ false = rw x at on in cc)
  | inr x ↦ x
]

still_not_lost : (lost : ℕ → Bool) (k c : ℕ) → set lost k true c ≡ false → lost c ≡ false
still_not_lost lost k c on = rw (not_lost lost k c on) at on

module _ (P : Platform) (path : String → String) where
  -- A stream that has failed stays so.
  pub Step-lost : {d e : Daemon P} → Step P path d e → (c : ℕ) → e.lost c ≡ false → d.lost c ≡ false
  unfolding take_request shut_down write_reply write_failure hang_up
  Step-lost (takes k req rest name at got begun) c on = on
  Step-lost (shuts k req rest response at got begun) c on = on
  Step-lost (replies k name w response at got) c on = on
  Step-lost (gives_up k name at) c on = on
  Step-lost {d} (loses_answer k req rest response at got begun) c on = still_not_lost d.lost k c on
  Step-lost {d} (loses_reply k name w response at got) c on = still_not_lost d.lost k c on
  Step-lost {d} (loses_failure k name at) c on = still_not_lost d.lost k c on
  Step-lost (works v st internal) c on = on
