-- ===== src/Service/Waits/Work.antt =====
-- Runs of daemon/src/router.rs and daemon/src/worker.rs in which no new request comes in.
use sqlite_daemon.Prelude.{String}
use sqlite_daemon.Platform.{Platform}
use sqlite_daemon.Service.{Service, Step, asks, Reach, here, next}

module _ (P : Platform) (path : String → String) where
  abbrev pub IsWork : {s v : Service P} → Step P path s v → Type 0
  IsWork (asks t req e) = ⊥
  IsWork _ = Unit

  pub data Work (s : Service P) : Service P → Type 0 where
    done : Work s s
    and_then : {u v : Service P} → Work s u → (st : Step P path u v) → IsWork st → Work s v

  unfoldable pub Work_after :
      {s u v : Service P} (st : Step P path s u) → IsWork st → Work u v → Work s v
  Work_after st w done = and_then done st w
  Work_after st w (and_then run last w') = and_then (Work_after st w run) last w'

  unfoldable pub Work_trans : {s u v : Service P} → Work s u → Work u v → Work s v
  Work_trans run done = run
  Work_trans run (and_then more st w) = and_then (Work_trans run more) st w

  unfoldable pub Work-Reach : {s v : Service P} → Work s v → Reach P path s v
  Work-Reach done = here
  Work-Reach (and_then run st w) = next (Work-Reach run) st
