-- ===== src/Actor/Examples.antt =====
-- The comparison of the actor with the worker at a concrete input, over the engine of Worker/Sqlite/Log.
use sqlite_daemon.Prelude.{[], ◌∷◌}
use sqlite_daemon.Protocol.{Statement}
use sqlite_daemon.Worker.Sqlite.Log.{log_json, log_platform, one_open}
use sqlite_daemon.Worker.Batch.{execute_atomic_batch}
use sqlite_daemon.Actor.{actor_atomic_batch}
use sqlite_daemon.Actor.Same.{Agree, actor_atomic_batch-Agree}

abbrev insert : Statement log_json
insert = record { sql = "INSERT INTO t VALUES (1)"; params = [] }

actor_atomic_batch-Agree_example :
    Agree log_platform 0
      (actor_atomic_batch log_platform (insert ∷ []) 0 one_open)
      (execute_atomic_batch log_platform (insert ∷ []) 0 one_open)
actor_atomic_batch-Agree_example = actor_atomic_batch-Agree log_platform (insert ∷ []) 0 one_open
