-- ===== src/SingleInstance/Mutex/Exclusion.antt =====
-- daemon/src/single_instance.rs on Windows: what the mutex excludes.
use sqlite_daemon.Prelude.{ℕ, ◌≡◌, sym, subst, true, false}
use sqlite_daemon.SingleInstance.Owners.{IsExclusive, set-IsExclusive, set_first-IsExclusive}
use sqlite_daemon.SingleInstance.Mutex.{
  MutexStage, start, created, holding, stopped, HasHandle, Processes, create_mutex, check_existed,
  close_handle, MutexStep, creates, opens, fails, checks, drops, MutexReach, here, next,
  none_started,
}

-- The process created the mutex, and has not closed its handle.
abbrev pub Owns : MutexStage → Type 0
Owns (created false) = Unit
Owns holding = Unit
Owns _ = ⊥

Owns-HasHandle : (st : MutexStage) → Owns st → HasHandle st
Owns-HasHandle start o = o
Owns-HasHandle (created true) o = tt
Owns-HasHandle (created false) o = tt
Owns-HasHandle holding o = tt
Owns-HasHandle stopped o = o

MutexStep-IsExclusive : {s t : Processes} → MutexStep s t → IsExclusive Owns s → IsExclusive Owns t
unfolding create_mutex check_existed close_handle
MutexStep-IsExclusive {s} (creates p e free) h =
    set_first-IsExclusive Owns s p (created false) (λ q o. free q (Owns-HasHandle (s q) o))
MutexStep-IsExclusive {s} (opens p q e has) h =
    set-IsExclusive Owns s p (created true) (λ o. absurd o) h
MutexStep-IsExclusive {s} (fails p e) h = set-IsExclusive Owns s p stopped (λ o. absurd o) h
MutexStep-IsExclusive {s} (checks p true e) h = set-IsExclusive Owns s p stopped (λ o. absurd o) h
MutexStep-IsExclusive {s} (checks p false e) h =
    set-IsExclusive Owns s p holding (λ o. subst Owns (sym e) tt) h
MutexStep-IsExclusive {s} (drops p has) h = set-IsExclusive Owns s p stopped (λ o. absurd o) h

MutexReach-IsExclusive : {s : Processes} → MutexReach none_started s → IsExclusive Owns s
MutexReach-IsExclusive here = λ p q own_p own_q. absurd own_p
MutexReach-IsExclusive (next run st) = MutexStep-IsExclusive st (MutexReach-IsExclusive run)

-- Whatever the interleaving of starting, stopping and dying processes, at most one process is a running
-- daemon.
pub mutex_daemon_unique :
    (s : Processes) (p q : ℕ) → MutexReach none_started s → s p ≡ holding → s q ≡ holding → p ≡ q
mutex_daemon_unique s p q run hold_p hold_q =
    MutexReach-IsExclusive run p q (subst Owns (sym hold_p) tt) (subst Owns (sym hold_q) tt)
