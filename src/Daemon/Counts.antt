-- ===== src/Daemon/Counts.antt =====
-- daemon/src/server.rs over the router and the workers: how many responses a connection owes.
use sqlite_daemon.Prelude.{
  false, ℕ, suc, ◌+◌, String, ◌≡◌, refl, ap, ◌∙◌, true, if◌then◌else◌, List, [], ◌∷◌, ◌++◌, length,
  length-append, ◌==◌, ==_iff, Bool-cases, inl, inr, arith,
}
use sqlite_daemon.Platform.{Platform}
use sqlite_daemon.Protocol.{Json, Request, Response}
use sqlite_daemon.Router.{
  Task, idle, set, Start, respond, forward, route_start, begin, receive, remove_worker,
}
use sqlite_daemon.Service.{ask, end_wait, remove}
use sqlite_daemon.Daemon.Lost.{not_lost, Step-lost}
use sqlite_daemon.Daemon.{
  hang_up, Daemon, fresh_daemon, take_request, shut_down, write_reply, write_failure, Step, takes,
  shuts, replies, gives_up, loses_answer, loses_reply, loses_failure, works, Reach, here, next,
}
use sqlite_daemon.Daemon.Answers.{is_busy, internal-busy}

-- The responses to requests that come in order: a shutdown is the last one that is read.
abbrev due_after : ℕ → Start → ℕ
due_after rest (respond response) = 1
due_after rest (forward name) = suc rest

unfoldable pub due : {J : Json} → List (Request J) → ℕ
due [] = 0
due (req ∷ reqs) = due_after (due reqs) (route_start req)

-- The response that a task works for.
abbrev pub owed : Task → ℕ
owed at = if is_busy at then 1 else 0

-- A connection's request ends with a response.
answered_once :
    (task : ℕ → Task) (outbox : ℕ → List Response) (k c : ℕ) (response : Response)
    → is_busy (task k) ≡ true
    → length (set outbox k (outbox k ++ response ∷ []) c) + owed (set task k idle c)
      ≡ length (outbox c) + owed (task c)
answered_once task outbox k c response busy = elim (Bool-cases (c == k)) [
  | inl x ↦
      let sum = length-append (outbox k) (response ∷ []) in
      let same = (==_iff c k).0 x in rw (x, same, busy) (ground arith)
  | inr x ↦ rw x refl
]

module _ (P : Platform) (path : String → String) (first : String → P.sqlx.World)
    (sent : ℕ → List (Request P.json)) where
  open P use {json}

  -- The responses that are written, the one that is worked for, and those to the requests to come.
  abbrev total : Daemon P → ℕ → ℕ
  total d c = length (d.outbox c) + owed (d.service.router.task c) + due (d.inbox c)

  takes-total :
      (d : Daemon P) (k c : ℕ) (req : Request json) (rest : List (Request json)) (name : String)
      → d.service.router.task k ≡ idle
      → d.inbox k ≡ req ∷ rest
      → route_start req ≡ forward name
      → total (take_request P k d req rest) c ≡ total d c
  unfolding take_request ask begin due
  takes-total d k c req rest name at got x = elim (Bool-cases (c == k)) [
    | inl y ↦
        let same = (==_iff c k).0 y in
        let owes = ap due (ap d.inbox same ∙ got) ∙ ap (due_after (due rest)) x in
        let rests = ap owed (ap d.service.router.task same ∙ at) in
        rw (x, begin, y) (omega (arith, owes, rests))
    | inr y ↦ rw (x, begin, y) refl
  ]

  shuts-total :
      (d : Daemon P) (k c : ℕ) (req : Request json) (rest : List (Request json))
      (response : Response)
      → d.service.router.task k ≡ idle
      → d.inbox k ≡ req ∷ rest
      → route_start req ≡ respond response
      → total (shut_down P k d req response) c ≡ total d c
  unfolding shut_down ask begin due
  shuts-total d k c req rest response at got x = elim (Bool-cases (c == k)) [
    | inl y ↦
        let same = (==_iff c k).0 y in
        let owes = ap due (ap d.inbox same ∙ got) ∙ ap (due_after (due rest)) x in
        let sum = length-append (d.outbox k) (response ∷ []) in
        let old = ap (λ j. length (d.outbox j)) same in
        rw (x, begin, y) (omega (arith, owes, sum, old))
    | inr y ↦ rw (x, begin, y) refl
  ]

  Step-total :
      {d e : Daemon P} → Step P path d e → (c : ℕ) → e.lost c ≡ false → total e c ≡ total d c
  unfolding hang_up ask begin write_reply write_failure end_wait receive remove remove_worker
  Step-total {d} (takes k req rest name at got x) c on = takes-total d k c req rest name at got x
  Step-total {d} (shuts k req rest response at got x) c on =
      shuts-total d k c req rest response at got x
  Step-total {d} (replies k name w response at got) c on =
      ap (λ n. n + due (d.inbox c))
        (answered_once d.service.router.task d.outbox k c response (ap is_busy at))
  Step-total {d} (gives_up k name at) c on =
      ap (λ n. n + due (d.inbox c))
        (answered_once d.service.router.task d.outbox k c _ (ap is_busy at))
  Step-total {d} (loses_answer k req rest response at got x) c on =
      let other = not_lost d.lost k c on in rw (x, begin, other) refl
  Step-total {d} (loses_reply k name w response at got) c on =
      let other = not_lost d.lost k c on in rw other refl
  Step-total {d} (loses_failure k name at) c on =
      let other = not_lost d.lost k c on in rw other refl
  Step-total {d} (works v st internal) c on =
      ap (λ b. length (d.outbox c) + (if b then 1 else 0) + due (d.inbox c))
        (internal-busy P path st internal c).0

  -- Whatever the interleaving of connections and workers: the responses that a connection whose writes have
  -- not failed has written, the
  -- one that its task works for, and those to the requests to come are as many as are due to its client.
  pub responses_counted :
      {d : Daemon P}
      → Reach P path (fresh_daemon P first sent) d
      → (c : ℕ) → d.lost c ≡ false
      → length (d.outbox c) + owed (d.service.router.task c) + due (d.inbox c) ≡ due (sent c)
  responses_counted here c on = omega arith
  responses_counted (next run st) c on =
      Step-total st c on ∙ responses_counted run c (Step-lost P path st c on)
