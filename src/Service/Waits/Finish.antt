-- ===== src/Service/Waits/Finish.antt =====
-- daemon/src/router.rs with the loop of daemon/src/worker.rs: from where a task stands, the calls of
-- `route_request` that are left.
use sqlite_daemon.Prelude.{
  ℕ, ◌≤◌, String, ◌≡◌, refl, sym, ap, ◌∙◌, length, none, some, ==_iff, arith, Bool-cases,
  Option-cases, inl, inr,
}
use sqlite_daemon.Platform.{Platform}
use sqlite_daemon.Worker.State.{WorkerState}
use sqlite_daemon.Router.{
  Router, Life, running, Task, idle, looking, missed, sending, awaiting, removing, is_running,
  terminate, fast_path, slow_path, remove_worker,
}
use sqlite_daemon.Router
use sqlite_daemon.Service.History.{start}
use sqlite_daemon.Service.{
  Service, initial, look, create, send, remove, after_action, acted, act, serve, channel_capacity,
  HasRoom, Step, looks, creates, sends, removes, starts, serves, Reach, next,
}
use sqlite_daemon.Service.Routes.{Reach_trans}
use sqlite_daemon.Service.Waits.Answers.{
  is_running-cases, List-cases, after_action-task, serve-goes_on, waiting_can_end,
}
use sqlite_daemon.Service.Waits.Work.{Work, done, and_then, Work_after, Work_trans, Work-Reach}
use sqlite_daemon.Service.Waits.Room.{queue_bounded}

module _ (P : Platform) (path : String → String) (first : String → P.sqlx.World) where
  open P use {json}

  -- The task is where it was, and can go on.
  abbrev CanSend : ℕ → Task → ℕ → Service P → Type 0
  CanSend t at w s = (v : Service P) × Work P path s v × (v.router.task t ≡ at) × HasRoom P v w

  -- The worker takes one command of a full queue.
  serve_one :
      (s : Service P) (t : ℕ) (at : Task) (w : ℕ) (state : WorkerState P)
      → s.router.task t ≡ at
      → s.router.life w ≡ running
      → s.stage w ≡ some state
      → length (s.queue w) ≤ channel_capacity
      → CanSend t at w s
  unfolding serve act
  serve_one s t at w state e alive staged low = elim (List-cases (s.queue w)) [
    | inl q ↦ let same = ap length q in (s, done, e, λ r. ground arith)
    | inr ((k, req), rest, q) ↦
        let (x, same) = serve-goes_on P path first s w k req rest state staged in
        let all = ap length q in
        (
          serve P path w s 0 k req rest state,
          Work_after P path (serves w 0 k req rest state alive staged q) tt done,
          ap (λ r. r.task t) same ∙ e,
          λ r. rw ((==_iff w w).1 refl) (ground arith),
        )
  ]

  -- A worker that is not there yet starts first.
  start_one :
      (s : Service P) (t : ℕ) (at : Task) (w : ℕ)
      → s.router.task t ≡ at
      → s.router.life w ≡ running
      → s.stage w ≡ none
      → length (s.queue w) ≤ channel_capacity
      → CanSend t at w s
  unfolding act terminate
  start_one s t at w e alive staged low =
      let u = act P path w s (start 0) in
      let st : Step P path s u = starts w 0 alive staged in
      let c = (acted P path w s (start 0)).0 in
      let e' : u.router.task t ≡ at =
        ap (λ f. f t) (after_action-task P path first c w s.router) ∙ e in
      elim (Option-cases c) [
        | inl x ↦
            let over : u.router.life w ≡ Life.terminated =
              ap (λ y. (after_action P y w s.router).life w) x ∙ rw ((==_iff w w).1 refl) refl in
            (
              u,
              Work_after P path st tt done,
              e',
              λ r. absurd (let z : Life.terminated ≡ running = sym over ∙ r in cc),
            )
        | inr (state, x) ↦
            let (v, run, e'', room) =
              serve_one u t at w state e' (ap (λ y. (after_action P y w s.router).life w) x ∙ alive)
                (rw ((==_iff w w).1 refl) x) low in
            (v, Work_after P path st tt run, e'', room)
      ]

  make_room :
      (s : Service P) (t : ℕ) (at : Task) (w : ℕ)
      → s.router.task t ≡ at
      → length (s.queue w) ≤ channel_capacity
      → CanSend t at w s
  make_room s t at w e low = elim (is_running-cases (s.router.life w)) [
    | inr ended ↦ (s, done, e, λ r. absurd (ended r))
    | inl alive ↦ elim (Option-cases (s.stage w)) [
      | inl staged ↦ start_one s t at w e alive staged low
      | inr (state, staged) ↦ serve_one s t at w state e alive staged low
    ]
  ]

  abbrev CanFinish : ℕ → Service P → Type 0
  CanFinish t s = (v : Service P) × Work P path s v × (v.router.task t ≡ idle)

  CanFinish_after : {t : ℕ} {s u : Service P} → Work P path s u → CanFinish t u → CanFinish t s
  CanFinish_after run (v, more, e) = (v, Work_trans P path run more, e)

  finish_removing :
      (s : Service P) (t : ℕ) (name : String) → s.router.task t ≡ removing name → CanFinish t s
  unfolding remove remove_worker
  finish_removing s t name e = (
    remove P t s name,
    Work_after P path (removes t name e) tt done,
    rw ((==_iff t t).1 refl) refl,
  )

  finish_awaiting :
      (s : Service P) (t : ℕ) (name : String) (w : ℕ)
      → Reach P path (initial P first) s
      → s.router.task t ≡ awaiting name w
      → CanFinish t s
  finish_awaiting s t name w before e =
      let (v, run, ended) = waiting_can_end P path first s t name w before e in
      elim ended [ inl x ↦ (v, run, x) | inr x ↦ CanFinish_after run (finish_removing v t name x) ]

  finish_sending :
      (s : Service P) (t : ℕ) (name : String) (w : ℕ)
      → Reach P path (initial P first) s
      → s.router.task t ≡ sending name w
      → CanFinish t s
  unfolding send Router.send
  finish_sending s t name w before e =
      let (u, run, e', room) =
        make_room s t (sending name w) w e (queue_bounded P path first before w) in
      let v = send P t u name w in
      let sent : Work P path s v = and_then run (sends t name w e' room) tt in
      CanFinish_after sent (elim (Bool-cases (is_running (u.router.life w))) [
        | inl x ↦
            finish_awaiting v t name w (Reach_trans P path before (Work-Reach P path sent))
              (rw (x, (==_iff t t).1 refl) refl)
        | inr x ↦ finish_removing v t name (rw (x, (==_iff t t).1 refl) refl)
      ])

  finish_missed :
      (s : Service P) (t : ℕ) (name : String)
      → Reach P path (initial P first) s
      → s.router.task t ≡ missed name
      → CanFinish t s
  unfolding create slow_path
  finish_missed s t name before e =
      let v = create P t s name in
      let st : Step P path s v = creates t name e in
      CanFinish_after (and_then done st tt) (elim (Option-cases (s.router.workers name)) [
        | inl x ↦
            finish_sending v t name s.router.next_worker (next before st)
              (rw (x, slow_path, (==_iff t t).1 refl) refl)
        | inr (w, x) ↦
            finish_sending v t name w (next before st) (rw (x, slow_path, (==_iff t t).1 refl) refl)
      ])

  finish_looking :
      (s : Service P) (t : ℕ) (name : String)
      → Reach P path (initial P first) s
      → s.router.task t ≡ looking name
      → CanFinish t s
  unfolding look fast_path
  finish_looking s t name before e =
      let v = look P t s name in
      let st : Step P path s v = looks t name e in
      CanFinish_after (and_then done st tt) (elim (Option-cases (s.router.workers name)) [
        | inl x ↦
            finish_missed v t name (next before st) (rw (x, fast_path, (==_iff t t).1 refl) refl)
        | inr (w, x) ↦
            finish_sending v t name w (next before st) (rw (x, fast_path, (==_iff t t).1 refl) refl)
      ])

  -- Wherever a task stands in `route_request`, there are steps to the end of its request in which no other
  -- request comes in.
  pub finish :
      (s : Service P) (t : ℕ) (at : Task)
      → Reach P path (initial P first) s
      → s.router.task t ≡ at
      → CanFinish t s
  finish s t idle before e = (s, done, e)
  finish s t (looking name) before e = finish_looking s t name before e
  finish s t (missed name) before e = finish_missed s t name before e
  finish s t (sending name w) before e = finish_sending s t name w before e
  finish s t (awaiting name w) before e = finish_awaiting s t name w before e
  finish s t (removing name) before e = finish_removing s t name e
