-- ===== src/Service/Waits/Answers.antt =====
-- daemon/src/router.rs with the loop of daemon/src/worker.rs: the end of a wait for a reply.
use sqlite_daemon.Prelude.{
  ℕ, suc, zero, ◌≤◌, String, ◌≡◌, ◌≢◌, refl, ap, ◌∙◌, subst, true, false, List, [], ◌∷◌, length,
  Option, none, some, ==_iff, arith, Option-cases, inl, inr, ◌⊎◌,
}
use sqlite_daemon.Platform.{Platform}
use sqlite_daemon.Protocol.{Request, Response}
use sqlite_daemon.Worker.State.{WorkerState}
use sqlite_daemon.Worker.Handlers.{handle_request}
use sqlite_daemon.Worker.Loop.{command, turn}
use sqlite_daemon.Router.{Router, Life, running, idle, removing, awaiting, terminate, receive}
use sqlite_daemon.Service.History.{Current, start, event, perform, perform_goes_on}
use sqlite_daemon.Service.{
  Service, initial, end_wait, after_action, acted, act, serve, Step, receives, loses, starts,
  serves, Reach,
}
use sqlite_daemon.Service.Waits.{Awaits, Awaits-length, Step-Awaits, Reach-Awaits, all_served}
use sqlite_daemon.Service.Waits.Work.{Work, done, Work_after, Work_trans}
use sqlite_daemon.Service.Waits.Tasks.{Reach-AllWait}

pub is_running-cases : (l : Life) → (l ≡ running) ⊎ (l ≢ running)
is_running-cases Life.running = inl refl
is_running-cases Life.absent = inr (λ e. cc)
is_running-cases Life.terminated = inr (λ e. cc)
is_running-cases Life.gone = inr (λ e. cc)

pub List-cases {ℓ} :
    {A : Type ℓ} (xs : List A) → (xs ≡ []) ⊎ ((x : A) × (ys : List A) × (xs ≡ x ∷ ys))
List-cases [] = inl refl
List-cases (x ∷ xs) = inr (x, xs, refl)

module _ (P : Platform) (path : String → String) (first : String → P.sqlx.World) where
  open P use {json}

  -- The reply is there, or the worker has ended.
  abbrev pub Settled : Service P → ℕ → ℕ → Type 0
  Settled s k w =
      ((response : Response) × (s.replies k ≡ some response)) ⊎ (s.router.life w ≢ running)

  settled : (s : Service P) (k w : ℕ) → Awaits P path s k w 0 → Settled s k w
  settled s k w (inl h) = inl h
  settled s k w (inr (inl h)) = inr h.1
  settled s k w (inr (inr (i, below, h))) = absurd (ground arith)

  -- However the tasks and the workers interleave: once its worker has served as many commands as are in
  -- the worker's queue now, a task that waits now has its reply, or the worker has ended.
  pub waiting_ends :
      (s v : Service P) (t : ℕ) (name : String) (w : ℕ) (before : Reach P path (initial P first) s)
      (later : Reach P path s v)
      → s.router.task t ≡ awaiting name w
      → length (s.queue w) ≤ all_served P path w later
      → Settled v (s.channel t) w
  waiting_ends s v t name w before later at enough = settled v (s.channel t) w (
      Reach-Awaits P path later (s.channel t) w (length (s.queue w)) 0 (ground arith)
        (Reach-AllWait P path first before t name w at))

  pub after_action-task :
      (state : Option (WorkerState P)) (w : ℕ) (r : Router)
      → (after_action P state w r).task ≡ r.task
  unfolding terminate
  after_action-task (some state) w r = refl
  after_action-task none w r = refl

  -- The task still waits for the worker, on the channel.
  record Waiting (t : ℕ) (name : String) (w k : ℕ) (s : Service P) : Type 0 where
    at : s.router.task t ≡ awaiting name w
    by : s.channel t ≡ k

  abbrev Finishes : ℕ → String → ℕ → ℕ → Service P → Type 0
  Finishes t name w k s = (v : Service P) × Work P path s v × Waiting t name w k v × Settled v k w

  pub serve-goes_on :
      (s : Service P) (w k : ℕ) (req : Request json) (rest : List (ℕ × Request json))
      (state : WorkerState P)
      → s.stage w ≡ some state
      → let v = serve P path w s 0 k req rest state in
        ((state' : WorkerState P) × (v.stage w ≡ some state')) × (v.router ≡ s.router)
  unfolding serve act perform turn
  serve-goes_on s w k req rest state e =
      let n = s.router.db_name w in
      let later = (handle_request P req (record state { last_activity = 0 }) (s.world n)).0.1 in
      let c =
        ap (λ x. (perform P (path n) n (event (command 0 req)) (x, s.world n)).0) e
        ∙ ap (λ (x : Current P). x.0)
            (perform_goes_on P (path n) n (command 0 req) state later (s.world n) refl) in
      ((later, rw ((==_iff w w).1 refl) c), ap (λ x. after_action P x w s.router) c)

  -- The worker serves its queue up to the task's command.
  drain :
      (n : ℕ) (t : ℕ) (name : String) (w k : ℕ) (s : Service P) (state : WorkerState P)
      → s.stage w ≡ some state
      → s.router.life w ≡ running
      → Waiting t name w k s
      → Awaits P path s k w n
      → Finishes t name w k s
  unfolding serve act
  drain zero t name w k s state e alive waits h = (s, done, waits, settled s k w h)
  drain (suc n) t name w k s state e alive waits h = elim (List-cases (s.queue w)) [
    | inl q ↦
        let h' = Awaits-length P path s k w (suc n) h in
        (s, done, waits, settled s k w (subst (λ cs. Awaits P path s k w (length cs)) q h'))
    | inr ((j, req), rest, q) ↦
        let st : Step P path s (serve P path w s 0 j req rest state) =
          serves w 0 j req rest state alive e q in
        let ((state', x), same) = serve-goes_on s w j req rest state e in
        let (u, run, waits', over) =
          drain n t name w k (serve P path w s 0 j req rest state) state' x
            (ap (λ r. r.life w) same ∙ alive)
            (record { at = ap (λ r. r.task t) same ∙ waits.at; by = waits.by })
            (Step-Awaits P path st k w (suc n) n (rw ((==_iff w w).1 refl) (ground arith)) h) in
        (u, Work_after P path st tt run, waits', over)
  ]

  -- A worker that is not there yet starts, and serves or ends.
  begin_drain :
      (t : ℕ) (name : String) (w k n : ℕ) (s : Service P)
      → s.stage w ≡ none
      → s.router.life w ≡ running
      → Waiting t name w k s
      → Awaits P path s k w n
      → Finishes t name w k s
  unfolding act terminate
  begin_drain t name w k n s e alive waits h =
      let st : Step P path s (act P path w s (start 0)) = starts w 0 alive e in
      let c = (acted P path w s (start 0)).0 in
      let waits' : Waiting t name w k (act P path w s (start 0)) = record {
        at = ap (λ f. f t) (after_action-task c w s.router) ∙ waits.at;
        by = waits.by;
      } in
      elim (Option-cases c) [
        | inl x ↦
            let over : (act P path w s (start 0)).router.life w ≡ Life.terminated =
              ap (λ y. (after_action P y w s.router).life w) x ∙ rw ((==_iff w w).1 refl) refl in
            (act P path w s (start 0), Work_after P path st tt done, waits', inr (λ y. cc))
        | inr (state, x) ↦
            let (u, run, waits'', over) =
              drain n t name w k (act P path w s (start 0)) state (rw ((==_iff w w).1 refl) x)
                (ap (λ y. (after_action P y w s.router).life w) x ∙ alive) waits'
                (Step-Awaits P path st k w n n (ground arith) h) in
            (u, Work_after P path st tt run, waits'', over)
      ]

  settle :
      (t : ℕ) (name : String) (w k n : ℕ) (s : Service P)
      → Waiting t name w k s
      → Awaits P path s k w n
      → Finishes t name w k s
  settle t name w k n s waits h = elim (is_running-cases (s.router.life w)) [
    | inr ended ↦ (s, done, waits, inr ended)
    | inl alive ↦ elim (Option-cases (s.stage w)) [
      | inl e ↦ begin_drain t name w k n s e alive waits h
      | inr (state, e) ↦ drain n t name w k s state e alive waits h
    ]
  ]

  -- The request is answered, or is about to be answered with an error.
  abbrev pub HasEnded : ℕ → String → Service P → Type 0
  HasEnded t name s = (s.router.task t ≡ idle) ⊎ (s.router.task t ≡ removing name)

  conclude :
      (t : ℕ) (name : String) (w k : ℕ) (s : Service P)
      → Waiting t name w k s
      → Settled s k w
      → (v : Service P) × Work P path s v × HasEnded t name v
  unfolding end_wait receive
  conclude t name w k s waits (inl (response, e)) = (
    end_wait P t s name w true,
    Work_after P path (receives t name w response waits.at (ap s.replies waits.by ∙ e)) tt done,
    inl (rw ((==_iff t t).1 refl) refl),
  )
  conclude t name w k s waits (inr ended) = elim (Option-cases (s.replies (s.channel t))) [
    | inl e ↦ (
      end_wait P t s name w false,
      Work_after P path (loses t name w waits.at e ended) tt done,
      inr (rw ((==_iff t t).1 refl) refl),
    )
    | inr (response, e) ↦ (
      end_wait P t s name w true,
      Work_after P path (receives t name w response waits.at e) tt done,
      inl (rw ((==_iff t t).1 refl) refl),
    )
  ]

  -- From every reachable state, a task that waits can be brought to the end of its wait.
  pub waiting_can_end :
      (s : Service P) (t : ℕ) (name : String) (w : ℕ)
      → Reach P path (initial P first) s
      → s.router.task t ≡ awaiting name w
      → (v : Service P) × Work P path s v × HasEnded t name v
  waiting_can_end s t name w before at =
      let (u, run, waits, over) =
        settle t name w (s.channel t) (length (s.queue w)) s (record { at = at; by = refl })
          (Reach-AllWait P path first before t name w at) in
      let (v, more, ended) = conclude t name w (s.channel t) u waits over in
      (v, Work_trans P path run more, ended)
