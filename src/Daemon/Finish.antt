-- ===== src/Daemon/Finish.antt =====
-- daemon/src/server.rs over the router and the workers: the steps from a client's last request to the end of
-- all of its requests.
use sqlite_daemon.Prelude.{
  false, ℕ, String, ◌≡◌, refl, ap, ◌∙◌, List, [], length, arith, ◌∷◌, ==_iff, inl, inr, ◌⊎◌,
}
use sqlite_daemon.Platform.{Platform}
use sqlite_daemon.Protocol.{Request, Response}
use sqlite_daemon.Router.{idle, Start, respond, forward, route_start, begin}
use sqlite_daemon.Service.{
  Service, initial, ask, asks, looks, creates, sends, receives, loses, removes, starts, serves,
  wakes, closes, cleans,
}
use sqlite_daemon.Service
use sqlite_daemon.Service.Waits.Work.{IsWork, Work, done, and_then}
use sqlite_daemon.Service.Waits.Finish.{finish}
use sqlite_daemon.Daemon.Counts.{due, owed, responses_counted}
use sqlite_daemon.Daemon.{
  Daemon, fresh_daemon, take_request, shut_down, write_reply, write_failure, Step, takes, shuts,
  replies, gives_up, works, Reach, here, next, Reach-Service,
}

Start-cases :
    (st : Start)
    → ((response : Response) × (st ≡ respond response)) ⊎ ((name : String) × (st ≡ forward name))
Start-cases (respond response) = inl (response, refl)
Start-cases (forward name) = inr (name, refl)

module _ (P : Platform) (path : String → String) where
  open P use {json}

  abbrev Reach_trans : {d e f : Daemon P} → Reach P path d e → Reach P path e f → Reach P path d f
  Reach_trans run here = run
  Reach_trans run (next more st) = next (Reach_trans run more) st

  -- With the router and the workers come the connections, which read no request.
  abbrev Comes : Daemon P → Service P → Type 0
  Comes d v =
      (outbox : ℕ → List Response) × Reach P path d (record d { service = v; outbox = outbox })

  Step-Comes :
      (d : Daemon P) (v : Service P) (st : Service.Step P path d.service v)
      → IsWork P path st
      → (outbox : ℕ → List Response) × Step P path d (record d { service = v; outbox = outbox })
  unfolding write_reply write_failure
  Step-Comes d v (asks t req e) w = absurd w
  Step-Comes d v (receives c name w response at got) _ =
      ((write_reply P c d name w response).outbox, replies c name w response at got)
  Step-Comes d v (removes c name at) _ = ((write_failure P c d name).outbox, gives_up c name at)
  Step-Comes d v (looks t name e) _ = (d.outbox, works v (looks t name e) tt)
  Step-Comes d v (creates t name e) _ = (d.outbox, works v (creates t name e) tt)
  Step-Comes d v (sends t name w e room) _ = (d.outbox, works v (sends t name w e room) tt)
  Step-Comes d v (loses t name w e nothing dead) _ =
      (d.outbox, works v (loses t name w e nothing dead) tt)
  Step-Comes d v (starts w now alive e) _ = (d.outbox, works v (starts w now alive e) tt)
  Step-Comes d v (serves w now k req rest state alive e q) _ =
      (d.outbox, works v (serves w now k req rest state alive e q) tt)
  Step-Comes d v (wakes w now was state alive e seen) _ =
      (d.outbox, works v (wakes w now was state alive e seen) tt)
  Step-Comes d v (closes w state alive e q unmapped unused) _ =
      (d.outbox, works v (closes w state alive e q unmapped unused) tt)
  Step-Comes d v (cleans w e) _ = (d.outbox, works v (cleans w e) tt)

  Work-Comes :
      {s v : Service P} → Work P path s v → (d : Daemon P) → Comes (record d { service = s }) v
  Work-Comes {s} done d = (d.outbox, here)
  Work-Comes {s} {v} (and_then {u} run st w) d =
      let (o, came) = Work-Comes run d in
      let (o', st') = Step-Comes (record d { service = u; outbox = o }) v st w in
      (o', next came st')

module _ (P : Platform) (path : String → String) (first : String → P.sqlx.World)
    (sent : ℕ → List (Request P.json)) where
  open P use {json}

  abbrev Fresh : Daemon P → Type 0
  Fresh d = Reach P path (fresh_daemon P first sent) d

  -- The connection has finished its request, and reads the next one.
  end_request :
      (d : Daemon P) (c : ℕ)
      → Fresh d
      → (e : Daemon P) × Reach P path d e
        × (e.service.router.task c ≡ idle)
        × (e.inbox ≡ d.inbox)
        × (e.lost ≡ d.lost)
  end_request d c run =
      let (v, more, e) =
        finish P path first d.service c (d.service.router.task c) (Reach-Service P path run) refl in
      let (o, came) = Work-Comes P path more d in
      (record d { service = v; outbox = o }, came, e, refl, refl)

  abbrev CanRest : ℕ → Daemon P → Type 0
  CanRest c d =
      (e : Daemon P) × Reach P path d e
      × (e.inbox c ≡ [])
      × (e.service.router.task c ≡ idle)
      × (e.lost ≡ d.lost)

  -- It goes on with each of the requests in turn.
  serve_all :
      (reqs : List (Request json)) (d : Daemon P) (c : ℕ)
      → Fresh d
      → d.inbox c ≡ reqs
      → d.service.router.task c ≡ idle
      → CanRest c d
  unfolding shut_down take_request ask begin
  serve_all [] d c run got at = (d, here, got, at, refl)
  serve_all (req ∷ rest) d c run got at = elim (Start-cases (route_start req)) [
    | inl (response, x) ↦ (
      shut_down P c d req response,
      next here (shuts c req rest response at got x),
      rw ((==_iff c c).1 refl) refl,
      rw (x, begin) at,
      refl,
    )
    | inr (name, x) ↦
        let u = take_request P c d req rest in
        let taken : Reach P path d u = next here (takes c req rest name at got x) in
        let (v, more, at', same, kept) = end_request u c (Reach_trans P path run taken) in
        let on = Reach_trans P path taken more in
        let (e, last, nothing, at'', kept') =
          serve_all rest v c (Reach_trans P path run on)
            (ap (λ f. f c) same ∙ rw ((==_iff c c).1 refl) refl) at' in
        (e, Reach_trans P path on last, nothing, at'', kept' ∙ kept)
  ]

  -- From every state that the daemon reaches, and for every client that every response could be written to
  -- so far, the connections, the router and the
  -- workers have steps to a state where the client's connection is at rest, with none of its requests
  -- left, and has written as many responses as it owes: one for each request, up to the first shutdown.
  pub client_can_be_served :
      (d : Daemon P) (c : ℕ)
      → Reach P path (fresh_daemon P first sent) d
      → d.lost c ≡ false
      → (e : Daemon P) × Reach P path d e
        × (e.service.router.task c ≡ idle)
        × (e.inbox c ≡ [])
        × (length (e.outbox c) ≡ due (sent c))
  unfolding due
  client_can_be_served d c run written =
      let (v, more, at, same, kept) = end_request d c run in
      let (e, last, nothing, at', kept') =
        serve_all (v.inbox c) v c (Reach_trans P path run more) refl at in
      let on = Reach_trans P path more last in
      let total =
        responses_counted P path first sent (Reach_trans P path run on) c
          (ap (λ f. f c) (kept' ∙ kept) ∙ written) in
      let none_due = ap due nothing in
      let none_owed = ap owed at' in
      (e, on, at', nothing, omega (arith, total, none_due, none_owed))
