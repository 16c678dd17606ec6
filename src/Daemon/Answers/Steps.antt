-- ===== src/Daemon/Answers/Steps.antt =====
-- Every step of the daemon, and the responses of each connection.
use sqlite_daemon.Prelude.{
  ℕ, ◌≡◌, refl, sym, ap, ◌∙◌, subst, String, true, false, List, [], ◌∷◌, ◌++◌, append_assoc, some,
  ◌==◌, ==_iff, Bool-cases, inl, inr,
}
use sqlite_daemon.Platform.{Platform}
use sqlite_daemon.Protocol.{Request, Response}
use sqlite_daemon.Router.{
  idle, awaiting, removing, respond, forward, route_start, extract_db_name, begin, receive,
  remove_worker, set,
}
use sqlite_daemon.Service.History.{Action}
use sqlite_daemon.Service
use sqlite_daemon.Service.{Service, initial, ask, end_wait, remove}
use sqlite_daemon.Service.Routes.{AllKept}
use sqlite_daemon.Service.Replies.{Names, Reach-Delivers, reply_is_own}
use sqlite_daemon.Daemon.{
  hang_up, Daemon, fresh_daemon, communication_failed, take_request, shut_down, write_reply,
  write_failure, Step, takes, shuts, replies, gives_up, loses_answer, loses_reply, loses_failure,
  works, Reach, here, next, Reach-Service,
}
use sqlite_daemon.Daemon.Answers.{IsAnswer, AllAnswered, AllAnswered-snoc, is_busy, internal-busy}
use sqlite_daemon.Daemon.Answers.Serving.{
  Pends, Serving, kept-Serving, ended-Serving, answered-Serving,
}

module _ (P : Platform) (path : String → String) (first : String → P.sqlx.World)
    (sent : ℕ → List (Request P.json)) where
  open P use {json}

  abbrev pub Serves : (String → List (Action P)) → List (Request json) → List Response → Type 0
  Serves history all responses =
      (past : List (Request json)) × (rest : List (Request json)) × (all ≡ past ++ rest)
      × AllAnswered P path first history past responses

  -- The inbox of an idle connection that has a message in it is what is not answered.
  idle_rest :
      (d : Daemon P) (c : ℕ) (req : Request json) (rest : List (Request json))
      → d.service.router.task c ≡ idle
      → d.inbox c ≡ req ∷ rest
      → (h : Serving P path first sent d c) → h.rest ≡ req ∷ rest
  idle_rest d c req rest at got h =
      elim (subst (λ b. Pends P path first sent b (d.service.request c) (d.inbox c) h.rest)
        (ap is_busy at) h.pends) [ inl x ↦ sym x ∙ got | inr x ↦ cc ]

  takes-Serving :
      (d : Daemon P) (c : ℕ) (req : Request json) (rest : List (Request json)) (name : String)
      → d.service.router.task c ≡ idle
      → d.inbox c ≡ req ∷ rest
      → route_start req ≡ forward name
      → Serving P path first sent d c
      → Serving P path first sent (take_request P c d req rest) c
  unfolding take_request ask begin
  takes-Serving d c req rest name at got begun h =
      let same : (c == c) ≡ true = (==_iff c c).1 refl in
      let whole = idle_rest d c req rest at got h in
      let busy : is_busy ((take_request P c d req rest).service.router.task c) ≡ true =
        rw (begun, same) refl in
      record {
        past = h.past;
        rest = h.rest;
        split = h.split;
        answered = h.answered;
        pends =
            subst
              (λ b.
                Pends P path first sent b (set d.service.request c req c) (set d.inbox c rest c)
                  h.rest)
              (sym busy) (rw same whole);
      }

  shuts-Serving :
      (d : Daemon P) (c : ℕ) (req : Request json) (rest : List (Request json)) (response : Response)
      → d.service.router.task c ≡ idle
      → d.inbox c ≡ req ∷ rest
      → route_start req ≡ respond response
      → Serving P path first sent d c
      → Serving P path first sent (shut_down P c d req response) c
  unfolding shut_down ask begin
  shuts-Serving d c req rest response at got begun h =
      let same : (c == c) ≡ true = (==_iff c c).1 refl in
      let free : is_busy ((shut_down P c d req response).service.router.task c) ≡ false =
        rw begun (ap is_busy at) in
      record {
        past = h.past ++ req ∷ [];
        rest = rest;
        split =
            h.split
            ∙ ap (λ l. h.past ++ l) (idle_rest d c req rest at got h)
            ∙ sym (append_assoc h.past (req ∷ []) rest);
        answered = rw same (
            AllAnswered-snoc P path first d.service.history h.past (d.outbox c) req response
              h.answered (inl begun));
        pends =
            subst
              (λ b.
                Pends P path first sent b (set d.service.request c req c) (set d.inbox c [] c) rest)
              (sym free) (inr (rw same refl));
      }

  replies-Serving :
      (d : Daemon P) (c : ℕ) (name : String) (w : ℕ) (response : Response)
      → d.service.router.task c ≡ awaiting name w
      → IsAnswer P path first d.service.history (d.service.request c) response
      → Serving P path first sent d c
      → Serving P path first sent (write_reply P c d name w response) c
  unfolding write_reply end_wait receive
  replies-Serving d c name w response at answer h =
      let same : (c == c) ≡ true = (==_iff c c).1 refl in
      answered-Serving P path first sent d (write_reply P c d name w response) c response
        (ap is_busy at) (rw same refl) refl (rw same refl) refl answer h

  gives_up-Serving :
      (d : Daemon P) (c : ℕ) (name : String)
      → d.service.router.task c ≡ removing name
      → extract_db_name (d.service.request c) ≡ some name
      → Serving P path first sent d c
      → Serving P path first sent (write_failure P c d name) c
  unfolding write_failure remove remove_worker
  gives_up-Serving d c name at own h =
      let same : (c == c) ≡ true = (==_iff c c).1 refl in
      answered-Serving P path first sent d (write_failure P c d name) c communication_failed
        (ap is_busy at) (rw same refl) refl (rw same refl) refl (inr (name, own, inl refl)) h

  -- A step of the connection `k`, and another one.
  other_cases : (B : ℕ → Type 0) (k c : ℕ) → B k → ((c == k) ≡ false → B c) → B c
  other_cases B k c self other = elim (Bool-cases (c == k)) [
    | inl x ↦ subst B (sym ((==_iff c k).0 x)) self
    | inr x ↦ other x
  ]

  Step-Serving :
      {d e : Daemon P} (st : Step P path d e)
      (run : Service.Reach P path (initial P first) d.service)
      → AllKept P path run
      → ((c : ℕ) → Serving P path first sent d c)
      → (c : ℕ) → Serving P path first sent e c
  unfolding hang_up take_request shut_down write_reply write_failure ask end_wait remove begin
      receive remove_worker
  Step-Serving {d} (takes k req rest name at got begun) run kept h c =
      other_cases (Serving P path first sent (take_request P k d req rest)) k c
        (takes-Serving d k req rest name at got begun (h k))
        (λ x.
          kept-Serving P path first sent d _ (takes k req rest name at got begun) c refl (rw x refl)
            (rw x refl) (rw (begun, x) refl) (h c))
  Step-Serving {d} (shuts k req rest response at got begun) run kept h c =
      other_cases (Serving P path first sent (shut_down P k d req response)) k c
        (shuts-Serving d k req rest response at got begun (h k))
        (λ x.
          kept-Serving P path first sent d _ (shuts k req rest response at got begun) c (rw x refl)
            (rw x refl) (rw x refl) (rw begun refl) (h c))
  Step-Serving {d} (replies k name w response at got) run kept h c =
      let (own, turn) = reply_is_own P path first d.service k name w response run kept at got in
      other_cases (Serving P path first sent (write_reply P k d name w response)) k c
        (replies-Serving d k name w response at (inr (name, own, inr turn)) (h k))
        (λ x.
          kept-Serving P path first sent d _ (replies k name w response at got) c (rw x refl) refl
            refl (rw x refl) (h c))
  Step-Serving {d} (gives_up k name at) run kept h c =
      let own =
        (Reach-Delivers P path first run kept).named k name
          (subst (λ a. Names P path first a name) (sym at) refl) in
      other_cases (Serving P path first sent (write_failure P k d name)) k c
        (gives_up-Serving d k name at own (h k))
        (λ x.
          kept-Serving P path first sent d _ (gives_up k name at) c (rw x refl) refl refl
            (rw x refl) (h c))
  Step-Serving {d} (loses_answer k req rest response at got begun) run kept h c =
      other_cases (Serving P path first sent (hang_up P k d (ask P k d.service req))) k c
        (ended-Serving P path first sent d _ k refl (rw ((==_iff k k).1 refl) refl)
          (rw begun (ap is_busy at)) refl (h k))
        (λ x.
          kept-Serving P path first sent d _ (loses_answer k req rest response at got begun) c refl
            (rw x refl) (rw x refl) (rw begun refl) (h c))
  Step-Serving {d} (loses_reply k name w response at got) run kept h c =
      other_cases (Serving P path first sent (hang_up P k d (end_wait P k d.service name w true))) k
        c
        (ended-Serving P path first sent d _ k refl (rw ((==_iff k k).1 refl) refl)
          (rw ((==_iff k k).1 refl) refl) refl (h k))
        (λ x.
          kept-Serving P path first sent d _ (loses_reply k name w response at got) c refl
            (rw x refl) refl (rw x refl) (h c))
  Step-Serving {d} (loses_failure k name at) run kept h c =
      other_cases (Serving P path first sent (hang_up P k d (remove P k d.service name))) k c
        (ended-Serving P path first sent d _ k refl (rw ((==_iff k k).1 refl) refl)
          (rw ((==_iff k k).1 refl) refl) refl (h k))
        (λ x.
          kept-Serving P path first sent d _ (loses_failure k name at) c refl (rw x refl) refl
            (rw x refl) (h c))
  Step-Serving {d} (works v st internal) run kept h c =
      let (busy, same) = internal-busy P path st internal c in
      kept-Serving P path first sent d _ (works v st internal) c refl refl (ap (λ f. f c) same) busy
        (h c)

  Reach-Serving :
      {d : Daemon P} (run : Reach P path (fresh_daemon P first sent) d)
      → AllKept P path (Reach-Service P path run)
      → (c : ℕ) → Serving P path first sent d c
  unfolding Reach-Service
  Reach-Serving here k c = record {
    past = [];
    rest = sent c;
    split = refl;
    answered = tt;
    pends = inl refl;
  }
  Reach-Serving (next run st) (k, kept) c =
      Step-Serving st (Reach-Service P path run) k (Reach-Serving run k) c

  -- As long as no running worker is taken out of the map, whatever the interleaving of connections and
  -- workers: the responses that a connection has written are, one for one and in order, answers to the
  -- first of the requests that its client sends. The answer to a request to a database is its worker's
  -- reply, from the turn on this request in the database's history, or the error that the worker could not
  -- be reached; the answer to a shutdown is the router's.
  pub responses_answer_requests :
      (d : Daemon P) (c : ℕ) (run : Reach P path (fresh_daemon P first sent) d)
      → AllKept P path (Reach-Service P path run)
      → Serves d.service.history (sent c) (d.outbox c)
  responses_answer_requests d c run k =
      let h = Reach-Serving run k c in (h.past, h.rest, h.split, h.answered)
