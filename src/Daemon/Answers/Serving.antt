-- ===== src/Daemon/Answers/Serving.antt =====
-- What the connections of daemon/src/server.rs have answered, and what they have yet to answer.
use sqlite_daemon.Prelude.{
  inr, ℕ, ◌≡◌, sym, ap, ◌∙◌, subst, String, Bool, true, false, List, [], ◌∷◌, ◌++◌, append_assoc,
  inl, ◌⊎◌,
}
use sqlite_daemon.Platform.{Platform}
use sqlite_daemon.Protocol.{Request, Response}
use sqlite_daemon.Daemon.{Daemon, Step, Step-Service}
use sqlite_daemon.Daemon.Answers.{
  IsAnswer, AllAnswered, AllAnswered-snoc, Keeps-AllAnswered, Step-Keeps, is_busy,
}

module _ (P : Platform) (path : String → String) (first : String → P.sqlx.World)
    (sent : ℕ → List (Request P.json)) where
  open P use {json}

  -- What is not answered: the request in work and the inbox, or the inbox, unless the connection is closed.
  abbrev pub Pends : Bool → Request json → List (Request json) → List (Request json) → Type 0
  Pends true req inbox rest = rest ≡ req ∷ inbox
  Pends false req inbox rest = (inbox ≡ rest) ⊎ (inbox ≡ [])

  pub record Serving (d : Daemon P) (c : ℕ) : Type 0 where
    pub past : List (Request json)
    pub rest : List (Request json)
    pub split : sent c ≡ past ++ rest
    pub answered : AllAnswered P path first d.service.history past (d.outbox c)
    pub pends : Pends (is_busy (d.service.router.task c)) (d.service.request c) (d.inbox c) rest

  -- A step that leaves a connection alone.
  pub kept-Serving :
      (d e : Daemon P) (st : Step P path d e) (c : ℕ)
      → e.outbox c ≡ d.outbox c
      → e.inbox c ≡ d.inbox c
      → e.service.request c ≡ d.service.request c
      → is_busy (e.service.router.task c) ≡ is_busy (d.service.router.task c)
      → Serving d c
      → Serving e c
  kept-Serving d e st c out inb req busy h = record {
    past = h.past;
    rest = h.rest;
    split = h.split;
    answered =
        Keeps-AllAnswered P path first d.service.history e.service.history
          (Step-Keeps P path first (Step-Service P path st)) h.past (e.outbox c)
          (subst (λ o. AllAnswered P path first d.service.history h.past o) (sym out) h.answered);
    pends = rw (busy, req, inb) h.pends;
  }

  -- The connection is over.
  pub ended-Serving :
      (d e : Daemon P) (c : ℕ)
      → e.outbox c ≡ d.outbox c
      → e.inbox c ≡ []
      → is_busy (e.service.router.task c) ≡ false
      → e.service.history ≡ d.service.history
      → Serving d c
      → Serving e c
  ended-Serving d e c out inb free hist h = record {
    past = h.past;
    rest = h.rest;
    split = h.split;
    answered = rw (hist, out) h.answered;
    pends = rw free (inr inb);
  }

  -- The request in work is answered.
  pub answered-Serving :
      (d e : Daemon P) (c : ℕ) (response : Response)
      → is_busy (d.service.router.task c) ≡ true
      → is_busy (e.service.router.task c) ≡ false
      → e.service.history ≡ d.service.history
      → e.outbox c ≡ d.outbox c ++ response ∷ []
      → e.inbox c ≡ d.inbox c
      → IsAnswer P path first d.service.history (d.service.request c) response
      → Serving d c
      → Serving e c
  answered-Serving d e c response was is hist out inb answer h =
      let at : h.rest ≡ d.service.request c ∷ d.inbox c =
        subst (λ b. Pends b (d.service.request c) (d.inbox c) h.rest) was h.pends in
      record {
        past = h.past ++ d.service.request c ∷ [];
        rest = d.inbox c;
        split =
            h.split
            ∙ ap (λ l. h.past ++ l) at
            ∙ sym (append_assoc h.past (d.service.request c ∷ []) (d.inbox c));
        answered =
            rw (hist, out)
              (AllAnswered-snoc P path first d.service.history h.past (d.outbox c)
                (d.service.request c) response h.answered answer);
        pends =
            subst (λ b. Pends b (e.service.request c) (e.inbox c) (d.inbox c)) (sym is) (inl inb);
      }
