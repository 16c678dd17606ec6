-- ===== src/Daemon/Whole.antt =====
-- daemon/src/server.rs over the router and the workers: a connection at rest.
use sqlite_daemon.Prelude.{
  false, ℕ, suc, String, ◌≡◌, refl, sym, ap, ◌∙◌, subst, List, [], ◌∷◌, length, take,
  take-length_append, arith,
}
use sqlite_daemon.Platform.{Platform}
use sqlite_daemon.Protocol.{Request, Response}
use sqlite_daemon.Router.{idle}
use sqlite_daemon.Service.History.{Action}
use sqlite_daemon.Service.Routes.{AllKept}
use sqlite_daemon.Daemon.{Daemon, fresh_daemon, Reach, Reach-Service}
use sqlite_daemon.Daemon.Answers.{AllAnswered}
use sqlite_daemon.Daemon.Answers.Steps.{responses_answer_requests}
use sqlite_daemon.Daemon.Counts.{due, owed, responses_counted}

module _ (P : Platform) (path : String → String) (first : String → P.sqlx.World)
    (sent : ℕ → List (Request P.json)) where
  open P use {json}

  AllAnswered-length :
      (history : String → List (Action P)) (reqs : List (Request json)) (responses : List Response)
      → AllAnswered P path first history reqs responses
      → length reqs ≡ length responses
  AllAnswered-length history [] [] all = refl
  AllAnswered-length history [] (r ∷ responses) all = absurd all
  AllAnswered-length history (q ∷ reqs) [] all = absurd all
  AllAnswered-length history (q ∷ reqs) (r ∷ responses) (x, all) =
      ap suc (AllAnswered-length history reqs responses all)

  -- As long as no running worker is taken out of the map, whatever the interleaving of connections and
  -- workers: a connection that every response could be written to, and that is at rest, with no request left to read, has written an answer to each of
  -- its client's requests up to the first shutdown, in their order, and nothing else.
  pub all_requests_answered :
      (d : Daemon P) (c : ℕ) (run : Reach P path (fresh_daemon P first sent) d)
      → AllKept P path (Reach-Service P path run)
      → d.service.router.task c ≡ idle
      → d.inbox c ≡ []
      → d.lost c ≡ false
      → AllAnswered P path first d.service.history (take (due (sent c)) (sent c)) (d.outbox c)
  unfolding due
  all_requests_answered d c run kept at nothing written =
      let (past, rest, whole, all) = responses_answer_requests P path first sent d c run kept in
      let total = responses_counted P path first sent run c written in
      let none_due = ap due nothing in
      let none_owed = ap owed at in
      let same = AllAnswered-length d.service.history past (d.outbox c) all in
      let count : due (sent c) ≡ length past = omega (arith, total, none_due, none_owed, same) in
      let cut : take (due (sent c)) (sent c) ≡ past =
        ap (λ n. take n (sent c)) count
        ∙ ap (take (length past)) whole
        ∙ take-length_append past rest in
      subst (λ reqs. AllAnswered P path first d.service.history reqs (d.outbox c)) (sym cut) all
