-- ===== src/Wire/Whole.antt =====
-- A command of the client, all the way to the daemon's router and back.
use mathlib.Core.List.{flatten}
use sqlite_daemon.Prelude.{
  ℕ, String, ◌≡◌, refl, sym, ap, ◌∙◌, subst, ◌↔◌, Option, none, some, List, [], ◌∷◌, map, Result,
  ok, err, Io,
}
use sqlite_daemon.Protocol
use sqlite_daemon.Protocol.{Json, TransactionMode, Response, ResponseData}
use sqlite_daemon.Server.{handle_connection}
use sqlite_daemon.Server.Buffer.{reads_of, NonEmpty}
use sqlite_daemon.Server.Frames.{frame, Fits}
use sqlite_daemon.Cli
use sqlite_daemon.Cli.{Commands, request_of, send_request, main}
use sqlite_daemon.Cli.Success.{Succeeds, main-Succeeds_iff}
use sqlite_daemon.Cli.Exchange.{Stream, Codec, client, server, exchange}
use sqlite_daemon.Wire.{Tree, object, Members, Format, FormatLaws}
use sqlite_daemon.Wire.Requests.{
  write_request, read_request, as_daemon, as_statements, read_request-write_request,
}
use sqlite_daemon.Wire.Responses.{
  write_response, read_response, as_client, InRange, read_response-write_response,
}

-- The request that a command means to the daemon.
unfoldable pub daemon_request : {J : Json} → Commands → Protocol.Request J
daemon_request (Commands.ping db) = Protocol.Request.ping db
daemon_request (Commands.exec db sql) =
    Protocol.Request.exec_batch db (map (λ s. record { sql = s; params = [] }) sql)
      TransactionMode.atomic
daemon_request (Commands.prepare_for_maintenance db) = Protocol.Request.prepare_for_maintenance db
daemon_request (Commands.close_database db) = Protocol.Request.close_database db
daemon_request (Commands.reopen_database db) = Protocol.Request.reopen_database db
daemon_request Commands.shutdown = Protocol.Request.shutdown

-- The daemon did what the command asks for.
abbrev pub Did : Commands → ResponseData → Type 0
Did (Commands.ping db) (ResponseData.ping version db_path rev) = Unit
Did (Commands.exec db sql) (ResponseData.exec_batch rev rows_affected) = Unit
Did (Commands.prepare_for_maintenance db) (ResponseData.prepare_for_maintenance checkpointed) = Unit
Did (Commands.close_database db) (ResponseData.close_database closed) = Unit
Did (Commands.reopen_database db) (ResponseData.reopen_database reopened rev) = Unit
Did _ _ = ⊥

abbrev pub Accomplished : Commands → Response → Type 0
Accomplished Commands.shutdown response = Unit
Accomplished command (Response.ok x) = Did command x
Accomplished command (Response.error message code) = ⊥

-- JSON as text, and the words of the errors.
pub record Text (J : Json) : Type 0 where
  pub print : Tree J.Number → List ℕ
  pub parse : List ℕ → Result String (Tree J.Number)
  pub why_no_request : Members J.Number → String
  pub why_no_response : Members J.Number → String
  -- what the derived readers make of a text that is no object
  pub other_request : Tree J.Number → Result String (Protocol.Request J)
  pub other_response : Tree J.Number → Result String Cli.Response

module _ {J : Json} (F : Format J) (T : Text J) where
  abbrev pub result {ℓ} : {A : Type ℓ} → String → Option A → Result String A
  result e (some a) = ok a
  result e none = err e

  abbrev pub request_in : Result String (Tree J.Number) → Result String (Protocol.Request J)
  request_in (err e) = err e
  request_in (ok (object m)) = result (T.why_no_request m) (read_request F m)
  request_in (ok t) = T.other_request t

  abbrev pub response_in : Result String (Tree J.Number) → Result String Cli.Response
  response_in (err e) = err e
  response_in (ok (object m)) = result (T.why_no_response m) (read_response F m)
  response_in (ok t) = T.other_response t

  abbrev pub json_codec : Codec J
  json_codec = record {
    client_to_vec = λ req. ok (T.print (object (write_request F req)));
    client_from_slice = λ bytes. response_in (T.parse bytes);
    from_slice = λ bytes. request_in (T.parse bytes);
    to_vec = λ response. ok (T.print (object (write_response F response)));
  }

  as_statements-map :
      (sql : List String)
      → as_statements F (map (λ s. record { sql = s; params = [] }) sql)
        ≡ map (λ s. record { sql = s; params = [] }) sql
  as_statements-map [] = refl
  as_statements-map (s ∷ sql) = cc (as_statements-map sql)

  as_daemon-request_of :
      (command : Commands) → as_daemon F (request_of command) ≡ some (daemon_request command)
  unfolding as_daemon request_of daemon_request
  as_daemon-request_of (Commands.ping db) = refl
  as_daemon-request_of (Commands.exec db sql) = rw (as_statements-map sql)
  as_daemon-request_of (Commands.prepare_for_maintenance db) = refl
  as_daemon-request_of (Commands.close_database db) = refl
  as_daemon-request_of (Commands.reopen_database db) = refl
  as_daemon-request_of Commands.shutdown = refl

  same : {A : Type 0} → A ↔ A
  same = (λ a. a, λ a. a)

  told_iff :
      (command : Commands) (response : Response) (e : String)
      → Succeeds command (result e (as_client response)) ↔ Accomplished command response
  unfolding as_client
  told_iff (Commands.ping db) (Response.ok (ResponseData.ping v p rev)) e = same
  told_iff (Commands.ping db) (Response.ok (ResponseData.exec_batch rev rows)) e = same
  told_iff (Commands.ping db) (Response.ok (ResponseData.prepare_for_maintenance b)) e = same
  told_iff (Commands.ping db) (Response.ok (ResponseData.close_database b)) e = same
  told_iff (Commands.ping db) (Response.ok (ResponseData.reopen_database b rev)) e = same
  told_iff (Commands.ping db) (Response.ok ResponseData.shutdown) e = same
  told_iff (Commands.ping db) (Response.error m code) e = same
  told_iff (Commands.exec db sql) (Response.ok (ResponseData.ping v p rev)) e = same
  told_iff (Commands.exec db sql) (Response.ok (ResponseData.exec_batch rev rows)) e = same
  told_iff (Commands.exec db sql) (Response.ok (ResponseData.prepare_for_maintenance b)) e = same
  told_iff (Commands.exec db sql) (Response.ok (ResponseData.close_database b)) e = same
  told_iff (Commands.exec db sql) (Response.ok (ResponseData.reopen_database b rev)) e = same
  told_iff (Commands.exec db sql) (Response.ok ResponseData.shutdown) e = same
  told_iff (Commands.exec db sql) (Response.error m code) e = same
  told_iff (Commands.prepare_for_maintenance db) (Response.ok (ResponseData.ping v p rev)) e = same
  told_iff (Commands.prepare_for_maintenance db) (Response.ok (ResponseData.exec_batch rev rows))
        e =
      same
  told_iff (Commands.prepare_for_maintenance db)
        (Response.ok (ResponseData.prepare_for_maintenance b)) e =
      same
  told_iff (Commands.prepare_for_maintenance db) (Response.ok (ResponseData.close_database b)) e =
      same
  told_iff (Commands.prepare_for_maintenance db) (Response.ok (ResponseData.reopen_database b rev))
        e =
      same
  told_iff (Commands.prepare_for_maintenance db) (Response.ok ResponseData.shutdown) e = same
  told_iff (Commands.prepare_for_maintenance db) (Response.error m code) e = same
  told_iff (Commands.close_database db) (Response.ok (ResponseData.ping v p rev)) e = same
  told_iff (Commands.close_database db) (Response.ok (ResponseData.exec_batch rev rows)) e = same
  told_iff (Commands.close_database db) (Response.ok (ResponseData.prepare_for_maintenance b)) e =
      same
  told_iff (Commands.close_database db) (Response.ok (ResponseData.close_database b)) e = same
  told_iff (Commands.close_database db) (Response.ok (ResponseData.reopen_database b rev)) e = same
  told_iff (Commands.close_database db) (Response.ok ResponseData.shutdown) e = same
  told_iff (Commands.close_database db) (Response.error m code) e = same
  told_iff (Commands.reopen_database db) (Response.ok (ResponseData.ping v p rev)) e = same
  told_iff (Commands.reopen_database db) (Response.ok (ResponseData.exec_batch rev rows)) e = same
  told_iff (Commands.reopen_database db) (Response.ok (ResponseData.prepare_for_maintenance b)) e =
      same
  told_iff (Commands.reopen_database db) (Response.ok (ResponseData.close_database b)) e = same
  told_iff (Commands.reopen_database db) (Response.ok (ResponseData.reopen_database b rev)) e = same
  told_iff (Commands.reopen_database db) (Response.ok ResponseData.shutdown) e = same
  told_iff (Commands.reopen_database db) (Response.error m code) e = same
  told_iff Commands.shutdown response e = same

  module _ (L : FormatLaws F) {R : Type 0} (route : Protocol.Request J → Io R Response) where
    -- A command of the client over a connection of the daemon with any router, where the JSON of the two
    -- messages is read back from its text and within the limit, and the response's numbers are in their
    -- ranges: the router gets the request that the command means and nothing else, and the client exits
    -- with zero exactly if the command is a shutdown or the router's response says that it is done.
    pub command-Accomplished :
        (command : Commands) (chunks : List (List ℕ)) (r : R)
        → let sent = write_request F (request_of command) in
          let response = (route (daemon_request command) r).0 in
          let json = T.print (object sent) in
          let reply = T.print (object (write_response F response)) in
          T.parse json ≡ ok (object sent)
          → T.parse reply ≡ ok (object (write_response F response))
          → InRange response
          → Fits json
          → Fits reply
          → NonEmpty chunks
          → flatten chunks ≡ frame json
          → let (ending, (after, written)) =
              handle_connection (server json_codec route) (reads_of chunks) (r, []) in
            (after ≡ (route (daemon_request command) r).1)
            × (((main (client json_codec) command (record { sent = []; incoming = written })).0.code
                  ≡ 0)
                ↔ Accomplished command response)
    command-Accomplished command chunks r sent_back reply_back range fits fits₂ full cut =
        let req : Cli.Request J = request_of command in
        let d : Protocol.Request J = daemon_request command in
        let response = (route d r).0 in
        let e = T.why_no_response (write_response F response) in
        let parsed : json_codec.from_slice (T.print (object (write_request F req))) ≡ ok d =
          ap request_in sent_back
          ∙ ap (result (T.why_no_request (write_request F req)))
              (read_request-write_request F L req ∙ as_daemon-request_of command) in
        let (after, told) =
          exchange json_codec route req d (T.print (object (write_request F req)))
            (T.print (object (write_response F response))) chunks r refl parsed refl fits fits₂ full
            cut in
        let outcome =
          ap response_in reply_back
          ∙ ap (result e) (read_response-write_response F L response range) in
        let written = (handle_connection (server json_codec route) (reads_of chunks) (r, [])).1.1 in
        let w : Stream = record { sent = []; incoming = written } in
        let exits = main-Succeeds_iff (client json_codec) command w in
        let reads : (send_request (client json_codec) req w).0 ≡ result e (as_client response) =
          ap (λ (x : Result String Cli.Response × Stream). x.0) told ∙ outcome in
        let shown = subst (Succeeds command) reads in
        let back = subst (Succeeds command) (sym reads) in
        let (to, from) = told_iff command response e in
        (after, (λ z. to (shown (exits.0 z)), λ z. exits.1 (back (from z))))
