-- ===== src/Daemon/Examples.antt =====
-- One client that sends a ping of `a.db`, and gets its response.
use sqlite_daemon.Prelude.{
  take, length, ◌≡◌, arith, ℕ, String, refl, List, [], ◌∷◌, ◌==◌, if◌then◌else◌,
}
use sqlite_daemon.Protocol.{Request, ping}
use sqlite_daemon.Protocol.Responses.{ok_ping}
use sqlite_daemon.Worker.State.{WorkerState, opened}
use sqlite_daemon.Worker.Database.{init_database, get_current_rev}
use sqlite_daemon.Worker.Handlers.{handle_request, handle_ping}
use sqlite_daemon.Worker.Sqlite.Log.{log_json, log_platform, World, empty}
use sqlite_daemon.Worker.Loop.{turn}
use sqlite_daemon.Router
use sqlite_daemon.Router.{idle, extract_db_name, route_start, begin, fast_path, slow_path}
use sqlite_daemon.Service.History.{start, perform}
use sqlite_daemon.Service.{
  Service, end_wait, ask, look, create, send, act, serve, looks, creates, sends, starts, serves,
}
use sqlite_daemon.Service.Routes.{AllKept}
use sqlite_daemon.Daemon.{
  Daemon, fresh_daemon, take_request, write_reply, takes, works, replies, Reach, here, next,
  Step-Service, Reach-Service,
}
use sqlite_daemon.Daemon.Counts.{due}
use sqlite_daemon.Daemon.Answers.{AllAnswered}
use sqlite_daemon.Daemon.Whole.{all_requests_answered}
use sqlite_daemon.Daemon.Finish.{client_can_be_served}
use sqlite_daemon.Daemon.Answers.Steps.{Serves, responses_answer_requests}

abbrev path : String → String
path name = name

abbrev first : String → World
first name = empty

abbrev sent : ℕ → List (Request log_json)
sent c = if c == 0 then ping "a.db" ∷ [] else []

abbrev taken : Daemon log_platform
taken = take_request log_platform 0 (fresh_daemon log_platform first sent) (ping "a.db") []

abbrev looked : Service log_platform
looked = look log_platform 0 taken.service "a.db"

abbrev created : Service log_platform
created = create log_platform 0 looked "a.db"

abbrev started : Service log_platform
started = act log_platform path 0 created (start 5)

abbrev passed_on : Service log_platform
passed_on = send log_platform 0 started "a.db" 0

abbrev worker : WorkerState log_platform
worker = record { db_state = opened 0; db_path = "a.db"; db_name = "a.db"; last_activity = 5 }

abbrev served : Service log_platform
served = serve log_platform path 0 passed_on 7 0 (ping "a.db") [] worker

abbrev answered : Daemon log_platform
answered =
    write_reply log_platform 0 (record taken { service = served }) "a.db" 0
      (ok_ping "1.0.0" "a.db" empty.committed.rev)

answered_reached : Reach log_platform path (fresh_daemon log_platform first sent) answered
unfolding take_request write_reply ask look create send act serve begin route_start extract_db_name
    fast_path slow_path perform init_database Router.send turn handle_request handle_ping
    get_current_rev
answered_reached =
    next
      (next
        (next
          (next
            (next
              (next (next here (takes 0 (ping "a.db") [] "a.db" refl refl refl))
                (works looked (looks 0 "a.db" refl) tt))
              (works created (creates 0 "a.db" refl) tt))
            (works started (starts 0 5 refl refl) tt))
          (works passed_on (sends 0 "a.db" 0 refl λ r. ground arith) tt))
        (works served (serves 0 7 0 (ping "a.db") [] worker refl refl refl) tt))
      (replies 0 "a.db" 0 (ok_ping "1.0.0" "a.db" empty.committed.rev) refl refl)

answered_kept : AllKept log_platform path (Reach-Service log_platform path answered_reached)
unfolding answered_reached Step-Service Reach-Service
answered_kept = (((((((tt, tt), tt), tt), tt), tt), tt), tt)

responses_answer_requests_example :
    Serves log_platform path first sent answered.service.history (sent 0) (answered.outbox 0)
responses_answer_requests_example =
    responses_answer_requests log_platform path first sent answered 0 answered_reached answered_kept

taken_reached : Reach log_platform path (fresh_daemon log_platform first sent) taken
unfolding route_start
taken_reached = next here (takes 0 (ping "a.db") [] "a.db" refl refl refl)

client_can_be_served_example :
    (e : Daemon log_platform) × Reach log_platform path taken e
    × (e.service.router.task 0 ≡ idle)
    × (e.inbox 0 ≡ [])
    × (length (e.outbox 0) ≡ due (sent 0))
unfolding take_request
client_can_be_served_example =
    client_can_be_served log_platform path first sent taken 0 taken_reached refl

all_requests_answered_example :
    AllAnswered log_platform path first answered.service.history
      (take (due (sent 0)) (sent 0))
      (answered.outbox 0)
unfolding write_reply end_wait Router.receive take_request
all_requests_answered_example =
    all_requests_answered log_platform path first sent answered 0 answered_reached answered_kept
      refl refl refl
