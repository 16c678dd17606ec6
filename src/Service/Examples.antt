-- ===== src/Service/Examples.antt =====
-- The router with one worker: a ping of `a.db` comes in, a worker is spawned, starts, and replies.
use sqlite_daemon.Prelude.{length, ◌≤◌, true, arith, String, ◌≡◌, refl, [], none}
use sqlite_daemon.Protocol.{ping}
use sqlite_daemon.Protocol.Responses.{ok_ping}
use sqlite_daemon.Worker.State.{WorkerState, opened}
use sqlite_daemon.Worker.Database.{init_database, get_current_rev}
use sqlite_daemon.Worker.Handlers.{handle_request, handle_ping}
use sqlite_daemon.Worker.Sqlite.Log.{log_pools, log_platform, World, empty}
use sqlite_daemon.Worker.Loop.{turn}
use sqlite_daemon.Router
use sqlite_daemon.Router.{
  idle, running, awaiting, extract_db_name, route_start, begin, fast_path, slow_path, Reach_trans,
}
use sqlite_daemon.Service.History.{start, perform}
use sqlite_daemon.Service.{
  Service, channel_capacity, state_of, initial, ask, look, create, send, act, serve, asks, looks,
  creates, sends, starts, serves, Reach, here, next,
}
use sqlite_daemon.Service.Routes.{AllKept}
use sqlite_daemon.Service.Serial.{replay, world_serial}
use sqlite_daemon.Service.Lives.{AllFit, lives_follow}
use sqlite_daemon.Service.Holders.{HeldNow, state_of-HeldNow}
use sqlite_daemon.Service.Waits.Answers.{Settled}
use sqlite_daemon.Service.Calm.{AllCalm, calm_run_keeps_workers}
use sqlite_daemon.Service.Waits.Room.{waiting_is_bounded}
use sqlite_daemon.Service.Order.{AnsweredAfter}
use sqlite_daemon.Service.Order.Steps.{reply_is_recent}
use sqlite_daemon.Service.Once.{commands, replied}
use sqlite_daemon.Service.Once.Steps.{served_once}

abbrev path : String → String
path name = name

abbrev first : String → World
first name = empty

abbrev asked_state : Service log_platform
asked_state = ask log_platform 0 (initial log_platform first) (ping "a.db")

abbrev created_state : Service log_platform
created_state = create log_platform 0 (look log_platform 0 asked_state "a.db") "a.db"

abbrev started_state : Service log_platform
started_state = act log_platform path 0 created_state (start 5)

abbrev sent_state : Service log_platform
sent_state = send log_platform 0 started_state "a.db" 0

abbrev worker : WorkerState log_platform
worker = record { db_state = opened 0; db_path = "a.db"; db_name = "a.db"; last_activity = 5 }

abbrev served_state : Service log_platform
served_state = serve log_platform path 0 sent_state 7 0 (ping "a.db") [] worker

sent_reached : Reach log_platform path (initial log_platform first) sent_state
unfolding ask look create send act begin route_start extract_db_name fast_path slow_path perform
    init_database Router.send
sent_reached =
    next
      (next
        (next (next (next here (asks 0 (ping "a.db") refl)) (looks 0 "a.db" refl))
          (creates 0 "a.db" refl))
        (starts 0 5 refl refl))
      (sends 0 "a.db" 0 refl λ r. ground arith)

served_later : Reach log_platform path sent_state served_state
unfolding ask look create send act serve begin route_start extract_db_name fast_path slow_path
    perform init_database Router.send
served_later = next here (serves 0 7 0 (ping "a.db") [] worker refl refl refl)

served_reached : Reach log_platform path (initial log_platform first) served_state
unfolding ask look create send act serve begin route_start extract_db_name fast_path slow_path
    perform init_database Router.send
served_reached = next sent_reached (serves 0 7 0 (ping "a.db") [] worker refl refl refl)

served_kept : AllKept log_platform path served_reached
unfolding served_reached sent_reached
served_kept = ((((((tt, tt), tt), tt), tt), tt), tt)

served_calm : AllCalm log_platform path served_reached
unfolding served_reached sent_reached
served_calm = ((((((tt, tt), tt), tt), tt), tt), tt)

calm_run_keeps_workers_example : AllKept log_platform path served_reached
calm_run_keeps_workers_example =
    calm_run_keeps_workers log_platform path first served_state served_reached served_calm

world_serial_example :
    replay log_platform path first "a.db" (served_state.history "a.db")
    ≡ (state_of log_platform served_state "a.db", served_state.world "a.db")
world_serial_example =
    world_serial log_platform path first served_state "a.db" served_reached served_kept

state_of-HeldNow_example :
    HeldNow log_platform log_pools
      (state_of log_platform served_state "a.db", served_state.world "a.db")
state_of-HeldNow_example =
    state_of-HeldNow log_platform log_pools path first served_state "a.db" served_reached
      served_kept (λ q h. cc)

waiting_is_bounded_example :
    (length (sent_state.queue 0) ≤ channel_capacity)
    × Settled log_platform path first served_state (sent_state.channel 0) 0
unfolding ask look create send act serve begin route_start extract_db_name fast_path slow_path
    perform init_database Router.send served_later
waiting_is_bounded_example =
    waiting_is_bounded log_platform path first sent_state served_state 0 "a.db" 0 sent_reached
      served_later refl (ground arith)

lives_follow_example :
    AllFit log_platform path first "a.db" (served_state.history "a.db") (none, first "a.db")
lives_follow_example =
    lives_follow log_platform path first served_state "a.db" served_reached served_kept

reply_is_recent_example :
    AnsweredAfter log_platform path first []
      (served_state.history "a.db")
      ("a.db", served_state.request 0)
      (ok_ping "1.0.0" "a.db" empty.committed.rev)
unfolding ask look create send act serve begin route_start extract_db_name fast_path slow_path
    perform init_database Router.send turn handle_request handle_ping get_current_rev
reply_is_recent_example =
    reply_is_recent log_platform path first (initial log_platform first) served_state 0 "a.db" 0
      (ok_ping "1.0.0" "a.db" empty.committed.rev) here served_reached tt served_kept refl refl refl

served_once_example :
    commands log_platform path (λ req. true) (served_state.history "a.db")
    ≡ replied log_platform path
        (λ req. true)
        served_state.replies
        served_state.asked
        "a.db"
        served_state.next_channel
served_once_example =
    served_once log_platform path (λ req. true) first served_state "a.db" served_reached served_kept
