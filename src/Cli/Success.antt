-- ===== src/Cli/Success.antt =====
-- cli/src/main.rs: when the program exits with success.
use sqlite_daemon.Prelude.{ℕ, ◌≡◌, refl, ◌↔◌, String, arith, Result, ok, err}
use sqlite_daemon.Protocol.{Json}
use sqlite_daemon.Cli.{
  Commands, ping, exec, prepare_for_maintenance, close_database, reopen_database, shutdown,
  ResponseData, Response, ok_data, error_message, Daemon, send_request, request_of, report, finish,
  main,
}

-- The data that a command's success carries.
abbrev pub Fits : Commands → ResponseData → Type 0
Fits (ping db) (ResponseData.ping version db_path rev) = Unit
Fits (exec db sql) (ResponseData.exec_batch rev rows_affected) = Unit
Fits (prepare_for_maintenance db) (ResponseData.prepare_for_maintenance checkpointed) = Unit
Fits (close_database db) (ResponseData.close_database closed) = Unit
Fits (reopen_database db) (ResponseData.reopen_database reopened rev) = Unit
Fits _ _ = ⊥

abbrev pub Succeeds : Commands → Result String Response → Type 0
Succeeds shutdown r = Unit
Succeeds command (ok (ok_data x)) = Fits command x
Succeeds command (ok (error_message message)) = ⊥
Succeeds command (err e) = ⊥

exits_zero : (◌≡◌ {A = ℕ} 0 0) ↔ Unit {0}
exits_zero = (λ e. tt, λ h. refl)

exits_one : (◌≡◌ {A = ℕ} 1 0) ↔ ⊥
exits_one = (λ e. omega arith, λ h. absurd h)

report_iff :
    (command : Commands) (response : Response)
    → ((report command response).code ≡ 0) ↔ Succeeds command (ok response)
unfolding report
report_iff (ping db) (ok_data (ResponseData.ping v p rev)) = exits_zero
report_iff (ping db) (ok_data (ResponseData.exec_batch rev rows)) = exits_one
report_iff (ping db) (ok_data (ResponseData.prepare_for_maintenance b)) = exits_one
report_iff (ping db) (ok_data (ResponseData.close_database b)) = exits_one
report_iff (ping db) (ok_data (ResponseData.reopen_database b rev)) = exits_one
report_iff (ping db) (error_message m) = exits_one
report_iff (exec db sql) (ok_data (ResponseData.ping v p rev)) = exits_one
report_iff (exec db sql) (ok_data (ResponseData.exec_batch rev rows)) = exits_zero
report_iff (exec db sql) (ok_data (ResponseData.prepare_for_maintenance b)) = exits_one
report_iff (exec db sql) (ok_data (ResponseData.close_database b)) = exits_one
report_iff (exec db sql) (ok_data (ResponseData.reopen_database b rev)) = exits_one
report_iff (exec db sql) (error_message m) = exits_one
report_iff (prepare_for_maintenance db) (ok_data (ResponseData.ping v p rev)) = exits_one
report_iff (prepare_for_maintenance db) (ok_data (ResponseData.exec_batch rev rows)) = exits_one
report_iff (prepare_for_maintenance db) (ok_data (ResponseData.prepare_for_maintenance b)) =
    exits_zero
report_iff (prepare_for_maintenance db) (ok_data (ResponseData.close_database b)) = exits_one
report_iff (prepare_for_maintenance db) (ok_data (ResponseData.reopen_database b rev)) = exits_one
report_iff (prepare_for_maintenance db) (error_message m) = exits_one
report_iff (close_database db) (ok_data (ResponseData.ping v p rev)) = exits_one
report_iff (close_database db) (ok_data (ResponseData.exec_batch rev rows)) = exits_one
report_iff (close_database db) (ok_data (ResponseData.prepare_for_maintenance b)) = exits_one
report_iff (close_database db) (ok_data (ResponseData.close_database b)) = exits_zero
report_iff (close_database db) (ok_data (ResponseData.reopen_database b rev)) = exits_one
report_iff (close_database db) (error_message m) = exits_one
report_iff (reopen_database db) (ok_data (ResponseData.ping v p rev)) = exits_one
report_iff (reopen_database db) (ok_data (ResponseData.exec_batch rev rows)) = exits_one
report_iff (reopen_database db) (ok_data (ResponseData.prepare_for_maintenance b)) = exits_one
report_iff (reopen_database db) (ok_data (ResponseData.close_database b)) = exits_one
report_iff (reopen_database db) (ok_data (ResponseData.reopen_database b rev)) = exits_zero
report_iff (reopen_database db) (error_message m) = exits_one
report_iff shutdown response = exits_zero

finish_iff :
    (command : Commands) (r : Result String Response)
    → ((finish command r).code ≡ 0) ↔ Succeeds command r
unfolding finish
finish_iff command (ok response) = report_iff command response
finish_iff (ping db) (err e) = exits_one
finish_iff (exec db sql) (err e) = exits_one
finish_iff (prepare_for_maintenance db) (err e) = exits_one
finish_iff (close_database db) (err e) = exits_one
finish_iff (reopen_database db) (err e) = exits_one
finish_iff shutdown (err e) = exits_zero

-- The program exits with zero exactly if the command is a shutdown, whatever comes of it, or the
-- daemon answers the command's request with a success that carries the data of this command.
pub main-Succeeds_iff :
    {J : Json} (D : Daemon J) (command : Commands) (w : D.World)
    → ((main D command w).0.code ≡ 0) ↔ Succeeds command (send_request D (request_of command) w).0
unfolding main
main-Succeeds_iff D command w = finish_iff command (send_request D (request_of command) w).0
