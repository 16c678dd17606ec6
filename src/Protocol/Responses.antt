-- ===== src/Protocol/Responses.antt =====
-- `impl Response` of daemon/src/protocol.rs.
use sqlite_daemon.Prelude.{ℕ, String, true, ℤ, none, some}
use sqlite_daemon.Protocol.{Response, ResponseData}

abbrev pub ok_ping : String → String → ℤ → Response
ok_ping version db_path rev = Response.ok (ResponseData.ping version db_path rev)

abbrev pub ok_exec : ℤ → ℕ → Response
ok_exec rev rows_affected = Response.ok (ResponseData.exec_batch rev rows_affected)

abbrev pub ok_shutdown : Response
ok_shutdown = Response.ok ResponseData.shutdown

abbrev pub ok_prepare_maintenance : Response
ok_prepare_maintenance = Response.ok (ResponseData.prepare_for_maintenance true)

abbrev pub ok_close_database : Response
ok_close_database = Response.ok (ResponseData.close_database true)

abbrev pub ok_reopen_database : ℤ → Response
ok_reopen_database rev = Response.ok (ResponseData.reopen_database true rev)

abbrev pub error : String → Response
error message = Response.error message none

abbrev pub error_with_code : String → String → Response
error_with_code message code = Response.error message (some code)
