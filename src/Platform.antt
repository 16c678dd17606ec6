-- ===== src/Platform.antt =====
-- What the daemon is linked against: JSON values, sqlx, and Unicode's case table beyond ASCII.
use sqlite_daemon.Prelude.{ℕ, List}
use sqlite_daemon.Protocol.{Json}
use sqlite_daemon.Sqlx.{Sqlx}

pub record Platform : Type 1 where
  pub json : Json
  pub sqlx : Sqlx json.Float
  pub upper : ℕ → List ℕ
