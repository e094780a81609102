-- ===== src/Store/Db.antt =====
-- The database, the clock and the source of random UUIDs, as one state.
--
-- A table with a one-column primary key is the map from the key to the row; `ratings` has the key
-- (user, mode), and `reports` holds the rows of each match in the order in which they came.
-- `now` is both `NOW()` and `Utc::now()`, and stands still while one operation runs.
use steam_lobby.Prelude.{ℕ, ◌+◌, String, Option, List, Table}
use steam_lobby.Core.Types.{Uuid, DateTime, Token, OpenSkillRating, MatchInfo}
use steam_lobby.Core.Error.{ok}
use steam_lobby.Core.Action.{Action}
use steam_lobby.Store.Rows.{
  UserRow, PlayerStateRow, ReportRow, ResultRow, EventRow, QueueRow, Umvc3Row, InboxRow,
}

pub record Db (R : Type 0) : Type 0 where
  pub now : DateTime
  pub entropy : ℕ → Uuid
  pub drawn : ℕ
  pub users : Table UserRow
  pub player_state : Table PlayerStateRow
  pub ratings : ℕ → String → Option (OpenSkillRating R)
  pub tokens : List Token
  pub matches : Table MatchInfo
  pub reports : Token → List ReportRow
  pub results : Table (ResultRow R)
  pub events : List (EventRow R)
  pub queue : List (QueueRow R)
  pub umvc3 : Table Umvc3Row
  pub inbox : List InboxRow
  pub command_counters : Table ℕ
  pub event_counters : Table ℕ

-- `Uuid::new_v4()`
abbrev pub new_v4 : {R : Type 0} → Action (Db R) Uuid
new_v4 s = (ok (s.entropy s.drawn), record s { drawn = s.drawn + 1 })
