-- ===== src/Store/Row.antt =====
-- The row of a match (`MatchRow` of lobby-server/src/db/mod.rs), and how it is read.
use steam_lobby.Prelude.{String, Bool, Option}
use steam_lobby.Core.Types.{Uuid, PlayerId, Token, DateTime, MatchInfo}
use steam_lobby.Store.Text.{parse_difficulty, parse_connection, parse_match_status}

-- the 19 columns of a row of `matches`
pub record MatchRow : Type 0 where
  pub match_token : Token
  pub player_a : PlayerId
  pub player_a_difficulty : String
  pub player_b : PlayerId
  pub player_b_difficulty : String
  pub game_mode : String
  pub game_type : String
  pub status : String
  pub created_at : DateTime
  pub accepted_at : Option DateTime
  pub started_at : Option DateTime
  pub ended_at : Option DateTime
  pub server_address : Option String
  pub join_token : Option String
  pub result_secret : Option Uuid
  pub accepted_a : Bool
  pub accepted_b : Bool
  pub connected_a : Bool
  pub connected_b : Bool

-- `From<MatchRow> for MatchInfo`
unfoldable pub from_row : MatchRow → MatchInfo
unfolding parse_difficulty parse_connection parse_match_status
from_row r = record {
  match_token = r.match_token;
  player_a = r.player_a;
  player_a_difficulty = parse_difficulty r.player_a_difficulty;
  player_b = r.player_b;
  player_b_difficulty = parse_difficulty r.player_b_difficulty;
  game_mode = r.game_mode;
  connection = parse_connection r.game_type;
  status = parse_match_status r.status;
  created_at = r.created_at;
  accepted_at = r.accepted_at;
  started_at = r.started_at;
  ended_at = r.ended_at;
  server_address = r.server_address;
  join_token = r.join_token;
  result_secret = r.result_secret;
  accepted_a = r.accepted_a;
  accepted_b = r.accepted_b;
  connected_a = r.connected_a;
  connected_b = r.connected_b;
}
