-- ===== src/Core/Types.antt =====
-- lobby-core/src/types.rs: the data that every part of the lobby shares.
--
-- A `Uuid` (player, attempt, session, command, receipt) is the number that its 128 bits stand for,
-- which is also how `sort_unstable` orders it. A match token and a lobby id are texts that the code
-- only stores and compares, so they are identifiers too. A `DateTime` is a count of microseconds,
-- the resolution of a TIMESTAMPTZ column. `R` is the type of an f64.
use steam_lobby.Prelude.{
  ◌≡◌, refl, arith, ℕ, String, Bool, true, false, Option, List, [], ◌∷◌, ◌==◌, str_eq, find,
}

abbrev pub Uuid : Type 0
Uuid = ℕ

abbrev pub PlayerId : Type 0
PlayerId = Uuid

abbrev pub Token : Type 0
Token = ℕ

abbrev pub DateTime : Type 0
DateTime = ℕ

pub data PlayerState : Type 0 where
  in_menus queueing match_accepted in_match reporting : PlayerState

pub data MatchStatus : Type 0 where
  pending_accept in_progress playing reporting disputed resolved : MatchStatus

pub data ConnectionStrategy : Type 0 where
  p2p server : ConnectionStrategy

pub data ResultAuthority : Type 0 where
  server_referee gameserver native_report : ResultAuthority

pub data MatchEvent : Type 0 where
  paired accepted declined : MatchEvent

pub data MatchDifficulty : Type 0 where
  easy normal hard : MatchDifficulty

-- The derived `PartialEq` of the enums, on the position of the variant.
abbrev player_state_index : PlayerState → ℕ
player_state_index PlayerState.in_menus = 0
player_state_index PlayerState.queueing = 1
player_state_index PlayerState.match_accepted = 2
player_state_index PlayerState.in_match = 3
player_state_index PlayerState.reporting = 4

abbrev pub player_state_eq : PlayerState → PlayerState → Bool
player_state_eq a b = player_state_index a == player_state_index b

abbrev match_status_index : MatchStatus → ℕ
match_status_index MatchStatus.pending_accept = 0
match_status_index MatchStatus.in_progress = 1
match_status_index MatchStatus.playing = 2
match_status_index MatchStatus.reporting = 3
match_status_index MatchStatus.disputed = 4
match_status_index MatchStatus.resolved = 5

abbrev pub match_status_eq : MatchStatus → MatchStatus → Bool
match_status_eq a b = match_status_index a == match_status_index b

pub match_status_eq_refl : (a : MatchStatus) → match_status_eq a a ≡ true
match_status_eq_refl MatchStatus.disputed = refl
match_status_eq_refl _ = refl

pub eq_of_match_status_eq : (a b : MatchStatus) → match_status_eq a b ≡ true → a ≡ b
eq_of_match_status_eq a b h = ground arith

abbrev pub is_server : ConnectionStrategy → Bool
is_server ConnectionStrategy.server = true
is_server ConnectionStrategy.p2p = false

abbrev pub is_gameserver : ResultAuthority → Bool
is_gameserver ResultAuthority.gameserver = true
is_gameserver _ = false

abbrev pub is_native_report : ResultAuthority → Bool
is_native_report ResultAuthority.native_report = true
is_native_report _ = false

pub record ModeSpec : Type 0 where
  pub id : String
  pub connection : ConnectionStrategy
  pub authority : ResultAuthority

abbrev pub mode_specs : List ModeSpec
mode_specs =
    record {
      id = "pong_1v1";
      connection = ConnectionStrategy.p2p;
      authority = ResultAuthority.server_referee;
    }
    ∷ record {
      id = "rps_1v1";
      connection = ConnectionStrategy.p2p;
      authority = ResultAuthority.server_referee;
    }
    ∷ record {
      id = "server_arena";
      connection = ConnectionStrategy.server;
      authority = ResultAuthority.gameserver;
    }
    ∷ record {
      id = "umvc3_1v1";
      connection = ConnectionStrategy.p2p;
      authority = ResultAuthority.native_report;
    }
    ∷ []

unfoldable pub mode_spec : String → Option ModeSpec
mode_spec id = find (λ spec. str_eq spec.id id) mode_specs

pub record PlayerInfo : Type 0 where
  pub user_id : PlayerId
  pub display_name : String
  pub state : PlayerState
  pub last_heartbeat : DateTime

pub record OpenSkillRating (R : Type 0) : Type 0 where
  pub mu : R
  pub sigma : R
  pub last_updated : DateTime

pub record MatchInfo : Type 0 where
  pub match_token : Token
  pub player_a : PlayerId
  pub player_a_difficulty : MatchDifficulty
  pub player_b : PlayerId
  pub player_b_difficulty : MatchDifficulty
  pub game_mode : String
  pub connection : ConnectionStrategy
  pub status : MatchStatus
  pub created_at : DateTime
  pub accepted_at : Option DateTime
  pub started_at : Option DateTime
  pub ended_at : Option DateTime
  pub server_address : Option String
  pub join_token : Option String
  pub result_secret : Option Uuid
  pub accepted_a : Bool
  pub accepted_b : Bool
  pub connected_a : Bool
  pub connected_b : Bool

pub record MatchReport : Type 0 where
  pub match_token : Token
  pub reporting_player : PlayerId
  pub winner : Option PlayerId
  pub demo_hash : Option String

pub data MatchOutcome (R : Type 0) : Type 0 where
  win loss draw forfeit : R → MatchOutcome R
  disputed unreviewable_dispute : MatchOutcome R

pub record QueueEntry (R : Type 0) : Type 0 where
  pub user_id : PlayerId
  pub game_mode : String
  pub difficulty : MatchDifficulty
  pub mu : R
  pub queued_at : DateTime
