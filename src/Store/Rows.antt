-- ===== src/Store/Rows.antt =====
-- The rows of the tables of lobby-server/migrations, as far as the code reads and writes them.
-- A text column that holds the name of an enum's variant is that enum.
use steam_lobby.Prelude.{ℕ, String, Bool, Option}
use steam_lobby.Core.Types.{Uuid, PlayerId, Token, DateTime, PlayerState, MatchDifficulty}
use steam_lobby.Core.Error.{Code}
use steam_lobby.Ranked.Types.{
  SessionKind, CommandStatus, RelativeOutcome, RankedCommand, Umvc3Phase, StoredOutcome,
  TerminalReason, RequeueDecision,
}

pub record UserRow : Type 0 where
  pub display_name : String
  pub token_version : ℕ

pub record PlayerStateRow : Type 0 where
  pub state : PlayerState
  pub last_heartbeat : DateTime
  pub active_match_token : Option Token

-- A row of match_reports under its match.
pub record ReportRow : Type 0 where
  pub reporting_player : PlayerId
  pub winner : Option PlayerId
  pub demo_hash : Option String
  pub outcome : Option RelativeOutcome
  pub score : Option String
  pub checksum : Option String
  pub end_frame : Option ℕ

pub record ResultRow (R : Type 0) : Type 0 where
  pub outcome : StoredOutcome
  pub mu_change_a : Option R
  pub mu_change_b : Option R

pub data EventType : Type 0 where
  paired accepted declined lobby_published phase_changed command_result : EventType
  resolved disputed phase_expired : EventType

-- The JSON payloads that the code builds.
pub data Payload (R : Type 0) : Type 0 where
  empty : Payload R
  pairing : (opponent : Uuid) (creates : Bool) (deadline : DateTime) (attempt : Uuid) → Payload R
  lobby : Option String → Uuid → Payload R
  phase : Umvc3Phase → ℕ → Option DateTime → Uuid → Payload R
  expiry : TerminalReason → RequeueDecision → Payload R
  receipt : Uuid → CommandStatus → Option Code → Payload R
  result : StoredOutcome → Option R → Payload R

pub record EventRow (R : Type 0) : Type 0 where
  pub match_token : Token
  pub event_type : EventType
  pub actor : Option Uuid
  -- the recipient and its sequence number, both or neither (match_events_recipient_sequence_pair_check)
  pub recipient : Option (Uuid × ℕ)
  pub payload : Payload R

pub record QueueRow (R : Type 0) : Type 0 where
  pub user_id : PlayerId
  pub game_mode : String
  pub match_difficulty : MatchDifficulty
  pub mu : R
  pub queued_at : DateTime
  pub lease_expires_at : Option DateTime

pub record Umvc3Row : Type 0 where
  pub phase : Umvc3Phase
  pub terminal_reason : Option TerminalReason
  pub phase_version : ℕ
  pub next_command_sequence : ℕ
  pub phase_deadline : Option DateTime
  pub attempt_id : Uuid
  pub lobby_id : Option String
  pub trying_a : Bool
  pub trying_b : Bool
  pub connect_local_a : Bool
  pub connect_peer_a : Bool
  pub connect_local_b : Bool
  pub connect_peer_b : Bool
  pub ready_a : Bool
  pub ready_b : Bool
  pub abandon_vote_a : Option Uuid
  pub abandon_vote_b : Option Uuid
  pub original_queued_at_a : DateTime
  pub original_queued_at_b : DateTime

pub record InboxRow : Type 0 where
  pub session_kind : SessionKind
  pub session_id : Uuid
  pub command_id : Uuid
  pub receipt : Uuid
  pub user_id : Uuid
  pub user_sequence : Option ℕ
  pub match_token : Option Token
  pub match_sequence : Option ℕ
  pub expected_phase_version : Option ℕ
  pub payload : RankedCommand
  pub status : CommandStatus
  pub error_code : Option Code
  pub processed_event_sequence : Option ℕ
