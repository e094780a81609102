-- ===== src/Ranked/Types.antt =====
-- lobby-server/src/commands.rs (its types) and the verdicts of lobby-server/src/db/matches.rs.
use steam_lobby.Prelude.{ℕ, String, Bool, true, false, Option, none, some, ◌==◌}
use steam_lobby.Core.Types.{Uuid, PlayerId, Token, DateTime, MatchDifficulty}
use steam_lobby.Core.Error.{Code}

pub data SessionKind : Type 0 where
  native websocket : SessionKind

pub data CommandStatus : Type 0 where
  pending applied rejected : CommandStatus

pub data RelativeOutcome : Type 0 where
  win loss draw : RelativeOutcome

pub data AbandonTarget : Type 0 where
  self_player opponent : AbandonTarget

pub data LobbyRole : Type 0 where
  create join : LobbyRole

pub data Umvc3Phase : Type 0 where
  awaiting_accepted awaiting_trying awaiting_connect awaiting_ready : Umvc3Phase
  playing awaiting_report terminal : Umvc3Phase

abbrev phase_index : Umvc3Phase → ℕ
phase_index Umvc3Phase.awaiting_accepted = 0
phase_index Umvc3Phase.awaiting_trying = 1
phase_index Umvc3Phase.awaiting_connect = 2
phase_index Umvc3Phase.awaiting_ready = 3
phase_index Umvc3Phase.playing = 4
phase_index Umvc3Phase.awaiting_report = 5
phase_index Umvc3Phase.terminal = 6

abbrev pub phase_eq : Umvc3Phase → Umvc3Phase → Bool
phase_eq a b = phase_index a == phase_index b

abbrev pub is_create : LobbyRole → Bool
is_create LobbyRole.create = true
is_create LobbyRole.join = false

abbrev pub is_native : SessionKind → Bool
is_native SessionKind.native = true
is_native SessionKind.websocket = false

abbrev pub session_kind_eq : SessionKind → SessionKind → Bool
session_kind_eq SessionKind.native k = is_native k
session_kind_eq SessionKind.websocket SessionKind.websocket = true
session_kind_eq SessionKind.websocket SessionKind.native = false

abbrev pub is_pending : CommandStatus → Bool
is_pending CommandStatus.pending = true
is_pending _ = false

pub record CommandActor : Type 0 where
  pub user_id : Uuid
  pub session_kind : SessionKind
  pub session_id : Uuid

pub data RankedCommand : Type 0 where
  queue : String → MatchDifficulty → RankedCommand
  cancel_queue heartbeat : RankedCommand
  accept decline : Token → RankedCommand
  -- the attempt, the role and the lobby id
  trying : Token → Uuid → LobbyRole → Option String → RankedCommand
  -- the attempt, `local_reached` and `peer_reached`
  connect : Token → Uuid → Bool → Bool → RankedCommand
  ready : Token → Uuid → RankedCommand
  -- the outcome, the score, the checksum and the end frame
  report : Token → RelativeOutcome → Option String → Option String → Option ℕ → RankedCommand
  abandon : Token → AbandonTarget → RankedCommand

-- RankedCommand::match_token
unfoldable pub match_token : RankedCommand → Option Token
match_token (accept t) = some t
match_token (decline t) = some t
match_token (trying t _ _ _) = some t
match_token (connect t _ _ _) = some t
match_token (ready t _) = some t
match_token (report t _ _ _ _) = some t
match_token (abandon t _) = some t
match_token (queue _ _) = none
match_token cancel_queue = none
match_token heartbeat = none

pub record CommandReceipt : Type 0 where
  pub receipt : Uuid
  pub status : CommandStatus
  pub error_code : Option Code
  pub newly_admitted : Bool

pub data Umvc3Verdict : Type 0 where
  win : PlayerId → Umvc3Verdict
  draw disputed : Umvc3Verdict

pub record RequeueDecision : Type 0 where
  pub player_a : Bool
  pub player_b : Bool

-- The `outcome` column of match_results, which is seen from player A.
pub data StoredOutcome : Type 0 where
  win loss draw disputed forfeit : StoredOutcome

pub record StoredResolution (R : Type 0) : Type 0 where
  pub outcome : StoredOutcome
  pub mu_change_a : Option R
  pub mu_change_b : Option R
  pub newly_finalized : Bool

pub data TerminalReason : Type 0 where
  declined accept_timeout trying_timeout connect_timeout ready_timeout : TerminalReason
  playing_timeout resolved disputed : TerminalReason

pub record DrainMatchState : Type 0 where
  pub match_token : Token
  pub phase : Umvc3Phase
  pub phase_version : ℕ
  pub phase_deadline : Option DateTime
  pub remaining_ms : Option ℕ
  pub attempt_id : Uuid
  pub terminal : Bool
