-- ===== src/Store/Text.antt =====
-- The texts that stand for enums in columns: the parse helpers of lobby-server/src/db/mod.rs, the
-- `as_str` and `parse` of lobby-server/src/commands.rs, and the names that `{:?}` prints.
use steam_lobby.Prelude.{String, str_eq, if◌then◌else◌, ◌≡◌, refl}
use steam_lobby.Core.Types.{PlayerState, MatchStatus, MatchDifficulty, ConnectionStrategy}
use steam_lobby.Ranked.Types.{SessionKind, CommandStatus, Umvc3Phase}

-- format!("{:?}", state)
abbrev pub player_state_text : PlayerState → String
player_state_text PlayerState.in_menus = "InMenus"
player_state_text PlayerState.queueing = "Queueing"
player_state_text PlayerState.match_accepted = "MatchAccepted"
player_state_text PlayerState.in_match = "InMatch"
player_state_text PlayerState.reporting = "Reporting"

unfoldable pub parse_player_state : String → PlayerState
parse_player_state s =
    if str_eq s "InMenus"
    then PlayerState.in_menus
    else if str_eq s "Queueing"
    then PlayerState.queueing
    else if str_eq s "MatchAccepted"
    then PlayerState.match_accepted
    else if str_eq s "InMatch"
    then PlayerState.in_match
    else if str_eq s "Reporting"
    then PlayerState.reporting
    else PlayerState.in_menus

-- format!("{:?}", status)
abbrev pub match_status_text : MatchStatus → String
match_status_text MatchStatus.pending_accept = "PendingAccept"
match_status_text MatchStatus.in_progress = "InProgress"
match_status_text MatchStatus.playing = "Playing"
match_status_text MatchStatus.reporting = "Reporting"
match_status_text MatchStatus.disputed = "Disputed"
match_status_text MatchStatus.resolved = "Resolved"

unfoldable pub parse_match_status : String → MatchStatus
parse_match_status s =
    if str_eq s "PendingAccept"
    then MatchStatus.pending_accept
    else if str_eq s "InProgress"
    then MatchStatus.in_progress
    else if str_eq s "Playing"
    then MatchStatus.playing
    else if str_eq s "Reporting"
    then MatchStatus.reporting
    else if str_eq s "Disputed"
    then MatchStatus.disputed
    else if str_eq s "Resolved"
    then MatchStatus.resolved
    else MatchStatus.pending_accept

-- format!("{:?}", difficulty).to_lowercase()
abbrev pub difficulty_text : MatchDifficulty → String
difficulty_text MatchDifficulty.easy = "easy"
difficulty_text MatchDifficulty.normal = "normal"
difficulty_text MatchDifficulty.hard = "hard"

unfoldable pub parse_difficulty : String → MatchDifficulty
parse_difficulty s =
    if str_eq s "easy"
    then MatchDifficulty.easy
    else if str_eq s "hard"
    then MatchDifficulty.hard
    else MatchDifficulty.normal

-- format!("{:?}", connection).to_lowercase()
abbrev pub connection_text : ConnectionStrategy → String
connection_text ConnectionStrategy.p2p = "p2p"
connection_text ConnectionStrategy.server = "server"

unfoldable pub parse_connection : String → ConnectionStrategy
parse_connection s = if str_eq s "server" then ConnectionStrategy.server else ConnectionStrategy.p2p

-- SessionKind::as_str
abbrev pub session_kind_text : SessionKind → String
session_kind_text SessionKind.native = "native"
session_kind_text SessionKind.websocket = "websocket"

unfoldable pub parse_session_kind : String → SessionKind
parse_session_kind s = if str_eq s "native" then SessionKind.native else SessionKind.websocket

-- CommandStatus::as_str
abbrev pub command_status_text : CommandStatus → String
command_status_text CommandStatus.pending = "pending"
command_status_text CommandStatus.applied = "applied"
command_status_text CommandStatus.rejected = "rejected"

unfoldable pub parse_command_status : String → CommandStatus
parse_command_status s =
    if str_eq s "applied"
    then CommandStatus.applied
    else if str_eq s "rejected"
    then CommandStatus.rejected
    else CommandStatus.pending

-- Umvc3Phase::as_str
abbrev pub phase_text : Umvc3Phase → String
phase_text Umvc3Phase.awaiting_accepted = "AwaitingAccepted"
phase_text Umvc3Phase.awaiting_trying = "AwaitingTrying"
phase_text Umvc3Phase.awaiting_connect = "AwaitingConnect"
phase_text Umvc3Phase.awaiting_ready = "AwaitingReady"
phase_text Umvc3Phase.playing = "Playing"
phase_text Umvc3Phase.awaiting_report = "AwaitingReport"
phase_text Umvc3Phase.terminal = "Terminal"

unfoldable pub parse_phase : String → Umvc3Phase
parse_phase s =
    if str_eq s "AwaitingAccepted"
    then Umvc3Phase.awaiting_accepted
    else if str_eq s "AwaitingTrying"
    then Umvc3Phase.awaiting_trying
    else if str_eq s "AwaitingConnect"
    then Umvc3Phase.awaiting_connect
    else if str_eq s "AwaitingReady"
    then Umvc3Phase.awaiting_ready
    else if str_eq s "Playing"
    then Umvc3Phase.playing
    else if str_eq s "AwaitingReport"
    then Umvc3Phase.awaiting_report
    else Umvc3Phase.terminal

parse_player_state-text : (x : PlayerState) → parse_player_state (player_state_text x) ≡ x
unfolding parse_player_state
parse_player_state-text PlayerState.in_menus = refl
parse_player_state-text PlayerState.queueing = refl
parse_player_state-text PlayerState.match_accepted = refl
parse_player_state-text PlayerState.in_match = refl
parse_player_state-text PlayerState.reporting = refl

pub parse_match_status-text : (x : MatchStatus) → parse_match_status (match_status_text x) ≡ x
unfolding parse_match_status
parse_match_status-text MatchStatus.pending_accept = refl
parse_match_status-text MatchStatus.in_progress = refl
parse_match_status-text MatchStatus.playing = refl
parse_match_status-text MatchStatus.reporting = refl
parse_match_status-text MatchStatus.disputed = refl
parse_match_status-text MatchStatus.resolved = refl

pub parse_difficulty-text : (x : MatchDifficulty) → parse_difficulty (difficulty_text x) ≡ x
unfolding parse_difficulty
parse_difficulty-text MatchDifficulty.easy = refl
parse_difficulty-text MatchDifficulty.normal = refl
parse_difficulty-text MatchDifficulty.hard = refl

pub parse_connection-text : (x : ConnectionStrategy) → parse_connection (connection_text x) ≡ x
unfolding parse_connection
parse_connection-text ConnectionStrategy.p2p = refl
parse_connection-text ConnectionStrategy.server = refl

parse_session_kind-text : (x : SessionKind) → parse_session_kind (session_kind_text x) ≡ x
unfolding parse_session_kind
parse_session_kind-text SessionKind.native = refl
parse_session_kind-text SessionKind.websocket = refl

parse_command_status-text : (x : CommandStatus) → parse_command_status (command_status_text x) ≡ x
unfolding parse_command_status
parse_command_status-text CommandStatus.pending = refl
parse_command_status-text CommandStatus.applied = refl
parse_command_status-text CommandStatus.rejected = refl

parse_phase-text : (x : Umvc3Phase) → parse_phase (phase_text x) ≡ x
unfolding parse_phase
parse_phase-text Umvc3Phase.awaiting_accepted = refl
parse_phase-text Umvc3Phase.awaiting_trying = refl
parse_phase-text Umvc3Phase.awaiting_connect = refl
parse_phase-text Umvc3Phase.awaiting_ready = refl
parse_phase-text Umvc3Phase.playing = refl
parse_phase-text Umvc3Phase.awaiting_report = refl
parse_phase-text Umvc3Phase.terminal = refl

-- Every state, status, phase, session kind and command status is read back from the text that
-- is written for it.
pub parse-text :
    ((x : PlayerState) → parse_player_state (player_state_text x) ≡ x)
    × ((x : MatchStatus) → parse_match_status (match_status_text x) ≡ x)
    × ((x : MatchDifficulty) → parse_difficulty (difficulty_text x) ≡ x)
    × ((x : ConnectionStrategy) → parse_connection (connection_text x) ≡ x)
    × ((x : SessionKind) → parse_session_kind (session_kind_text x) ≡ x)
    × ((x : CommandStatus) → parse_command_status (command_status_text x) ≡ x)
    × ((x : Umvc3Phase) → parse_phase (phase_text x) ≡ x)
parse-text = (
  parse_player_state-text, parse_match_status-text, parse_difficulty-text, parse_connection-text,
  parse_session_kind-text, parse_command_status-text, parse_phase-text,
)
