-- ===== src/Ranked/Apply.antt =====
-- `apply_match_command` (lobby-server/src/commands.rs), one function for each command.
pub mod Refusals
pub mod Phases
pub mod Admitted
use mathlib.Core.Option
use steam_lobby.Prelude.{
  ℕ, ◌+◌, String, Option, none, some, Bool, true, false, not, ◌&&◌, ◌||◌, ◌==◌, ◌!=◌, option_eq,
  is_some, is_none, any, leb, if◌then◌else◌, List, [], ◌∷◌, ◌++◌, put, modify,
}
use steam_lobby.Core.Types.{Uuid, PlayerId, PlayerState, MatchStatus, MatchInfo}
use steam_lobby.Core.Error.{Code, ok}
use steam_lobby.Store.Db.{Db}
use steam_lobby.Store.Numbers.{Numbers}
use steam_lobby.Store.Rows.{Umvc3Row, ReportRow, PlayerStateRow, EventType, Payload, InboxRow}
use steam_lobby.Store.Matches.{insert_report, has_report}
use steam_lobby.Store.Queue.{seconds}
use steam_lobby.Ranked.Types.{
  Umvc3Phase, RankedCommand, LobbyRole, RelativeOutcome, AbandonTarget, RequeueDecision,
  TerminalReason, phase_eq, is_create,
}
use steam_lobby.Ranked.Config.{Config}
use steam_lobby.Ranked.Events.{emit_simple_participant_event}
use steam_lobby.Ranked.Evidence.{resolve_evidence, other_player}
use steam_lobby.Ranked.Phase.{Applied, save, phase_payload, transition_phase, terminal_unrated}

abbrev is_live : Umvc3Phase → Bool
is_live Umvc3Phase.playing = true
is_live Umvc3Phase.awaiting_report = true
is_live _ = false

-- connect_local_a OR local_reached, and so on
abbrev pub connected : Bool → Bool → Bool → Umvc3Row → Umvc3Row
connected true local_reached peer_reached u = record u {
  connect_local_a = u.connect_local_a || local_reached;
  connect_peer_a = u.connect_peer_a || peer_reached;
}
connected false local_reached peer_reached u = record u {
  connect_local_b = u.connect_local_b || local_reached;
  connect_peer_b = u.connect_peer_b || peer_reached;
}

abbrev pub all_connected : Umvc3Row → Bool
all_connected u = u.connect_local_a && u.connect_peer_a && u.connect_local_b && u.connect_peer_b

abbrev pub readied : Bool → Umvc3Row → Umvc3Row
readied true u = record u { ready_a = true }
readied false u = record u { ready_b = true }

abbrev pub voted : Bool → Uuid → Umvc3Row → Umvc3Row
voted true target u = record u { abandon_vote_a = some target }
voted false target u = record u { abandon_vote_b = some target }

abbrev pub vote_of : Bool → Umvc3Row → Option Uuid
vote_of true u = u.abandon_vote_a
vote_of false u = u.abandon_vote_b

abbrev pub target_id : MatchInfo → Uuid → AbandonTarget → Uuid
target_id m user AbandonTarget.self_player = user
target_id m user AbandonTarget.opponent = other_player m user

-- A new lobby of the creator's in AwaitingConnect: the connection starts over, as a new attempt.
abbrev pub republished : Config → ℕ → Uuid → Option String → Umvc3Row → Umvc3Row
republished c now attempt lobby_id u = record u {
  attempt_id = attempt;
  lobby_id = lobby_id;
  trying_a = true;
  trying_b = false;
  connect_local_a = false;
  connect_peer_a = false;
  connect_local_b = false;
  connect_peer_b = false;
  ready_a = false;
  ready_b = false;
  phase_version = u.phase_version + 1;
  phase_deadline = some (now + seconds c.umvc3_connect_timeout_secs);
}

abbrev pub set_accepted : Bool → MatchInfo → MatchInfo
set_accepted true m = record m { accepted_a = true }
set_accepted false m = record m { accepted_b = true }

abbrev pub mark_playing : ℕ → MatchInfo → MatchInfo
mark_playing now m = record m {
  status = MatchStatus.playing;
  started_at = some (Option.get_or m.started_at now);
}

abbrev enter_match : PlayerStateRow → PlayerStateRow
enter_match p = record p { state = PlayerState.in_match }

-- the same role on both sides of `actor_is_a != (role == Create)`
abbrev fits_role : Bool → LobbyRole → Option String → Bool
fits_role true LobbyRole.create lobby_id = is_some lobby_id
fits_role false LobbyRole.join lobby_id = is_none lobby_id
fits_role true LobbyRole.join _ = false
fits_role false LobbyRole.create _ = false

-- `frame as i64` of a u64 is below 0, which CHECK (end_frame >= 0) of match_reports refuses
abbrev is_negative : Option ℕ → Bool
is_negative none = false
is_negative (some frame) = leb 9_223_372_036_854_775_808 frame

-- INSERT INTO match_reports
abbrev pub report_row :
    Uuid → RelativeOutcome → Option String → Option String → Option ℕ → ReportRow
report_row user outcome score checksum end_frame = record {
  reporting_player = user;
  winner = none;
  demo_hash = none;
  outcome = some outcome;
  score = score;
  checksum = checksum;
  end_frame = end_frame;
}

module _ {R : Type 0} where
  abbrev pub reported : MatchInfo → ReportRow → Db R → Db R
  reported m row s = record s {
    reports = λ t. if t == m.match_token then s.reports t ++ row ∷ [] else s.reports t;
  }

  abbrev refuse : Code → Db R → Applied R
  refuse code s = (some code, s)

  abbrev goes_to : Config → MatchInfo → Umvc3Phase → Umvc3Row → Db R → Applied R
  goes_to c m next u s = (none, (transition_phase c m next u s).1)

  unfoldable pub apply_accept : Config → MatchInfo → Uuid → Bool → Umvc3Row → Db R → Applied R
  apply_accept c m user is_a u s =
      let s1 = record s { matches = modify m.match_token (set_accepted is_a) s.matches } in
      let both = if is_a then m.accepted_b else m.accepted_a in
      let s2 = emit_simple_participant_event m (some user) EventType.accepted Payload.empty s1 in
      if not (phase_eq u.phase Umvc3Phase.awaiting_accepted)
      then refuse Code.match_state_mismatch s
      else if both
      then goes_to c m Umvc3Phase.awaiting_trying u s2
      else (none, s2)

  -- the first publication of a lobby, or the answer of the player that joins it
  abbrev try_first :
      Config → MatchInfo → Uuid → Bool → Uuid → Option String → Umvc3Row → Db R → Applied R
  try_first c m user true attempt lobby_id u s =
      let u' = record u { trying_a = true; lobby_id = lobby_id } in
      let s' =
        emit_simple_participant_event m (some user) EventType.lobby_published
          (Payload.lobby lobby_id attempt) (save m u' s) in
      if u'.trying_b then goes_to c m Umvc3Phase.awaiting_connect u' s' else (none, s')
  try_first c m user false attempt lobby_id u s =
      let u' = record u { trying_b = true } in
      let s' = save m u' s in
      if u'.trying_a then goes_to c m Umvc3Phase.awaiting_connect u' s' else (none, s')

  unfoldable pub apply_trying :
      Config
      → MatchInfo
      → Uuid
      → Bool
      → Uuid
      → LobbyRole
      → Option String
      → Umvc3Row
      → Db R
      → Applied R
  apply_trying c m user is_a attempt role lobby_id u s =
      let new_attempt = s.entropy s.drawn in
      let u' = republished c s.now new_attempt lobby_id u in
      let s1 = save m u' (record s { drawn = s.drawn + 1 }) in
      let s2 =
        emit_simple_participant_event m (some user) EventType.lobby_published
          (Payload.lobby lobby_id new_attempt) s1 in
      let s3 =
        emit_simple_participant_event m (some user) EventType.phase_changed (phase_payload u') s2 in
      if attempt != u.attempt_id
      then refuse Code.stale_attempt s
      else if is_a
          && is_create role
          && is_some lobby_id
          && phase_eq u.phase Umvc3Phase.awaiting_connect
      then (none, s3)
      else if not (phase_eq u.phase Umvc3Phase.awaiting_trying && fits_role is_a role lobby_id)
      then refuse Code.match_state_mismatch s
      else try_first c m user is_a attempt lobby_id u s

  unfoldable pub apply_connect :
      Config → MatchInfo → Bool → Uuid → Bool → Bool → Umvc3Row → Db R → Applied R
  apply_connect c m is_a attempt local_reached peer_reached u s =
      let u' = connected is_a local_reached peer_reached u in
      let s' = save m u' s in
      if attempt != u.attempt_id
      then refuse Code.stale_attempt s
      else if not (phase_eq u.phase Umvc3Phase.awaiting_connect)
      then refuse Code.match_state_mismatch s
      else if all_connected u'
      then goes_to c m Umvc3Phase.awaiting_ready u' s'
      else (none, s')

  unfoldable pub apply_ready : Config → MatchInfo → Bool → Uuid → Umvc3Row → Db R → Applied R
  apply_ready c m is_a attempt u s =
      let u' = readied is_a u in
      let s' = save m u' s in
      let started = record s' {
        matches = modify m.match_token (mark_playing s.now) s'.matches;
        player_state =
            modify m.player_b enter_match (modify m.player_a enter_match s'.player_state);
      } in
      if attempt != u.attempt_id
      then refuse Code.stale_attempt s
      else if not (phase_eq u.phase Umvc3Phase.awaiting_ready)
      then refuse Code.match_state_mismatch s
      else if u'.ready_a && u'.ready_b
      then goes_to c m Umvc3Phase.playing u' started
      else (none, s')

module _ {R : Type 0} (N : Numbers R) where
  unfoldable pub apply_decline : Config → MatchInfo → Bool → Umvc3Row → Db R → Applied R
  apply_decline c m is_a u s =
      let requeue : RequeueDecision = record { player_a = not is_a; player_b = is_a } in
      if not (phase_eq u.phase Umvc3Phase.awaiting_accepted)
      then refuse Code.match_state_mismatch s
      else (none, terminal_unrated N c m TerminalReason.declined requeue EventType.declined u s)

  -- the first evidence moves the match from Playing to AwaitingReport
  unfoldable pub weigh : Config → MatchInfo → Umvc3Row → Db R → Applied R
  weigh c m u s =
      let moved = transition_phase c m Umvc3Phase.awaiting_report u s in
      if phase_eq u.phase Umvc3Phase.playing
      then resolve_evidence N m moved.0 moved.1
      else resolve_evidence N m u s

  unfoldable pub apply_report :
      Config
      → MatchInfo
      → Uuid
      → RelativeOutcome
      → Option String
      → Option String
      → Option ℕ
      → Umvc3Row
      → Db R
      → Applied R
  apply_report c m user outcome score checksum end_frame u s =
      if not (is_live u.phase)
      then refuse Code.match_state_mismatch s
      else if is_negative end_frame
      then refuse Code.database_error s
      else if has_report user (s.reports m.match_token)
      then refuse Code.duplicate_report s
      else weigh c m u (reported m (report_row user outcome score checksum end_frame) s)

  unfoldable pub apply_abandon :
      Config → MatchInfo → Uuid → Bool → AbandonTarget → Umvc3Row → Db R → Applied R
  apply_abandon c m user is_a target u s =
      let u' = voted is_a (target_id m user target) u in
      if not (is_live u.phase)
      then refuse Code.match_state_mismatch s
      else if is_some (vote_of is_a u)
      then refuse Code.duplicate_report s
      else weigh c m u' (save m u' s)

  abbrev apply_command :
      Config → MatchInfo → Umvc3Row → Uuid → Bool → RankedCommand → Db R → Applied R
  apply_command c m u user is_a (RankedCommand.accept _) = apply_accept c m user is_a u
  apply_command c m u user is_a (RankedCommand.decline _) = apply_decline c m is_a u
  apply_command c m u user is_a (RankedCommand.trying _ attempt role lobby_id) =
      apply_trying c m user is_a attempt role lobby_id u
  apply_command c m u user is_a (RankedCommand.connect _ attempt local_reached peer_reached) =
      apply_connect c m is_a attempt local_reached peer_reached u
  apply_command c m u user is_a (RankedCommand.ready _ attempt) = apply_ready c m is_a attempt u
  apply_command c m u user is_a (RankedCommand.report _ outcome score checksum end_frame) =
      apply_report c m user outcome score checksum end_frame u
  apply_command c m u user is_a (RankedCommand.abandon _ target) =
      apply_abandon c m user is_a target u
  apply_command c m u user is_a (RankedCommand.queue _ _) = refuse Code.match_state_mismatch
  apply_command c m u user is_a RankedCommand.cancel_queue = refuse Code.match_state_mismatch
  apply_command c m u user is_a RankedCommand.heartbeat = refuse Code.match_state_mismatch

  unfoldable pub apply_match_command :
      Config → MatchInfo → Umvc3Row → Uuid → RankedCommand → Db R → Applied R
  apply_match_command c m u user command s =
      let is_a = user == m.player_a in
      let applied = apply_command c m u user is_a command s in
      if not is_a && user != m.player_b then refuse Code.not_participant s else applied
