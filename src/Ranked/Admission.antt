-- ===== src/Ranked/Admission.antt =====
-- The admission of ranked commands (`dispatch` and what it calls, lobby-server/src/commands.rs).
--
-- The hash of a canonical payload is a parameter; the payload and its hash are inserted together, so the
-- stored hash is the hash of the stored payload. The advisory and row locks order the transactions.
pub mod Once
use mathlib.Core.Option
use steam_lobby.Prelude.{
  ℕ, ◌+◌, String, Option, none, some, Bool, true, false, not, ◌&&◌, ◌||◌, ◌==◌, ◌!=◌, str_eq, ltb,
  is_some, is_none, any, find, if◌then◌else◌, List, [], ◌∷◌, ◌++◌, put, put_absent, modify,
}
use steam_lobby.Core.Types.{
  Uuid, PlayerId, Token, PlayerState, MatchInfo, ModeSpec, is_native_report,
}
use steam_lobby.Core.Error.{Code, LobbyError, Result, ok, err, code_of}
use steam_lobby.Core.Action.{
  Action, pure, raise, gets, modifies, ok_or, reject_if, transaction, lift, ◌>>=◌, ◌>>◌,
}
use steam_lobby.Core.Match.{is_participant}
use steam_lobby.Store.Db.{Db, new_v4}
use steam_lobby.Store.Rows.{InboxRow, PlayerStateRow, QueueRow, Umvc3Row}
use steam_lobby.Ranked.Types.{
  SessionKind, CommandStatus, LobbyRole, Umvc3Phase, RankedCommand, CommandActor, CommandReceipt,
  phase_eq, is_create, session_kind_eq, match_token,
}
use steam_lobby.Ranked.Config.{Config}

abbrev pub command_error : Code → LobbyError
command_error code = LobbyError.match_state_mismatch (code_of code)

abbrev pub is_command_of : CommandActor → Uuid → InboxRow → Bool
is_command_of actor id row =
    session_kind_eq row.session_kind actor.session_kind
    && row.session_id == actor.session_id
    && row.command_id == id

-- a lobby id that is there and not empty
abbrev names_lobby : Option String → Bool
names_lobby none = false
names_lobby (some id) = not (str_eq id "")

abbrev role_valid : Bool → LobbyRole → Option String → Bool
role_valid actor_is_a role lobby_id =
    if actor_is_a
    then is_create role && names_lobby lobby_id
    else not (is_create role) && is_none lobby_id

abbrev allowed_if : Bool → Result (Unit {0})
allowed_if true = ok tt
allowed_if false = err (command_error Code.match_state_mismatch)

abbrev in_attempt : Uuid → Uuid → Bool → Result (Unit {0})
in_attempt supplied attempt allowed =
    if supplied != attempt then err (command_error Code.stale_attempt) else allowed_if allowed

unfoldable pub validate_match_admission :
    RankedCommand → Umvc3Phase → Uuid → Bool → Result (Unit {0})
validate_match_admission (RankedCommand.accept _) phase attempt is_a =
    allowed_if (phase_eq phase Umvc3Phase.awaiting_accepted)
validate_match_admission (RankedCommand.decline _) phase attempt is_a =
    allowed_if (phase_eq phase Umvc3Phase.awaiting_accepted)
validate_match_admission (RankedCommand.trying _ supplied role lobby_id) phase attempt is_a =
    in_attempt supplied attempt (
      role_valid is_a role lobby_id
      && (phase_eq phase Umvc3Phase.awaiting_trying
          || is_a && phase_eq phase Umvc3Phase.awaiting_connect))
validate_match_admission (RankedCommand.connect _ supplied _ _) phase attempt is_a =
    in_attempt supplied attempt (phase_eq phase Umvc3Phase.awaiting_connect)
validate_match_admission (RankedCommand.ready _ supplied) phase attempt is_a =
    in_attempt supplied attempt (phase_eq phase Umvc3Phase.awaiting_ready)
validate_match_admission (RankedCommand.report _ _ _ _ _) phase attempt is_a =
    allowed_if (phase_eq phase Umvc3Phase.playing || phase_eq phase Umvc3Phase.awaiting_report)
validate_match_admission (RankedCommand.abandon _ _) phase attempt is_a =
    allowed_if (phase_eq phase Umvc3Phase.playing || phase_eq phase Umvc3Phase.awaiting_report)
validate_match_admission (RankedCommand.queue _ _) phase attempt is_a = allowed_if false
validate_match_admission RankedCommand.cancel_queue phase attempt is_a = allowed_if false
validate_match_admission RankedCommand.heartbeat phase attempt is_a = allowed_if false

abbrev pub receipt_of : InboxRow → CommandReceipt
receipt_of row = record {
  receipt = row.receipt;
  status = row.status;
  error_code = row.error_code;
  newly_admitted = false;
}

abbrev pub new_receipt : Uuid → CommandReceipt
new_receipt receipt = record {
  receipt = receipt;
  status = CommandStatus.pending;
  error_code = none;
  newly_admitted = true;
}

-- the row of a command that has just been admitted
abbrev pub admitted :
    CommandActor
    → Uuid
    → RankedCommand
    → Uuid
    → Option ℕ
    → Option Token
    → Option ℕ
    → Option ℕ
    → InboxRow
admitted actor id command receipt user_sequence t match_sequence version = record {
  session_kind = actor.session_kind;
  session_id = actor.session_id;
  command_id = id;
  receipt = receipt;
  user_id = actor.user_id;
  user_sequence = user_sequence;
  match_token = t;
  match_sequence = match_sequence;
  expected_phase_version = version;
  payload = command;
  status = CommandStatus.pending;
  error_code = none;
  processed_event_sequence = none;
}

-- state = InMenus or Queueing, and no active match
abbrev may_queue : PlayerStateRow → Bool
may_queue p = elim p.state [
  | PlayerState.in_menus ↦ is_none p.active_match_token
  | PlayerState.queueing ↦ is_none p.active_match_token
  | _ ↦ false
]

abbrev is_past : ℕ → Option ℕ → Bool
is_past now none = false
is_past now (some deadline) = ltb deadline now

abbrev in_other_mode : {R : Type 0} → String → Option (QueueRow R) → Bool
in_other_mode mode none = false
in_other_mode mode (some q) = not (str_eq q.game_mode mode)

abbrev replayed :
    (RankedCommand → ℕ) → RankedCommand → Option InboxRow → Result (Option CommandReceipt)
replayed digest command none = ok none
replayed digest command (some row) =
    if digest row.payload == digest command
    then ok (some (receipt_of row))
    else err (command_error Code.command_id_conflict)

module _ {R : Type 0} (digest : RankedCommand → ℕ) where
  unfoldable pub replay_receipt :
      CommandActor → Uuid → RankedCommand → Action (Db R) (Option CommandReceipt)
  replay_receipt actor id command s =
      (replayed digest command (find (is_command_of actor id) s.inbox), s)

  -- `if let Some(receipt) = … { return Ok(receipt) }`
  abbrev or_else :
      Option CommandReceipt → Action (Db R) CommandReceipt → Action (Db R) CommandReceipt
  or_else none m = m
  or_else (some receipt) m = pure receipt

  -- the checks of a Queue command against the player's row and its place in the queue
  abbrev check_queue : Uuid → RankedCommand → Action (Db R) (Unit {0})
  check_queue user (RankedCommand.queue mode _) = do
    row ← gets (λ s. s.player_state user)
    p ← ok_or row (LobbyError.player_not_found user)
    reject_if (not (may_queue p)) (command_error Code.match_state_mismatch)
    queued ← gets (λ s. find (λ (q : QueueRow R). q.user_id == user) s.queue)
    reject_if (in_other_mode mode queued) (command_error Code.already_queued)
  check_queue user _ = pure tt

  unfoldable pub admit_user_command :
      CommandActor → Uuid → RankedCommand → Action (Db R) CommandReceipt
  unfolding replay_receipt
  admit_user_command actor id command = transaction (do
    modifies (λ s. record s { command_counters = put_absent actor.user_id 1 s.command_counters })
    next_sequence ← gets (λ s. Option.get_or (s.command_counters actor.user_id) 1)
    existing ← replay_receipt actor id command
    or_else existing (do
      check_queue actor.user_id command
      receipt ← new_v4
      modifies (λ s. record s {
        inbox =
            s.inbox ++ admitted actor id command receipt (some next_sequence) none none none ∷ [];
        command_counters = modify actor.user_id (λ n. n + 1) s.command_counters;
      })
      pure (new_receipt receipt)))

  unfoldable pub admit_match_command :
      Token → CommandActor → Uuid → RankedCommand → Action (Db R) CommandReceipt
  unfolding replay_receipt validate_match_admission
  admit_match_command t actor id command = transaction (do
    row ← gets (λ s. s.matches t)
    m ← ok_or row (LobbyError.match_not_found t)
    extension ← gets (λ s. s.umvc3 t)
    u ← ok_or extension (command_error Code.match_state_mismatch)
    existing ← replay_receipt actor id command
    or_else existing (do
      reject_if (not (is_participant m actor.user_id)) (LobbyError.not_participant t)
      reject_if (phase_eq u.phase Umvc3Phase.terminal) (command_error Code.match_state_mismatch)
      late ← gets (λ s. is_past s.now u.phase_deadline)
      reject_if late (command_error Code.deadline_elapsed)
      lift (validate_match_admission command u.phase u.attempt_id (actor.user_id == m.player_a))
      receipt ← new_v4
      modifies (λ s. record s {
        inbox =
            s.inbox
            ++ admitted actor id command receipt none (some t) (some u.next_command_sequence)
                (some u.phase_version)
              ∷ [];
        umvc3 =
            modify t (λ v. record v { next_command_sequence = v.next_command_sequence + 1 })
              s.umvc3;
      })
      pure (new_receipt receipt)))

  abbrev check_mode : Config → RankedCommand → Action (Db R) (Unit {0})
  check_mode c (RankedCommand.queue mode _) = do
    reject_if (not c.ranked_queue_enabled) (command_error Code.ranked_queue_disabled)
    reject_if
        (not (
          any (λ (spec : ModeSpec). str_eq spec.id mode && is_native_report spec.authority)
            c.game_modes))
        (command_error Code.unsupported_ranked_mode)
  check_mode c _ = pure tt

  abbrev pub admit :
      Option Token → CommandActor → Uuid → RankedCommand → Action (Db R) CommandReceipt
  admit none = admit_user_command
  admit (some t) = admit_match_command t

  unfoldable pub dispatch :
      Config → CommandActor → Uuid → RankedCommand → Action (Db R) CommandReceipt
  unfolding replay_receipt match_token
  dispatch c actor id command = do
    existing ← replay_receipt actor id command
    or_else existing (do check_mode c command; admit (match_token command) actor id command)
