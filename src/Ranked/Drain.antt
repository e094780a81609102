-- ===== src/Ranked/Drain.antt =====
-- The worker over the admitted commands and the timers (`drain_match`, `drain_one_match_command`,
-- `expire` and `load_match_state`, lobby-server/src/commands.rs).
--
-- The loop that drains a match runs on fuel, one more than the number of its pending commands.
pub mod Progress
pub mod Order
pub mod Places
pub mod Timers
use mathlib.Core.Option
use steam_lobby.Prelude.{
  ℕ, zero, suc, ◌+◌, ◌-◌, ◌/◌, String, Option, none, some, Bool, true, false, not, ◌&&◌, ◌||◌, ◌==◌,
  leb, ltb, is_some, is_none, str_eq, any, find, select, update, length, if◌then◌else◌, List, [],
  ◌∷◌, ◌++◌, modify, option_eq,
}
use steam_lobby.Core.Types.{
  Uuid, PlayerId, Token, DateTime, PlayerState, MatchInfo, MatchDifficulty,
}
use steam_lobby.Core.Error.{Code, LobbyError, Result, ok, err}
use steam_lobby.Core.Action.{
  Action, pure, raise, gets, modifies, ok_or, reject_if, transaction, ◌>>=◌, ◌>>◌,
}
use steam_lobby.Store.Db.{Db}
use steam_lobby.Store.Numbers.{Numbers}
use steam_lobby.Store.Rows.{InboxRow, PlayerStateRow, QueueRow, Umvc3Row, EventType, Payload}
use steam_lobby.Store.Players.{insert_rating_row, default_rating}
use steam_lobby.Store.Queue.{seconds, upsert, is_entry}
use steam_lobby.Ranked.Types.{
  SessionKind, CommandStatus, Umvc3Phase, Umvc3Verdict, RankedCommand, RequeueDecision,
  TerminalReason, DrainMatchState, phase_eq, session_kind_eq, is_pending,
}
use steam_lobby.Ranked.Config.{Config, ranked_mode}
use steam_lobby.Ranked.Events.{emit_recipient_events, emit_simple_participant_event}
use steam_lobby.Ranked.Finalize.{finalize_umvc3_in_tx, rating_in}
use steam_lobby.Ranked.Evidence.{no_requeue}
use steam_lobby.Ranked.Phase.{Applied, terminal_unrated}
use steam_lobby.Ranked.Apply.{apply_match_command}
use steam_lobby.Ranked.Admission.{command_error}

-- WHERE match_token = t AND status = 'pending'
abbrev pub is_waiting : Token → InboxRow → Bool
is_waiting t row = option_eq row.match_token (some t) && is_pending row.status

-- a before b in ORDER BY … ASC, where NULL is last
abbrev pub precedes : Option ℕ → Option ℕ → Bool
precedes none b = false
precedes (some a) none = true
precedes (some a) (some b) = ltb a b

-- ORDER BY key LIMIT 1
abbrev pub earlier : (InboxRow → Option ℕ) → InboxRow → Option InboxRow → InboxRow
earlier key x none = x
earlier key x (some y) = if precedes (key y) (key x) then y else x

unfoldable pub first_by : (InboxRow → Option ℕ) → List InboxRow → Option InboxRow
first_by key [] = none
first_by key (x ∷ xs) = some (earlier key x (first_by key xs))

-- the row of the same key (session_kind, session_id, command_id)
abbrev pub same_key : InboxRow → InboxRow → Bool
same_key x row =
    session_kind_eq row.session_kind x.session_kind
    && row.session_id == x.session_id
    && row.command_id == x.command_id

abbrev is_database_error : Code → Bool
is_database_error Code.database_error = true
is_database_error _ = false

abbrev pub has_failed : Option Code → Bool
has_failed none = false
has_failed (some code) = is_database_error code

abbrev pub status_after : Option Code → CommandStatus
status_after none = CommandStatus.applied
status_after (some _) = CommandStatus.rejected

abbrev pub decided : Option Code → Option ℕ → InboxRow → InboxRow
decided code sequence row = record row {
  status = status_after code;
  error_code = code;
  processed_event_sequence = sequence;
}

abbrev head : List ℕ → Option ℕ
head [] = none
head (n ∷ _) = some n

abbrev is_due : DateTime → Option DateTime → Bool
is_due now none = false
is_due now (some deadline) = leb deadline now

-- whom a phase that runs out sends back to the queue
abbrev pub requeue_at : MatchInfo → Umvc3Row → Umvc3Phase → RequeueDecision
requeue_at m u Umvc3Phase.awaiting_accepted = record {
  player_a = m.accepted_a;
  player_b = m.accepted_b;
}
requeue_at m u Umvc3Phase.awaiting_trying = record { player_a = u.trying_a; player_b = u.trying_b }
requeue_at m u Umvc3Phase.awaiting_connect = record { player_a = true; player_b = true }
requeue_at m u Umvc3Phase.awaiting_ready = record { player_a = u.ready_a; player_b = u.ready_b }
requeue_at m u _ = no_requeue

abbrev pub reason_at : Umvc3Phase → TerminalReason
reason_at Umvc3Phase.awaiting_accepted = TerminalReason.accept_timeout
reason_at Umvc3Phase.awaiting_trying = TerminalReason.trying_timeout
reason_at Umvc3Phase.awaiting_connect = TerminalReason.connect_timeout
reason_at Umvc3Phase.awaiting_ready = TerminalReason.ready_timeout
reason_at Umvc3Phase.playing = TerminalReason.playing_timeout
reason_at _ = TerminalReason.disputed

abbrev pub is_rated : Umvc3Phase → Bool
is_rated Umvc3Phase.playing = true
is_rated Umvc3Phase.awaiting_report = true
is_rated _ = false

abbrev pub must_expire : DateTime → ℕ → Umvc3Row → Bool
must_expire now expected u =
    not (phase_eq u.phase Umvc3Phase.terminal)
    && u.phase_version == expected
    && is_due now u.phase_deadline

-- (deadline - now).num_milliseconds().max(0)
abbrev state_of : Token → DateTime → Umvc3Row → DrainMatchState
state_of t now u = record {
  match_token = t;
  phase = u.phase;
  phase_version = u.phase_version;
  phase_deadline = u.phase_deadline;
  remaining_ms = Option.map (λ deadline. (deadline - now) / 1000) u.phase_deadline;
  attempt_id = u.attempt_id;
  terminal = phase_eq u.phase Umvc3Phase.terminal;
}

module _ {R : Type 0} where
  unfoldable pub load_match_state : Token → Action (Db R) DrainMatchState
  load_match_state t = do
    row ← gets (λ s. s.umvc3 t)
    u ← ok_or row (command_error Code.match_state_mismatch)
    gets (λ s. state_of t s.now u)

  -- the answer to the player, and the outcome of the command
  abbrev pub record_outcome : Token → InboxRow → Option Code → Db R → Db R
  record_outcome t row code s =
      let (sequences, s') =
        emit_recipient_events t (some row.user_id)
          ((
            row.user_id,
            EventType.command_result,
            Payload.receipt row.receipt (status_after code) code,
          )
            ∷ [])
          s in
      record s' { inbox = update (same_key row) (decided code (head sequences)) s'.inbox }

  -- the end of the transaction that began in `before`
  abbrev conclude_command : Token → InboxRow → Db R → Applied R → Result Bool × Db R
  conclude_command t row before (code, after) =
      if has_failed code
      then (err (LobbyError.database "ranked command application failed"), before)
      else (ok true, record_outcome t row code after)

  abbrev pub pending_count : Token → Db R → ℕ
  pending_count t s = length (select (is_waiting t) s.inbox)

module _ {R : Type 0} (N : Numbers R) (c : Config) where
  unfoldable pub apply_unless_terminal : MatchInfo → Umvc3Row → InboxRow → Db R → Applied R
  unfolding apply_match_command
  apply_unless_terminal m u row s =
      if phase_eq u.phase Umvc3Phase.terminal
      then (some Code.match_state_mismatch, s)
      else apply_match_command N c m u row.user_id row.payload s

  abbrev pub decide_next :
      Token → MatchInfo → Umvc3Row → Option InboxRow → Db R → Result Bool × Db R
  decide_next t m u none s = (ok false, s)
  decide_next t m u (some row) s = conclude_command t row s (apply_unless_terminal m u row s)

  unfoldable pub drain_one_match_command : Token → Action (Db R) Bool
  unfolding first_by
  drain_one_match_command t = do
    row ← gets (λ s. s.matches t)
    m ← ok_or row (LobbyError.match_not_found t)
    extension ← gets (λ s. s.umvc3 t)
    u ← ok_or extension (command_error Code.match_state_mismatch)
    λ s. decide_next t m u (first_by (λ row. row.match_sequence) (select (is_waiting t) s.inbox)) s

  abbrev pub go_on : Result Bool × Db R → Result (Unit {0}) × Db R → Result (Unit {0}) × Db R
  go_on (ok true, s) rest = rest
  go_on (ok false, s) rest = (ok tt, s)
  go_on (err e, s) rest = (err e, s)

  -- while drain_one_match_command(…)? {}
  unfoldable pub drain_loop : ℕ → Token → Action (Db R) (Unit {0})
  drain_loop zero t s = (ok tt, s)
  drain_loop (suc fuel) t s =
      let step = drain_one_match_command t s in
      let rest = drain_loop fuel t step.1 in go_on step rest

  abbrev pub drain_all : Token → Action (Db R) (Unit {0})
  drain_all t s = drain_loop (suc (pending_count t s)) t s

  unfoldable pub drain_match : Token → Action (Db R) DrainMatchState
  unfolding load_match_state
  drain_match t = do drain_all t; load_match_state t

  -- the writes of a phase that has run out
  unfoldable pub run_out : MatchInfo → Umvc3Row → Action (Db R) (Unit {0})
  run_out m u s =
      let told =
        emit_simple_participant_event m none EventType.phase_expired
          (Payload.expiry (reason_at u.phase) no_requeue) s in
      let finished =
        (finalize_umvc3_in_tx N m.match_token Umvc3Verdict.disputed no_requeue >> pure tt) told in
      if is_rated u.phase then finished else (
        ok tt,
        terminal_unrated N c m (reason_at u.phase) (requeue_at m u u.phase) EventType.phase_expired
            u s,
      )

  abbrev expire_if : Bool → MatchInfo → Umvc3Row → Action (Db R) (Unit {0})
  expire_if true m u = run_out m u
  expire_if false m u = pure tt

  -- the transaction of `expire`
  unfoldable pub expire_phase : Token → ℕ → Action (Db R) (Unit {0})
  expire_phase t expected = transaction (do
    row ← gets (λ s. s.matches t)
    m ← ok_or row (LobbyError.match_not_found t)
    extension ← gets (λ s. s.umvc3 t)
    u ← ok_or extension (command_error Code.match_state_mismatch)
    λ s. expire_if (must_expire s.now expected u) m u s)

  unfoldable pub expire : Token → ℕ → Action (Db R) DrainMatchState
  unfolding expire_phase load_match_state
  expire t expected = do drain_all t; expire_phase t expected; load_match_state t
