-- ===== src/Ranked/Phase.antt =====
-- `transition_phase` and `terminal_unrated` (lobby-server/src/commands.rs).
--
-- The row of umvc3_matches is locked and read whole before a command is applied, and every UPDATE of
-- it is mirrored in the copy that was read: writing the new copy is that UPDATE.
use steam_lobby.Prelude.{ℕ, ◌+◌, Option, none, some, Bool, ◌==◌, if◌then◌else◌, put, modify}
use steam_lobby.Core.Types.{DateTime, PlayerId, MatchDifficulty, MatchInfo}
use steam_lobby.Core.Error.{Code}
use steam_lobby.Store.Db.{Db}
use steam_lobby.Store.Numbers.{Numbers}
use steam_lobby.Store.Rows.{Umvc3Row, EventType, Payload}
use steam_lobby.Store.Players.{insert_rating_row, default_rating}
use steam_lobby.Store.Queue.{seconds}
use steam_lobby.Ranked.Types.{Umvc3Phase, RequeueDecision, TerminalReason}
use steam_lobby.Ranked.Config.{Config}
use steam_lobby.Ranked.Events.{emit_simple_participant_event}
use steam_lobby.Ranked.Finalize.{ended, made_terminal, free_player}

-- What applying a command gives: the code of a refusal, and the database with all that was written.
abbrev pub Applied : Type 0 → Type 0
Applied R = Option Code × Db R

abbrev pub save : {R : Type 0} → MatchInfo → Umvc3Row → Db R → Db R
save m u s = record s { umvc3 = put m.match_token u s.umvc3 }

abbrev pub timeout_of : Config → Umvc3Phase → ℕ
timeout_of c Umvc3Phase.awaiting_accepted = c.match_accept_timeout_secs
timeout_of c Umvc3Phase.awaiting_trying = c.umvc3_trying_timeout_secs
timeout_of c Umvc3Phase.awaiting_connect = c.umvc3_connect_timeout_secs
timeout_of c Umvc3Phase.awaiting_ready = c.umvc3_ready_timeout_secs
timeout_of c Umvc3Phase.playing = c.umvc3_play_timeout_secs
timeout_of c Umvc3Phase.awaiting_report = c.report_timeout_secs
timeout_of c Umvc3Phase.terminal = 0

abbrev deadline_after : DateTime → ℕ → Option DateTime
deadline_after now timeout = if timeout == 0 then none else some (now + seconds timeout)

abbrev pub entering : Config → DateTime → Umvc3Phase → Umvc3Row → Umvc3Row
entering c now next u = record u {
  phase = next;
  phase_version = u.phase_version + 1;
  phase_deadline = deadline_after now (timeout_of c next);
}

module _ {R : Type 0} where
  abbrev pub phase_payload : Umvc3Row → Payload R
  phase_payload u = Payload.phase u.phase u.phase_version u.phase_deadline u.attempt_id

  -- the row afterwards, and the database
  unfoldable pub transition_phase :
      Config → MatchInfo → Umvc3Phase → Umvc3Row → Db R → Umvc3Row × Db R
  transition_phase c m next u s =
      let u' = entering c s.now next u in
      (
        u',
        emit_simple_participant_event m none EventType.phase_changed (phase_payload u')
            (save m u' s),
      )

module _ {R : Type 0} (N : Numbers R) where
  -- one round of the loop: a player that goes back to the queue has a rating from here on
  abbrev pub free_unrated :
      Config → MatchInfo → PlayerId → Bool → MatchDifficulty → DateTime → Db R → Db R
  free_unrated c m id should_requeue difficulty queued_at s =
      free_player N m id should_requeue difficulty queued_at c.ranked_queue_lease_secs (record s {
        ratings =
            if should_requeue
            then insert_rating_row id m.game_mode (default_rating N s.now) s.ratings
            else s.ratings;
      })

  unfoldable pub terminal_unrated :
      Config → MatchInfo → TerminalReason → RequeueDecision → EventType → Umvc3Row → Db R → Db R
  terminal_unrated c m reason requeue event_type u s =
      let s1 =
        free_unrated c m m.player_a requeue.player_a m.player_a_difficulty u.original_queued_at_a
          s in
      let s2 =
        free_unrated c m m.player_b requeue.player_b m.player_b_difficulty u.original_queued_at_b
          s1 in
      let s3 = record s2 { matches = modify m.match_token (ended s2.now) s2.matches } in
      emit_simple_participant_event m none event_type (Payload.expiry reason requeue)
        (save m (made_terminal reason u) s3)
