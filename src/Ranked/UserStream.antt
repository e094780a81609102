-- ===== src/Ranked/UserStream.antt =====
-- The stream of one user's commands (`drain_one_user_command`, lobby-server/src/commands.rs).
use steam_lobby.Prelude.{
  ◌+◌, String, Option, none, some, Bool, true, false, not, ◌&&◌, ◌==◌, is_some, is_none, str_eq,
  any, select, update, if◌then◌else◌, modify,
}
use steam_lobby.Core.Types.{Uuid, PlayerState, MatchDifficulty}
use steam_lobby.Core.Error.{Code, LobbyError, ok}
use steam_lobby.Core.Action.{Action, pure, gets, ok_or, transaction, ◌>>=◌}
use steam_lobby.Store.Db.{Db}
use steam_lobby.Store.Numbers.{Numbers}
use steam_lobby.Store.Rows.{InboxRow, PlayerStateRow, QueueRow}
use steam_lobby.Store.Players.{insert_rating_row, default_rating}
use steam_lobby.Store.Queue.{seconds, upsert, is_entry}
use steam_lobby.Ranked.Types.{RankedCommand, is_pending}
use steam_lobby.Ranked.Config.{Config, ranked_mode}
use steam_lobby.Ranked.Finalize.{rating_in}
use steam_lobby.Ranked.Phase.{Applied}
use steam_lobby.Ranked.Drain.{first_by, same_key, status_after}

-- WHERE user_id = user AND user_sequence IS NOT NULL AND status = 'pending'
abbrev pub is_waiting_of : Uuid → InboxRow → Bool
is_waiting_of user row = row.user_id == user && is_some row.user_sequence && is_pending row.status

module _ {R : Type 0} (N : Numbers R) (c : Config) where
  abbrev is_active : Option PlayerStateRow → Bool
  is_active none = false
  is_active (some p) = is_some p.active_match_token

  -- the Queue command, once nothing stands against it
  abbrev pub join_queue : Uuid → String → MatchDifficulty → Db R → Db R
  join_queue user mode difficulty s =
      let s1 = record s {
        ratings = insert_rating_row user mode (default_rating N s.now) s.ratings;
      } in
      let lease = some (s.now + seconds c.ranked_queue_lease_secs) in
      let mu = (rating_in N s1 user mode).mu in
      record s1 {
        queue =
            upsert
              (record {
                user_id = user;
                game_mode = mode;
                match_difficulty = difficulty;
                mu = mu;
                queued_at = s.now;
                lease_expires_at = lease;
              })
              (λ old. record old {
                match_difficulty = difficulty;
                mu = mu;
                lease_expires_at = lease;
              })
              s1.queue;
        player_state =
            modify user (λ p. record p { state = PlayerState.queueing; last_heartbeat = s.now })
              s1.player_state;
      }

  abbrev pub leave_queue : Uuid → Db R → Db R
  leave_queue user s =
      let queue = select (λ q. not (is_entry user ranked_mode q)) s.queue in
      record s {
        queue = queue;
        player_state =
            modify user
              (λ p.
                if is_none p.active_match_token
                  && not (any (λ (q : QueueRow R). q.user_id == user) queue)
                then record p { state = PlayerState.in_menus }
                else p)
              s.player_state;
      }

  -- the lease of a ranked entry is renewed; native_sessions is no part of the state
  abbrev pub beat : Uuid → Db R → Db R
  beat user s = record s {
    player_state = modify user (λ p. record p { last_heartbeat = s.now }) s.player_state;
    queue =
        update (λ (q : QueueRow R). is_entry user ranked_mode q && is_some q.lease_expires_at)
          (λ q. record q { lease_expires_at = some (s.now + seconds c.ranked_queue_lease_secs) })
          s.queue;
  }

  unfoldable pub apply_user_command : Uuid → RankedCommand → Db R → Applied R
  apply_user_command user (RankedCommand.queue mode difficulty) s =
      if is_active (s.player_state user)
      then (some Code.match_state_mismatch, s)
      else if any (λ (q : QueueRow R). q.user_id == user && not (str_eq q.game_mode mode)) s.queue
      then (some Code.already_queued, s)
      else (none, join_queue user mode difficulty s)
  apply_user_command user RankedCommand.cancel_queue s = (none, leave_queue user s)
  apply_user_command user RankedCommand.heartbeat s = (none, beat user s)
  apply_user_command user _ s = (some Code.match_state_mismatch, s)

  abbrev finish_user : Uuid → Option InboxRow → Action (Db R) Bool
  finish_user user none = pure false
  finish_user user (some row) = do
    known ← gets (λ s. s.player_state user)
    p ← ok_or known (LobbyError.player_not_found user)
    λ s.
        let (code, s') = apply_user_command user row.payload s in
        (
          ok true,
          record s' {
            inbox =
                update (same_key row)
                  (λ r. record r { status = status_after code; error_code = code }) s'.inbox;
          },
        )

  -- without a row in command_user_counters the first query finds nothing, an error
  unfoldable pub drain_one_user_command : Uuid → Action (Db R) Bool
  unfolding first_by apply_user_command
  drain_one_user_command user = transaction (do
    counter ← gets (λ s. s.command_counters user)
    next ← ok_or counter (LobbyError.database "row not found")
    row ← gets (λ s. first_by (λ row. row.user_sequence) (select (is_waiting_of user) s.inbox))
    finish_user user row)
