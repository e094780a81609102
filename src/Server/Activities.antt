-- ===== src/Server/Activities.antt =====
-- lobby-server/src/temporal/activities.rs: the activities of the workflows, over the server's state.
-- The server runs MatchManager and PlayerManager with `DefaultCallbacks`.
use mathlib.Core.Option
use steam_lobby.Prelude.{
  String, Bool, true, not, ◌&&◌, ◌==◌, str_eq, ltb, find, length, Option, none, some, if◌then◌else◌,
}
use steam_lobby.Core.Types.{
  PlayerId, Token, PlayerState, MatchStatus, MatchEvent, MatchInfo, MatchOutcome, ModeSpec,
  QueueEntry, match_status_eq, is_native_report,
}
use steam_lobby.Core.Error.{LobbyError}
use steam_lobby.Core.Action.{Action, pure, gets, ok_or, ◌>>=◌, ◌>>◌}
use steam_lobby.Core.Callbacks.{default_callbacks}
use steam_lobby.Core.Player.{reporting_complete, state_or_menus}
use steam_lobby.Core.Match
use steam_lobby.Store.Numbers.{Numbers}
use steam_lobby.Store.Players
use steam_lobby.Store.Players.{get_player_state, get_rating, update_heartbeat}
use steam_lobby.Store.Queue.{enqueue, dequeue, get_queue, get_queued_entry}
use steam_lobby.Store.Matches.{
  get_match, update_match, update_match_status, mark_accepted, record_match_event,
}
use steam_lobby.Pairing.Form
use steam_lobby.Pairing.Next.{pair_next_match_with_accept_timeout}
use steam_lobby.Server.State.{
  AppState, QueueArgs, ServerMessage, opponent_connected, match_declined, match_started, game_over,
  match_result, on_db, ignore, if_found, when, send, notify_match_players, spawn_pong, spawn_rps,
}
use steam_lobby.Server.Signals.{
  signal_session_complete, notify_match_found, start_p2p_match, start_umvc3_match, pause_if_idle,
  ensure_running,
}

-- the player's state and its queue entry, for the start of a session
pub record SessionSync (R : Type 0) : Type 0 where
  pub state : PlayerState
  pub queued : Option (QueueEntry R)

abbrev pub opponent : MatchInfo → PlayerId → PlayerId
opponent m user = if user == m.player_a then m.player_b else m.player_a

abbrev is_reporting : MatchInfo → Bool
is_reporting m = match_status_eq m.status MatchStatus.reporting

module _ {R : Type 0} where
  unfoldable pub verify_match : Token → Action (AppState R) Bool
  unfolding get_match
  verify_match t = do
    row ← on_db (get_match t)
    m ← ok_or row (LobbyError.match_not_found t)
    pure true

  unfoldable pub accept_match : Token → PlayerId → Action (AppState R) (Unit {0})
  accept_match t user = on_db (Match.accept_match default_callbacks t user)

  abbrev spawn_game : MatchInfo → Action (AppState R) (Unit {0})
  spawn_game m s =
      (if str_eq m.game_mode "rps_1v1" && is_reporting m
          then spawn_rps m
          else when (s.config.pong_enabled && str_eq m.game_mode "pong_1v1" && is_reporting m)
              (spawn_pong m))
        s

  -- the game is started once the match is Reporting, and the opponent hears of the connection
  unfoldable pub tell_connected : Token → PlayerId → Action (AppState R) (Unit {0})
  unfolding get_match
  tell_connected t user = do
    row ← on_db (get_match t)
    if_found row (λ m. do spawn_game m; send (opponent m user) (opponent_connected t))

  unfoldable pub mark_connected : Token → PlayerId → Action (AppState R) (Unit {0})
  unfolding tell_connected
  mark_connected t user = do
    on_db (Match.mark_connected default_callbacks t user)
    tell_connected t user

  unfoldable pub mark_accepts : Token → Action (AppState R) (Unit {0})
  unfolding get_match update_match_status notify_match_players
  mark_accepts t = do
    row ← on_db (get_match t)
    if_found row (λ m. do
      ignore (on_db (mark_accepted t m.player_a))
      ignore (on_db (mark_accepted t m.player_b))
      ignore (on_db (update_match_status t MatchStatus.in_progress)))
    secs ← gets (λ s. s.config.start_timeout_secs)
    notify_match_players t (match_started t secs)

  unfoldable pub handle_decline : Token → Option PlayerId → Action (AppState R) (Unit {0})
  unfolding get_match update_match_status record_match_event notify_match_players
  handle_decline t declined_by = do
    notify_match_players t (match_declined t)
    row ← on_db (get_match t)
    if_found row (λ m.
        when (match_status_eq m.status MatchStatus.pending_accept)
          (ignore (on_db (update_match_status t MatchStatus.disputed))))
    ignore (on_db (record_match_event t MatchEvent.declined declined_by))

  unfoldable pub resolve_dispute : Token → Action (AppState R) (Unit {0})
  unfolding get_match update_match_status reporting_complete notify_match_players
  resolve_dispute t = do
    row ← on_db (get_match t)
    if_found row (λ m. when (not (match_status_eq m.status MatchStatus.resolved)) (do
      ignore (on_db (update_match_status t MatchStatus.disputed))
      ignore (on_db (reporting_complete m.player_a))
      ignore (on_db (reporting_complete m.player_b))))
    notify_match_players t (match_result t MatchOutcome.disputed)

  unfoldable pub leave_queue : QueueArgs → Action (AppState R) (Unit {0})
  unfolding dequeue
  leave_queue args = on_db (dequeue args.user_id args.mode)

  unfoldable pub set_player_state : PlayerId → PlayerState → Action (AppState R) (Unit {0})
  unfolding Players.set_player_state
  set_player_state user state = on_db (Players.set_player_state user state)

  unfoldable pub sync_session : PlayerId → Action (AppState R) (SessionSync R)
  unfolding get_player_state get_queued_entry
  sync_session user = do
    player ← on_db (get_player_state user)
    queued ← on_db (get_queued_entry user)
    pure (record { state = state_or_menus player; queued = queued })

module _ {R : Type 0} (N : Numbers R) where
  unfoldable pub finish_match : Token → Option PlayerId → Action (AppState R) (Unit {0})
  unfolding get_match notify_match_players
  finish_match t decided = do
    winner ← ok_or decided (LobbyError.invalid_report t)
    row ← on_db (get_match t)
    if_found row (λ m. do
      outcome ← on_db (Match.resolve_pong N default_callbacks t winner)
      notify_match_players t (game_over t winner)
      notify_match_players t (match_result t outcome)
      signal_session_complete m.player_a t
      signal_session_complete m.player_b t)

  abbrev forfeit : Token → Option PlayerId → Action (AppState R) (MatchOutcome R)
  forfeit t none = on_db (Match.resolve_forfeit N default_callbacks t)
  forfeit t (some winner) = do
    outcome ← on_db (Match.resolve_pong N default_callbacks t winner)
    notify_match_players t (game_over t winner)
    pure outcome

  unfoldable pub resolve_start_forfeit : Token → Option PlayerId → Action (AppState R) (Unit {0})
  unfolding update_match notify_match_players
  resolve_start_forfeit t winner = do
    now ← gets (λ s. s.db.now)
    ignore (on_db (update_match t MatchStatus.reporting now))
    outcome ← forfeit t winner
    notify_match_players t (match_result t outcome)

  unfoldable pub enter_queue : QueueArgs → Action (AppState R) (Unit {0})
  unfolding get_rating enqueue update_heartbeat
  enter_queue args = do
    rating ← on_db (get_rating N args.user_id args.mode)
    now ← gets (λ s. s.db.now)
    on_db (
        enqueue (record {
          user_id = args.user_id;
          game_mode = args.mode;
          difficulty = args.difficulty;
          mu = rating.mu;
          queued_at = now;
        }))
    ignore (on_db (update_heartbeat args.user_id))
    ensure_running args.mode

  -- the players of a new match hear of it, each with the other's name
  abbrev pub tell_found : MatchInfo → PlayerId → Action (AppState R) (Unit {0})
  tell_found m user = modifies_by (opponent m user)
    where
      modifies_by : PlayerId → Action (AppState R) (Unit {0})
      modifies_by other s =
          send user
            (ServerMessage.match_found m.match_token other
              (Option.get_or (Option.map (λ u. u.display_name) (s.db.users other)) "Unknown")
              m.connection m.game_mode)
            s

  abbrev start_workflow : ModeSpec → MatchInfo → Action (AppState R) (Unit {0})
  start_workflow spec m =
      if is_native_report spec.authority then start_umvc3_match m.match_token else start_p2p_match m

  abbrev announce : ModeSpec → MatchInfo → Action (AppState R) (Unit {0})
  announce spec m = do
    start_workflow spec m
    tell_found m m.player_a
    tell_found m m.player_b
    notify_match_found m

  abbrev pub request : AppState R → String → ModeSpec → Form.Request
  request s mode spec = record {
    mode = mode;
    spec = spec;
    pair_cooldown_secs = s.config.pair_cooldown_secs;
    match_accept_timeout_secs = s.config.match_accept_timeout_secs;
  }

  abbrev pair_in : String → ModeSpec → Action (AppState R) (Option MatchInfo)
  pair_in mode spec = do
    paired ← λ s. on_db (pair_next_match_with_accept_timeout N (request s mode spec)) s
    waiting ← on_db (get_queue mode)
    when (ltb (length waiting) 2) (pause_if_idle mode)
    if_found paired (announce spec)
    pure paired

  unfoldable pub pair_matches : String → Action (AppState R) (Option MatchInfo)
  unfolding get_queue pair_next_match_with_accept_timeout
  pair_matches mode = do
    modes ← gets (λ s. s.game_modes)
    spec ← ok_or (find (λ spec. str_eq spec.id mode) modes) (LobbyError.database mode)
    enabled ← gets (λ s. s.config.ranked_queue_enabled)
    if is_native_report spec.authority && not enabled then pure none else pair_in mode spec
