-- ===== src/Server/Ticker.antt =====
-- lobby-server/src/ticker.rs: the maintenance that runs every two seconds. The game server creator is
-- an external service, a parameter, whose error is `none`. The broadcast of queue statistics is left out.
pub mod Sweep
use mathlib.Core.Option
use steam_lobby.Prelude.{
  ℕ, String, Bool, true, false, not, ◌&&◌, ◌||◌, ltb, Option, none, some, is_some, length,
  if◌then◌else◌, List, [], ◌∷◌,
}
use steam_lobby.Core.Types.{
  PlayerId, Token, DateTime, MatchStatus, MatchInfo, MatchOutcome, ModeSpec, ResultAuthority,
  is_server, is_gameserver, is_native_report,
}
use steam_lobby.Core.Error.{LobbyError, Result, ok, err}
use steam_lobby.Core.Action.{Action, pure, gets, modifies, ◌>>=◌, ◌>>◌}
use steam_lobby.Core.Callbacks.{default_callbacks}
use steam_lobby.Core.Player.{handle_disconnect}
use steam_lobby.Core.Expiry.{expire_playing_matches, seconds_since}
use steam_lobby.Store.Db.{Db}
use steam_lobby.Store.Numbers.{Numbers}
use steam_lobby.Store.Queue.{cleanup_stale, get_queue}
use steam_lobby.Store.Matches.{get_matches_by_status, update_match_status, mark_server_ready}
use steam_lobby.Pairing.Next.{pair_next_match_with_accept_timeout}
use steam_lobby.Server.State.{
  AppState, ServerMessage, match_result, game_server_error, game_server_ready, queue_expired, on_db,
  ignore, if_found, when, send, notify_match_players,
}
use steam_lobby.Server.Signals.{signal_queue_expired, ensure_running}
use steam_lobby.Server.Activities.{request, tell_found}

pub record Allocation : Type 0 where
  pub server_address : String
  pub join_token : Option String

abbrev is_server_referee : ResultAuthority → Bool
is_server_referee ResultAuthority.server_referee = true
is_server_referee _ = false

-- the schedules of the modes that pair peer to peer run while two players wait
abbrev wakes : Bool → ModeSpec → Bool
wakes ranked spec = is_server_referee spec.authority || (ranked && is_native_report spec.authority)

abbrev accepted_since : MatchInfo → DateTime
accepted_since m = Option.get_or m.accepted_at m.created_at

-- whether a match is to have a game server
abbrev pub lacks_server : MatchInfo → Bool
lacks_server m = is_server m.connection && not (is_some m.server_address)

module _ {R : Type 0} where
  -- `for x in xs { … }`
  abbrev pub each :
      {A : Type 0} → (A → Action (AppState R) (Unit {0})) → List A → Action (AppState R) (Unit {0})
  each f [] = pure tt
  each f (x ∷ xs) = do f x; each f xs

  -- `if let Ok(x) = call { … }`
  abbrev on_ok :
      {A : Type 0}
      → Result A × AppState R
      → (A → Action (AppState R) (Unit {0}))
      → Result (Unit {0}) × AppState R
  on_ok (ok a, s) act = act a s
  on_ok (err e, s) act = (ok tt, s)

  unfoldable pub wake_schedule : ModeSpec → Action (AppState R) (Unit {0})
  unfolding get_queue
  wake_schedule spec = do
    ranked ← gets (λ s. s.config.ranked_queue_enabled)
    waiting ← on_db (get_queue spec.id)
    when (wakes ranked spec && not (ltb (length waiting) 2)) (ensure_running spec.id)

  -- a player whose queue entry was stale: back to the menus
  abbrev pub reset_player : PlayerId → Action (AppState R) (Unit {0})
  reset_player user = ignore (on_db (handle_disconnect default_callbacks user))

  unfoldable pub tell_expired : PlayerId → Action (AppState R) (Unit {0})
  tell_expired user = send user queue_expired

  unfoldable pub signal_expired : PlayerId → Action (AppState R) (Unit {0})
  signal_expired user = signal_queue_expired user

  -- the sweep of stale queue entries
  unfoldable pub sweep : Action (AppState R) (Unit {0})
  unfolding cleanup_stale handle_disconnect tell_expired signal_expired
  sweep s = on_ok (on_db cleanup_stale s) λ removed. do
    each reset_player removed
    each tell_expired removed
    each signal_expired removed

  unfoldable pub expire_playing : Action (AppState R) (Unit {0})
  unfolding expire_playing_matches notify_match_players
  expire_playing s =
      on_ok (on_db (expire_playing_matches s.config.gameserver_result_timeout_secs) s)
        (each λ t. notify_match_players t (match_result t MatchOutcome.disputed))

  abbrev pub is_too_old : MatchInfo → AppState R → Bool
  is_too_old m s =
      ltb s.config.gameserver_alloc_timeout_secs (seconds_since s.db.now (accepted_since m))

  unfoldable pub give_up : MatchInfo → Action (AppState R) (Unit {0})
  unfolding update_match_status notify_match_players
  give_up m = do
    ignore (on_db (update_match_status m.match_token MatchStatus.disputed))
    notify_match_players m.match_token
        (game_server_error m.match_token "server allocation timed out")
    notify_match_players m.match_token (match_result m.match_token MatchOutcome.disputed)

  unfoldable pub place : MatchInfo → Allocation → Action (AppState R) (Unit {0})
  unfolding mark_server_ready notify_match_players
  place m a s = on_ok (on_db (mark_server_ready m.match_token a.server_address a.join_token) s) λ _.
      notify_match_players m.match_token
        (game_server_ready m.match_token a.server_address a.join_token)

  abbrev pub place_if : MatchInfo → Option Allocation → Action (AppState R) (Unit {0})
  place_if m (some a) = place m a
  place_if m none = pure tt

module _ {R : Type 0} (allocate : MatchInfo → Option Allocation) where
  unfoldable pub allocate_one : MatchInfo → Action (AppState R) (Unit {0})
  unfolding give_up place
  allocate_one m s =
      (if not (lacks_server m)
          then pure tt
          else if is_too_old m s
          then give_up m
          else place_if m (allocate m))
        s

  unfoldable pub allocate_all : Action (AppState R) (Unit {0})
  unfolding get_matches_by_status allocate_one
  allocate_all s =
      on_ok (on_db (get_matches_by_status MatchStatus.in_progress) s) (each allocate_one)

module _ {R : Type 0} (N : Numbers R) where
  -- the modes with a game server are paired here
  unfoldable pub pair_mode : ModeSpec → Action (AppState R) (Unit {0})
  unfolding pair_next_match_with_accept_timeout
  pair_mode spec s =
      if is_gameserver spec.authority
      then on_ok (on_db (pair_next_match_with_accept_timeout N (request N s spec.id spec)) s)
          (λ found. if_found found (λ m. do tell_found N m m.player_a; tell_found N m m.player_b))
      else (ok tt, s)
