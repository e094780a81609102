-- ===== src/Core/Player.antt =====
-- lobby-core/src/player.rs: `PlayerManager`, the state machine of one player.
pub mod Machine
use mathlib.Core.Option
use steam_lobby.Prelude.{ℕ, String, Option, none, some, Bool, not, if◌then◌else◌}
use steam_lobby.Core.Types.{PlayerId, PlayerState, PlayerInfo, MatchDifficulty, player_state_eq}
use steam_lobby.Core.Error.{LobbyError}
use steam_lobby.Core.Action.{Action, pure, gets, ok_or, reject_if, lift, ◌>>=◌, ◌>>◌}
use steam_lobby.Core.Callbacks.{GameCallbacks}
use steam_lobby.Store.Db.{Db}
use steam_lobby.Store.Players.{upsert_player, get_player_state, set_player_state, update_heartbeat}

-- a missing row counts as `InMenus`
abbrev pub state_or_menus : Option PlayerInfo → PlayerState
state_or_menus none = PlayerState.in_menus
state_or_menus (some p) = p.state

module _ {R : Type 0} where
  -- if current_state != from { return Err(InvalidStateTransition { from: current_state, to }) }
  abbrev expect : PlayerState → PlayerState → PlayerState → Action (Db R) (Unit {0})
  expect from to current =
      reject_if (not (player_state_eq current from))
        (LobbyError.invalid_state_transition current to)

  -- the current state, or `PlayerNotFound`
  abbrev current_state : PlayerId → Action (Db R) PlayerState
  current_state id = do
    current ← get_player_state id
    ok_or (Option.map (λ p. p.state) current) (LobbyError.player_not_found id)

  abbrev create_if_none : PlayerId → Option PlayerInfo → Action (Db R) (Unit {0})
  create_if_none id none = do upsert_player id ""; set_player_state id PlayerState.in_menus
  create_if_none id (some _) = pure tt

  unfoldable pub match_accepted : PlayerId → Action (Db R) (Unit {0})
  unfolding get_player_state set_player_state
  match_accepted id = do
    current ← current_state id
    expect PlayerState.queueing PlayerState.match_accepted current
    set_player_state id PlayerState.match_accepted

  unfoldable pub p2p_connected : PlayerId → Action (Db R) (Unit {0})
  unfolding get_player_state set_player_state
  p2p_connected id = do
    current ← current_state id
    expect PlayerState.match_accepted PlayerState.in_match current
    set_player_state id PlayerState.in_match

  unfoldable pub begin_reporting : PlayerId → Action (Db R) (Unit {0})
  unfolding get_player_state set_player_state
  begin_reporting id = do
    current ← current_state id
    expect PlayerState.in_match PlayerState.reporting current
    set_player_state id PlayerState.reporting

  unfoldable pub reporting_complete : PlayerId → Action (Db R) (Unit {0})
  unfolding get_player_state set_player_state
  reporting_complete id = do
    current ← current_state id
    expect PlayerState.reporting PlayerState.in_menus current
    set_player_state id PlayerState.in_menus

module _ {R : Type 0} (cb : GameCallbacks R) where
  unfoldable pub enter_menus : PlayerId → Action (Db R) (Unit {0})
  unfolding get_player_state set_player_state upsert_player
  enter_menus id = do
    current ← get_player_state id
    create_if_none id current
    lift (cb.on_player_in_menu id)

  unfoldable pub begin_matchmaking : PlayerId → String → MatchDifficulty → Action (Db R) (Unit {0})
  unfolding get_player_state set_player_state update_heartbeat
  begin_matchmaking id mode difficulty = do
    current ← get_player_state id
    expect PlayerState.in_menus PlayerState.queueing (state_or_menus current)
    lift (cb.on_player_queueing id mode difficulty)
    set_player_state id PlayerState.queueing
    update_heartbeat id

  unfoldable pub cancel_matchmaking : PlayerId → Action (Db R) (Unit {0})
  unfolding get_player_state set_player_state
  cancel_matchmaking id = do
    current ← current_state id
    expect PlayerState.queueing PlayerState.in_menus current
    lift (cb.on_player_cancel_queue id)
    set_player_state id PlayerState.in_menus

  unfoldable pub heartbeat : PlayerId → Action (Db R) (Unit {0})
  unfolding update_heartbeat
  heartbeat id = do lift (cb.on_heartbeat id); update_heartbeat id

  unfoldable pub handle_disconnect : PlayerId → Action (Db R) (Unit {0})
  unfolding set_player_state
  handle_disconnect id = do
    lift (cb.on_player_disconnected id)
    set_player_state id PlayerState.in_menus
