-- ===== src/Core/Player/Machine.antt =====
-- The operations of `PlayerManager` (lobby-core/src/player.rs) as one state machine.
use steam_lobby.Prelude.{
  String, Option, none, some, Bool, true, false, ◌≡◌, ◌≢◌, arith, if◌then◌else◌,
}
use steam_lobby.Core.Types.{PlayerId, PlayerState, DateTime, MatchDifficulty, player_state_eq}
use steam_lobby.Core.Error.{LobbyError, Result, ok, err}
use steam_lobby.Core.Action.{Action}
use steam_lobby.Core.Callbacks.{GameCallbacks, default_callbacks}
use steam_lobby.Core.Player.{
  enter_menus, begin_matchmaking, cancel_matchmaking, match_accepted, p2p_connected,
  begin_reporting, reporting_complete, heartbeat, handle_disconnect, state_or_menus,
}
use steam_lobby.Store.Db.{Db}
use steam_lobby.Store.Rows.{UserRow, PlayerStateRow}
use steam_lobby.Store.Players.{player_info}

pub data Op : Type 0 where
  enters begins_heartbeat accepts connects reports completes cancels disconnects : Op
  begins : String → MatchDifficulty → Op

module _ {R : Type 0} (cb : GameCallbacks R) where
  unfoldable pub run : PlayerId → Op → Action (Db R) (Unit {0})
  unfolding enter_menus begin_matchmaking cancel_matchmaking match_accepted p2p_connected
      begin_reporting reporting_complete heartbeat handle_disconnect
  run id Op.enters = enter_menus cb id
  run id (Op.begins mode difficulty) = begin_matchmaking cb id mode difficulty
  run id Op.cancels = cancel_matchmaking cb id
  run id Op.accepts = match_accepted id
  run id Op.connects = p2p_connected id
  run id Op.reports = begin_reporting id
  run id Op.completes = reporting_complete id
  run id Op.begins_heartbeat = heartbeat cb id
  run id Op.disconnects = handle_disconnect cb id

-- The state that an operation asks for and the one that it leads to.
abbrev pub edge : Op → Option (PlayerState × PlayerState)
edge Op.enters = none
edge Op.begins_heartbeat = none
edge Op.disconnects = none
edge (Op.begins _ _) = some (PlayerState.in_menus, PlayerState.queueing)
edge Op.cancels = some (PlayerState.queueing, PlayerState.in_menus)
edge Op.accepts = some (PlayerState.queueing, PlayerState.match_accepted)
edge Op.connects = some (PlayerState.match_accepted, PlayerState.in_match)
edge Op.reports = some (PlayerState.in_match, PlayerState.reporting)
edge Op.completes = some (PlayerState.reporting, PlayerState.in_menus)

-- The machine's answer and next state.
abbrev pub verdict : Op → PlayerState → Result (Unit {0})
verdict op state = elim (edge op) [
  | none ↦ ok tt
  | some (from, to) ↦
      if player_state_eq state from
      then ok tt
      else err (LobbyError.invalid_state_transition state to)
]

abbrev pub next : Op → PlayerState → PlayerState
next Op.disconnects state = PlayerState.in_menus
next op state = elim (edge op) [
  | none ↦ state
  | some (from, to) ↦ if player_state_eq state from then to else state
]

abbrev pub next_row : DateTime → Op → PlayerStateRow → PlayerStateRow
next_row now (Op.begins mode difficulty) p =
    if player_state_eq p.state PlayerState.in_menus
    then record p { state = PlayerState.queueing; last_heartbeat = now }
    else p
next_row now Op.begins_heartbeat p = record p { last_heartbeat = now }
next_row now op p = record p { state = next op p.state }

module _ {R : Type 0} (s : Db R) (id : PlayerId) {u : UserRow} {p : PlayerStateRow}
    (known : s.users id ≡ some u) (row : s.player_state id ≡ some p) where
  run-verdict : (op : Op) → (run default_callbacks id op s).0 ≡ verdict op p.state
  unfolding run
  run-verdict Op.enters = ground arith
  run-verdict op = ground arith

  run-next_row :
      (op : Op) → (run default_callbacks id op s).1.player_state id ≡ some (next_row s.now op p)
  unfolding run
  run-next_row Op.enters = ground arith
  run-next_row op = ground arith

  run-other :
      (op : Op) (j : PlayerId)
      → j ≢ id
      → (run default_callbacks id op s).1.player_state j ≡ s.player_state j
  unfolding run
  run-other Op.enters j h = ground arith
  run-other op j h = ground arith

  -- For a player with a row and with the default hooks, every operation answers and moves the row
  -- as the state machine says, and leaves the rows of all other players as they were.
  pub run_machine :
      (op : Op)
      → ((run default_callbacks id op s).0 ≡ verdict op p.state)
        × ((run default_callbacks id op s).1.player_state id ≡ some (next_row s.now op p))
        × ((j : PlayerId)
            → j ≢ id
            → (run default_callbacks id op s).1.player_state j ≡ s.player_state j)
  run_machine op = (run-verdict op, run-next_row op, run-other op)

-- Which operations fail for a player with no row.
abbrev pub needs_row : Op → Bool
needs_row Op.cancels = true
needs_row Op.accepts = true
needs_row Op.connects = true
needs_row Op.reports = true
needs_row Op.completes = true
needs_row _ = false

module _ {R : Type 0} (cb : GameCallbacks R) (s : Db R) (id : PlayerId) where
  -- For a player with no row, the operations that need one return PlayerNotFound and change
  -- nothing, whatever the hooks.
  pub run_unknown :
      (op : Op)
      → s.player_state id ≡ none
      → needs_row op ≡ true
      → run cb id op s ≡ (err (LobbyError.player_not_found id), s)
  unfolding run
  run_unknown Op.enters row h = cc
  run_unknown op row h = ground (arith, no_info)
    where
      no_info : player_info id (s.users id) (s.player_state id) ≡ none
      no_info = ground arith

  -- A hook that refuses stops `begin_matchmaking` before anything is written.
  pub begin_matchmaking_refused :
      (mode : String) (difficulty : MatchDifficulty) {e : LobbyError}
      → state_or_menus (player_info id (s.users id) (s.player_state id)) ≡ PlayerState.in_menus
      → cb.on_player_queueing id mode difficulty ≡ err e
      → begin_matchmaking cb id mode difficulty s ≡ (err e, s)
  unfolding begin_matchmaking
  begin_matchmaking_refused mode difficulty free refuses = ground arith

  -- A player with no row whose hook agrees may begin matchmaking, is answered that all went well,
  -- and still has no row.
  pub begin_matchmaking_unknown :
      (mode : String) (difficulty : MatchDifficulty)
      → s.player_state id ≡ none
      → cb.on_player_queueing id mode difficulty ≡ ok tt
      → ((begin_matchmaking cb id mode difficulty s).0 ≡ ok tt)
        × ((begin_matchmaking cb id mode difficulty s).1.player_state id ≡ none)
  unfolding begin_matchmaking
  begin_matchmaking_unknown mode difficulty row agrees = ground (arith, no_info)
    where
      no_info : player_info id (s.users id) (s.player_state id) ≡ none
      no_info = ground arith
