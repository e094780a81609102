-- ===== src/Server/Socket.antt =====
-- lobby-server/src/ws.rs: a WebSocket connection of a player that has signed in, from its registration
-- to its end, and the messages that it handles.
--
-- A session id is the UUID that `handle_ws` draws for the connection, so its text parses again. The
-- parsers of UUIDs, of f64 and of u64 are the crates' and the standard library's: parameters.
pub mod Relay
pub mod Connections
use mathlib.Core.Option
use steam_lobby.Prelude.{
  ℕ, suc, ◌+◌, String, Bool, true, false, not, ◌&&◌, ◌||◌, ◌==◌, str_eq, ltb, Option, none, some,
  is_some, if◌then◌else◌, List, [], ◌∷◌, ◌++◌, put,
}
use steam_lobby.Core.Types.{
  Uuid, PlayerId, Token, PlayerState, MatchInfo, MatchDifficulty, is_server,
}
use steam_lobby.Core.Error.{LobbyError, Result, ok, err}
use steam_lobby.Core.Action.{Action, pure, gets, modifies, ◌>>=◌, ◌>>◌}
use steam_lobby.Core.Callbacks.{default_callbacks}
use steam_lobby.Core.Player.{enter_menus, handle_disconnect, state_or_menus}
use steam_lobby.Core.Match
use steam_lobby.Core.Player
use steam_lobby.Store.Db.{Db}
use steam_lobby.Store.Numbers.{Numbers}
use steam_lobby.Store.Matches.{get_match}
use steam_lobby.Store.Players.{get_player_state}
use steam_lobby.Store.Queue.{is_queued}
use steam_lobby.Ranked.Types.{RankedCommand, SessionKind, CommandReceipt}
use steam_lobby.Ranked.Config.{Config}
use steam_lobby.Ranked.Admission.{dispatch}
use steam_lobby.Server.State.{
  AppState, ConnectionEntry, GameInput, ServerMessage, Signaling, webrtc, peer_input,
  command_receipt, rejected, replaced, paddle, health, on_db, ignore, if_found, when, send,
}
use steam_lobby.Server.Signals.{
  start_user_session, signal_queue, signal_unqueue, signal_disconnect, signal_match_choice,
  signal_start, signal_who_won, signal_submit_demo,
}

-- The messages that are handled once a player has signed in. The ranked ones carry their command id.
pub data ClientMessage : Type 0 where
  begin_matchmaking : String → String → ClientMessage
  cancel_matchmaking heartbeat : ClientMessage
  accept_match decline_match start_match : Token → ClientMessage
  ranked : Uuid → RankedCommand → ClientMessage
  game_input : Token → ℕ → String → ClientMessage
  rps_choice : Token → ℕ → ClientMessage
  signaling : Signaling → Token → String → ClientMessage
  rollback_health : Token → ℕ → String → ClientMessage
  match_report : Token → Option String → Option String → ClientMessage
  -- `Auth` and `AuthTicket`, which are ignored by then
  auth : ClientMessage

-- the connection that a message came on
pub record Socket : Type 0 where
  pub user_id : PlayerId
  pub generation : ℕ
  pub session_id : Uuid

-- the other player of a match, for one of its players
abbrev pub other_of : PlayerId → MatchInfo → Option PlayerId
other_of user m =
    if m.player_a == user
    then some m.player_b
    else if m.player_b == user
    then some m.player_a
    else none

abbrev pub peer : PlayerId → Option MatchInfo → Option PlayerId
peer user none = none
peer user (some m) = other_of user m

abbrev parse_difficulty : String → MatchDifficulty
parse_difficulty text =
    if str_eq text "easy"
    then MatchDifficulty.easy
    else if str_eq text "hard"
    then MatchDifficulty.hard
    else MatchDifficulty.normal

abbrev is_server_match : Option MatchInfo → Bool
is_server_match none = false
is_server_match (some m) = is_server m.connection

module _ {R : Type 0} where
  abbrev put_input : GameInput R → Action (AppState R) (Unit {0})
  put_input input = modifies λ s. record s { inputs = s.inputs ++ input ∷ [] }

  -- `if let Some(g) = games.get(&match_token) { let _ = g.tx.send(…); }`
  abbrev to_pong : Token → GameInput R → Action (AppState R) (Unit {0})
  to_pong t input s = when (is_some (s.pong_games t)) (put_input input) s

  abbrev to_rps : Token → GameInput R → Action (AppState R) (Unit {0})
  to_rps t input s = when (is_some (s.rps_games t)) (put_input input) s

  -- `tx.send(msg)`, on the connection itself
  abbrev reply : Socket → ServerMessage R → AppState R → AppState R
  reply me msg s = record s {
    outbox = s.outbox ++ record { to = me.user_id; generation = me.generation; message = msg } ∷ [];
  }

  abbrev pub answered : Socket → Result CommandReceipt × Db R → AppState R → AppState R
  answered me (ok receipt, d) s =
      reply me (command_receipt receipt.receipt receipt.status receipt.error_code)
        (record s { db = d })
  answered me (err e, d) s = reply me (rejected e) (record s { db = d })

  unfoldable pub dispatch_ranked :
      (RankedCommand → ℕ) → Config → Socket → Uuid → RankedCommand → Action (AppState R) (Unit {0})
  unfolding dispatch
  dispatch_ranked payload_hash c me id command = modifies λ s.
      answered me
        (dispatch payload_hash c
          (record {
            user_id = me.user_id;
            session_kind = SessionKind.websocket;
            session_id = me.session_id;
          })
          id command s.db)
        s

module _ {R : Type 0} (N : Numbers R) where
  -- `target.clamp(0.0, 1.0)`
  abbrev pub clamp : R → R
  clamp x = if N.lt x (N.lit 0) then N.lit 0 else if N.lt (N.lit 1) x then N.lit 1 else x

  abbrev relay_input : Token → PlayerId → ℕ → R → Action (AppState R) (Unit {0})
  relay_input t user frame target = do
    row ← on_db (get_match t)
    if_found (peer user row) (λ other. do
      send other (peer_input t user frame target)
      to_pong t (paddle t user frame target))

module _ {R : Type 0} (N : Numbers R) (payload_hash : RankedCommand → ℕ) (c : Config)
    (parse_uuid : String → Option Uuid) (parse_f64 : String → Option R)
    (parse_u64 : String → Option ℕ) where
  unfoldable pub handle_client_message : Socket → ClientMessage → Action (AppState R) (Unit {0})
  unfolding get_match dispatch_ranked
  handle_client_message me (ranked id command) = dispatch_ranked payload_hash c me id command
  handle_client_message me (begin_matchmaking mode difficulty) =
      signal_queue me.user_id me.session_id mode (parse_difficulty difficulty)
  handle_client_message me cancel_matchmaking = signal_unqueue me.user_id me.session_id
  handle_client_message me (accept_match t) = do
    row ← on_db (get_match t)
    if is_server_match row
        then ignore (on_db (Match.accept_match default_callbacks t me.user_id))
        else signal_match_choice t me.user_id true
  handle_client_message me (decline_match t) = signal_match_choice t me.user_id false
  handle_client_message me (start_match t) = signal_start t me.user_id
  handle_client_message me (signaling kind t body) = do
    row ← on_db (get_match t)
    if_found (peer me.user_id row) (λ other. send other (webrtc kind t me.user_id body))
  handle_client_message me (game_input t frame text) =
      if_found (parse_f64 text) (λ target. relay_input N t me.user_id frame (clamp N target))
  handle_client_message me (rollback_health t frame text) =
      if_found (parse_u64 text) (λ checksum. to_pong t (health t me.user_id frame checksum))
  handle_client_message me (rps_choice t choice) =
      when (not (ltb 2 choice)) (to_rps t (GameInput.rps_choice t me.user_id choice))
  handle_client_message me (match_report t winner demo_hash) = do
    if_found winner (λ text. if_found (parse_uuid text) (λ w. signal_who_won t me.user_id w))
    if_found demo_hash (λ hash. signal_submit_demo t me.user_id hash)
  handle_client_message me heartbeat =
      ignore (on_db (Player.heartbeat default_callbacks me.user_id))
  handle_client_message me auth = pure tt

abbrev pub is_current : Socket → Option ConnectionEntry → Bool
is_current me none = false
is_current me (some e) = e.generation == me.generation

abbrev is_live : PlayerState → Bool
is_live PlayerState.match_accepted = true
is_live PlayerState.in_match = true
is_live PlayerState.reporting = true
is_live _ = false

module _ {R : Type 0} where
  -- the registration of a connection, under the session id that was drawn for it
  abbrev registered : PlayerId → Uuid → AppState R → AppState R
  registered user session s = record s {
    next_generation = suc s.next_generation;
    connections =
        put user (record { generation = s.next_generation; session_id = session }) s.connections;
  }

  -- a connection of the player that is there already is told, and its task aborted
  abbrev tell_replaced : PlayerId → Action (AppState R) (Unit {0})
  tell_replaced user = send user replaced

  -- `handle_ws` up to its message loop, for a player that has signed in
  unfoldable pub begin_session : PlayerId → Uuid → Action (AppState R) Socket
  unfolding enter_menus
  begin_session user session = do
    ignore (on_db (enter_menus default_callbacks user))
    start_user_session user session
    tell_replaced user
    generation ← gets (λ s. s.next_generation)
    modifies (registered user session)
    pure (record { user_id = user; generation = generation; session_id = session })

  abbrev removed : PlayerId → AppState R → AppState R
  removed user s = record s { connections = λ p. if user == p then none else s.connections p }

  abbrev leave : Socket → Action (AppState R) (Unit {0})
  leave me = do
    queued ← on_db (is_queued me.user_id)
    player ← on_db (get_player_state me.user_id)
    when (not queued && not (is_live (state_or_menus player)))
        (ignore (on_db (handle_disconnect default_callbacks me.user_id)))
    modifies (removed me.user_id)

  -- `handle_ws` after its message loop, in two parts: the lock on the connections is released between
  -- the test and the removal
  unfoldable pub check_current : Socket → Action (AppState R) Bool
  check_current me = gets λ s. is_current me (s.connections me.user_id)

  unfoldable pub finish_session : Bool → Socket → Action (AppState R) (Unit {0})
  unfolding is_queued get_player_state handle_disconnect
  finish_session current me = do signal_disconnect me.user_id me.session_id; when current (leave me)

  unfoldable pub end_session : Socket → Action (AppState R) (Unit {0})
  unfolding check_current finish_session
  end_session me = do current ← check_current me; finish_session current me
