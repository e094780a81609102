-- ===== src/Server/State.antt =====
-- lobby-server/src/state.rs, `AppState`, with what the server sends: messages to WebSocket connections
-- (lobby-server/src/ws.rs) and requests to Temporal (lobby-server/src/temporal/signals.rs, schedule.rs,
-- workflows.rs, umvc3.rs).
--
-- `outbox` lists the messages in the order in which they were sent, each with the player and the
-- generation of the connection that it went to. `requests` lists the requests to Temporal, whose
-- client is there or not (`temporal`). Locks order the accesses, so the state is passed along.
use steam_lobby.Prelude.{
  ℕ, String, Bool, true, false, Option, none, some, if◌then◌else◌, List, [], ◌∷◌, ◌++◌, Table,
  put_absent,
}
use steam_lobby.Core.Types.{
  Uuid, PlayerId, Token, ConnectionStrategy, MatchDifficulty, MatchInfo, MatchOutcome, ModeSpec,
}
use steam_lobby.Core.Error.{Code, LobbyError, Result, ok}
use steam_lobby.Core.Action.{Action, pure, modifies, ◌>>=◌, ◌>>◌}
use steam_lobby.Store.Db.{Db}
use steam_lobby.Store.Matches.{get_match}
use steam_lobby.Ranked.Types.{CommandStatus}
use steam_lobby.Workflow.{MatchArgs, Event}

pub record ConnectionEntry : Type 0 where
  pub generation : ℕ
  pub session_id : Uuid

-- the settings that the code of this part reads
pub record RuntimeConfig : Type 0 where
  pub pong_enabled : Bool
  pub ranked_queue_enabled : Bool
  pub start_timeout_secs : ℕ
  pub match_accept_timeout_secs : ℕ
  pub pair_cooldown_secs : ℕ
  pub gameserver_alloc_timeout_secs : ℕ
  pub gameserver_result_timeout_secs : ℕ

pub data Signaling : Type 0 where
  offer answer ice : Signaling

pub data ServerMessage (R : Type 0) : Type 0 where
  opponent_connected match_declined : Token → ServerMessage R
  match_found : Token → PlayerId → String → ConnectionStrategy → String → ServerMessage R
  match_started : Token → ℕ → ServerMessage R
  game_server_ready : Token → String → Option String → ServerMessage R
  game_server_error : Token → String → ServerMessage R
  game_over : Token → PlayerId → ServerMessage R
  match_result : Token → MatchOutcome R → ServerMessage R
  webrtc : Signaling → Token → PlayerId → String → ServerMessage R
  peer_input : Token → PlayerId → ℕ → R → ServerMessage R
  queue_expired : ServerMessage R
  command_receipt : Uuid → CommandStatus → Option Code → ServerMessage R
  replaced : ServerMessage R
  rejected : LobbyError → ServerMessage R

pub record Sent (R : Type 0) : Type 0 where
  pub to : PlayerId
  pub generation : ℕ
  pub message : ServerMessage R

pub record QueueArgs : Type 0 where
  pub user_id : PlayerId
  pub mode : String
  pub difficulty : MatchDifficulty

-- the signals of `UserSessionWorkflow`
pub data SessionSignal : Type 0 where
  queue : QueueArgs → SessionSignal
  unqueue disconnect queue_expired : SessionSignal
  match_found match_complete : Token → SessionSignal

pub data Request : Type 0 where
  start_session : PlayerId → Uuid → Request
  signal_session : PlayerId → Uuid → SessionSignal → Request
  start_match : Token → MatchArgs → Request
  signal_match : Token → Event → Request
  ensure_umvc3 : Token → Request
  pause_if_idle ensure_running : String → Request

-- what a handler passes to the task of a small game
pub data GameInput (R : Type 0) : Type 0 where
  paddle : Token → PlayerId → ℕ → R → GameInput R
  health : Token → PlayerId → ℕ → ℕ → GameInput R
  rps_choice : Token → PlayerId → ℕ → GameInput R

pub record AppState (R : Type 0) : Type 0 where
  pub db : Db R
  pub config : RuntimeConfig
  pub game_modes : List ModeSpec
  pub connections : Table ConnectionEntry
  pub next_generation : ℕ
  pub temporal : Bool
  -- the players of each game that runs
  pub pong_games : Table (PlayerId × PlayerId)
  pub rps_games : Table (PlayerId × PlayerId)
  pub outbox : List (Sent R)
  pub requests : List Request
  pub inputs : List (GameInput R)

abbrev pub session_request : PlayerId → SessionSignal → Option ConnectionEntry → List Request
session_request p signal none = []
session_request p signal (some e) = signal_session p e.session_id signal ∷ []

module _ {R : Type 0} {A : Type 0} where
  abbrev put_back : AppState R → Result A × Db R → Result A × AppState R
  put_back s (r, d) = (r, record s { db = d })

  -- a call of the store
  abbrev pub on_db : Action (Db R) A → Action (AppState R) A
  on_db m s = put_back s (m s.db)

  -- `let _ = call.await;`
  abbrev pub ignore : Action (AppState R) A → Action (AppState R) (Unit {0})
  ignore m = λ s. (ok tt, (m s).1)

module _ {R : Type 0} where
  -- `if let Some(x) = found { … }`
  abbrev pub if_found :
      {A : Type 0}
      → Option A
      → (A → Action (AppState R) (Unit {0}))
      → Action (AppState R) (Unit {0})
  if_found none act = pure tt
  if_found (some a) act = act a

  abbrev pub when : Bool → Action (AppState R) (Unit {0}) → Action (AppState R) (Unit {0})
  when true act = act
  when false act = pure tt

  abbrev pub deliver : PlayerId → ServerMessage R → Option ConnectionEntry → List (Sent R)
  deliver p msg none = []
  deliver p msg (some e) = record { to = p; generation = e.generation; message = msg } ∷ []

  -- `if let Some(e) = connections.get(&p) { let _ = e.tx.send(msg); }`
  abbrev pub send : PlayerId → ServerMessage R → Action (AppState R) (Unit {0})
  send p msg = modifies λ s. record s { outbox = s.outbox ++ deliver p msg (s.connections p) }

  -- Send to both players of a match.
  unfoldable pub notify_match_players : Token → ServerMessage R → Action (AppState R) (Unit {0})
  unfolding get_match
  notify_match_players t msg = do
    row ← on_db (get_match t)
    if_found row (λ m. do send m.player_a msg; send m.player_b msg)

  -- A request to Temporal, dropped where the client is not there.
  abbrev pub ask : Request → Action (AppState R) (Unit {0})
  ask q =
      modifies λ s. record s { requests = if s.temporal then s.requests ++ q ∷ [] else s.requests }

  -- A signal to the session of the player's current connection.
  abbrev pub signal_current : PlayerId → SessionSignal → Action (AppState R) (Unit {0})
  signal_current p signal = modifies λ s. record s {
    requests =
        if s.temporal then s.requests ++ session_request p signal (s.connections p) else s.requests;
  }

  -- `spawn_game` of pong.rs and rps.rs: the first game of a token stays
  abbrev pub spawn_pong : MatchInfo → Action (AppState R) (Unit {0})
  spawn_pong m =
      modifies λ s. record s {
        pong_games = put_absent m.match_token (m.player_a, m.player_b) s.pong_games;
      }

  abbrev pub spawn_rps : MatchInfo → Action (AppState R) (Unit {0})
  spawn_rps m =
      modifies
        λ s. record s { rps_games = put_absent m.match_token (m.player_a, m.player_b) s.rps_games }
