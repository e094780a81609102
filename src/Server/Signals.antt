-- ===== src/Server/Signals.antt =====
-- The requests to Temporal, each for one helper of lobby-server/src/temporal/signals.rs, workflows.rs,
-- schedule.rs and umvc3.rs. Where the client is not there, they do nothing.
use steam_lobby.Prelude.{String, Bool}
use steam_lobby.Core.Types.{Uuid, PlayerId, Token, MatchInfo, MatchDifficulty}
use steam_lobby.Core.Action.{Action, ◌>>◌}
use steam_lobby.Workflow
use steam_lobby.Server.State.{AppState, SessionSignal, Request, ask, signal_current}

module _ {R : Type 0} where
  abbrev pub start_user_session : PlayerId → Uuid → Action (AppState R) (Unit {0})
  start_user_session user session = ask (Request.start_session user session)

  abbrev pub signal_queue :
      PlayerId → Uuid → String → MatchDifficulty → Action (AppState R) (Unit {0})
  signal_queue user session mode difficulty = ask (
      Request.signal_session user session
        (SessionSignal.queue (record { user_id = user; mode = mode; difficulty = difficulty })))

  abbrev pub signal_unqueue : PlayerId → Uuid → Action (AppState R) (Unit {0})
  signal_unqueue user session = ask (Request.signal_session user session SessionSignal.unqueue)

  abbrev pub signal_disconnect : PlayerId → Uuid → Action (AppState R) (Unit {0})
  signal_disconnect user session =
      ask (Request.signal_session user session SessionSignal.disconnect)

  abbrev pub signal_match_choice : Token → PlayerId → Bool → Action (AppState R) (Unit {0})
  signal_match_choice t user accept = ask (Request.signal_match t (Workflow.choice user accept))

  abbrev pub signal_start : Token → PlayerId → Action (AppState R) (Unit {0})
  signal_start t user = ask (Request.signal_match t (Workflow.start user))

  abbrev pub signal_who_won : Token → PlayerId → PlayerId → Action (AppState R) (Unit {0})
  signal_who_won t user winner = ask (Request.signal_match t (Workflow.who_won user winner))

  abbrev pub signal_submit_demo : Token → PlayerId → String → Action (AppState R) (Unit {0})
  signal_submit_demo t user hash = ask (Request.signal_match t (Workflow.demo user hash))

  -- to the sessions of the players' current connections
  abbrev pub signal_queue_expired : PlayerId → Action (AppState R) (Unit {0})
  signal_queue_expired user = signal_current user SessionSignal.queue_expired

  abbrev pub signal_session_complete : PlayerId → Token → Action (AppState R) (Unit {0})
  signal_session_complete user t = signal_current user (SessionSignal.match_complete t)

  abbrev pub notify_match_found : MatchInfo → Action (AppState R) (Unit {0})
  notify_match_found m = do
    signal_current m.player_a (SessionSignal.match_found m.match_token)
    signal_current m.player_b (SessionSignal.match_found m.match_token)

  abbrev pub start_p2p_match : MatchInfo → Action (AppState R) (Unit {0})
  start_p2p_match m =
      ask (
        Request.start_match m.match_token (record { player_a = m.player_a; player_b = m.player_b }))

  abbrev pub start_umvc3_match : Token → Action (AppState R) (Unit {0})
  start_umvc3_match t = ask (Request.ensure_umvc3 t)

  abbrev pub pause_if_idle : String → Action (AppState R) (Unit {0})
  pause_if_idle mode = ask (Request.pause_if_idle mode)

  abbrev pub ensure_running : String → Action (AppState R) (Unit {0})
  ensure_running mode = ask (Request.ensure_running mode)
