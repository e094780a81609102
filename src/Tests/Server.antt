-- ===== src/Tests/Server.antt =====
-- The theorems on the server at a small lobby.
use steam_lobby.Prelude.{
  ℕ, String, Bool, true, false, ◌==◌, none, some, ◌≡◌, refl, Option, List, [], ◌∷◌, ◌++◌, map,
  option_eq, if◌then◌else◌,
}
use steam_lobby.Core.Types.{PlayerId, PlayerState, MatchStatus, MatchInfo, MatchDifficulty, Uuid}
use steam_lobby.Core.Error.{LobbyError, ok, err}
use steam_lobby.Core.Match.Resolution.{status_of}
use steam_lobby.Store.Db.{Db}
use steam_lobby.Ranked.Types.{Umvc3Phase, RankedCommand, StoredOutcome}
use steam_lobby.Workflow.{
  Activity, Event, react, react_all, begun, initial, choice, start, timer, who_won, finish_match,
  closed,
}
use steam_lobby.Workflow.Script.{before}
use steam_lobby.Server.State.{AppState, RuntimeConfig, QueueArgs, SessionSignal, Signaling}
use steam_lobby.Server.Activities.{resolve_start_forfeit}
use steam_lobby.Server.Lifecycle.{Stands}
use steam_lobby.Server.Perform.{perform, perform_all}
use steam_lobby.Server.Endings.{Concludes, run_concludes}
use steam_lobby.Server.Timeouts.{stored, run-timer}
use steam_lobby.Server.Retry.{resolve_start_forfeit_again}
use steam_lobby.Server.Intruders.{quiet, strangers_report}
use steam_lobby.Server.Session.{
  World, Steps, Step, started, arrived, arrive, queue_sets, run_syncs, for_call, executed,
}
use steam_lobby.Server.Session.Entries.{Untouched}
use steam_lobby.Server.Session.Own.{Steps-Untouched}
use steam_lobby.Server.Socket.{Socket, ClientMessage, begin_session, check_current, finish_session}
use steam_lobby.Server.Socket.Connections.{
  Op, begins, ends, says, run_ops, run_ops-connections, finish_session_late,
}
use steam_lobby.Server.Socket.Relay.{Says, handled, handle_client_message-Says}
use steam_lobby.Server.Ticker.{sweep}
use steam_lobby.Server.Ticker.Sweep.{Sweeps, is_abandoned, sweep_stale}
use steam_lobby.Core.Types.{match_status_eq}
use steam_lobby.Core.Match.{is_stranger, resolve_from_gameserver, resolve_agreed}
use steam_lobby.Core.Mmr.{update_ratings}
use steam_lobby.Store.Players.{get_rating, set_player_state}
use steam_lobby.Store.Matches.{resolve_match}
use steam_lobby.Server.Webhook.{conflict, unauthorized, game_result, game_result_once}
use steam_lobby.Tests.{naturals, config, duel, player, lobby}
use steam_lobby.Tests.Workflow.{players, played}

abbrev settings : RuntimeConfig
settings = record {
  pong_enabled = true;
  ranked_queue_enabled = true;
  start_timeout_secs = 60;
  match_accept_timeout_secs = 15;
  pair_cooldown_secs = 30;
  gameserver_alloc_timeout_secs = 60;
  gameserver_result_timeout_secs = 600;
}

-- both players are connected
abbrev server : Db ℕ → AppState ℕ
server db = record {
  db = db;
  config = settings;
  game_modes = [];
  connections = λ id. some (record { generation = id; session_id = 500 });
  next_generation = 3;
  temporal = true;
  pong_games = λ _. none;
  rps_games = λ _. none;
  outbox = [];
  requests = [];
  inputs = [];
}

-- match 7, which nobody has accepted yet or both have
abbrev pong_match : MatchStatus → Bool → MatchInfo
pong_match status accepted = record (duel status) {
  game_mode = "pong_1v1";
  accepted_a = accepted;
  accepted_b = accepted;
}

abbrev pong_lobby : MatchStatus → Bool → AppState ℕ
pong_lobby status accepted =
    server (record (lobby PlayerState.in_match status Umvc3Phase.terminal []) {
      matches = λ t. if t == 7 then some (pong_match status accepted) else none;
    })

pong_match_stands :
    (status : MatchStatus) (accepted : Bool)
    → Stands players 7 (pong_lobby status accepted).db status (accepted, accepted) (false, false)
pong_match_stands status accepted = record {
  row = pong_match status accepted;
  found = refl;
  key = refl;
  player_a = refl;
  player_b = refl;
  apart = refl;
  p2p = refl;
  status_is = refl;
  accepted_a = refl;
  accepted_b = refl;
  connected_a = refl;
  connected_b = refl;
  unrated = refl;
}

run_concludes_example :
    (x : Activity) × ((react_all players played begun).sent ≡ before players x ++ x ∷ [])
    × Concludes players 7 x (
        perform_all naturals 7
          (react_all players played begun).sent
          (pong_lobby MatchStatus.pending_accept false))
unfolding react_all react
run_concludes_example =
    run_concludes naturals players 7 (pong_lobby MatchStatus.pending_accept false) played
      (pong_match_stands MatchStatus.pending_accept false) refl

-- both players accept, only player 2 starts, and the timer runs out
abbrev half_started : List Event
half_started = choice 1 true ∷ choice 2 true ∷ start 2 ∷ []

run-timer_example :
    let out =
      perform_all naturals 7
        (react_all players (half_started ++ timer ∷ played) begun).sent
        (pong_lobby MatchStatus.pending_accept false) in
    (out.0 ≡ ok tt)
    × (status_of out.1.db 7 ≡ some MatchStatus.resolved)
    × (stored out.1.db 7 ≡ some StoredOutcome.loss)
unfolding react_all react
run-timer_example =
    run-timer naturals players 7 (pong_lobby MatchStatus.pending_accept false) half_started played
      (pong_match_stands MatchStatus.pending_accept false) refl

resolve_start_forfeit_again_example :
    let once =
      resolve_start_forfeit naturals 7 (some 2) (pong_lobby MatchStatus.in_progress true) in
    let twice = resolve_start_forfeit naturals 7 (some 2) once.1 in
    (once.0 ≡ ok tt)
    × (status_of once.1.db 7 ≡ some MatchStatus.resolved)
    × (twice.0 ≡ err (LobbyError.database "match_results_pkey"))
    × (status_of twice.1.db 7 ≡ some MatchStatus.reporting)
resolve_start_forfeit_again_example =
    resolve_start_forfeit_again naturals 7 2 players (pong_lobby MatchStatus.in_progress true)
      (pong_match_stands MatchStatus.in_progress true) refl

strangers_report_example :
    let r = react players (who_won 4 9) (react players (who_won 3 9) (quiet initial [])) in
    let last = finish_match none (map (λ d. d.1) initial.demo_hashes) in
    (r.stage ≡ closed)
    × (r.sent ≡ [] ++ last ∷ [])
    × ((s : AppState ℕ) → perform naturals 7 last s ≡ (err (LobbyError.invalid_report 7), s))
strangers_report_example =
    strangers_report naturals players 7 3 4 9 9 refl refl refl refl refl initial []

abbrev queue_args : QueueArgs
queue_args = record { user_id = 1; mode = "pong_1v1"; difficulty = MatchDifficulty.normal }

abbrev idle_server : AppState ℕ
idle_server = server (lobby PlayerState.in_menus MatchStatus.pending_accept Umvc3Phase.terminal [])

-- player 1 joins the queue
abbrev joining : World ℕ
joining = arrived naturals (SessionSignal.queue queue_args) (started 1 idle_server)

-- the first activity of its signal is executed
abbrev queueing : World ℕ
queueing = executed naturals (queue_sets queue_args) (for_call run_syncs ∷ []) [] joining

queueing_steps : Steps naturals (started 1 idle_server) queueing
unfolding arrive
queueing_steps =
    Steps.then_step
      (Steps.then_step (Steps.done (started 1 idle_server))
        (Step.arrives (SessionSignal.queue queue_args) (started 1 idle_server) refl refl))
      (Step.executes (queue_sets queue_args) (for_call run_syncs ∷ []) [] joining refl)

Steps-Untouched_example : Untouched 2 idle_server queueing.server
Steps-Untouched_example = Steps-Untouched naturals 1 2 refl idle_server queueing_steps

abbrev hash : RankedCommand → ℕ
hash _ = 0

abbrev reads_uuid : String → Option Uuid
reads_uuid _ = some 2

abbrev reads_number : String → Option ℕ
reads_number _ = some 1

abbrev socket : PlayerId → Socket
socket p = record { user_id = p; generation = p; session_id = 500 }

-- the other player reconnects, its old connection ends, and player 1 sends an offer
abbrev traffic : List Op
traffic =
    begins 2 501
    ∷ ends (socket 2)
    ∷ says (socket 1) (ClientMessage.signaling Signaling.offer 7 "sdp")
    ∷ []

run_ops-connections_example :
    (run_ops naturals hash config reads_uuid reads_number reads_number traffic
        idle_server).connections
      1
    ≡ some (record { generation = 1; session_id = 500 })
run_ops-connections_example =
    run_ops-connections naturals hash config reads_uuid reads_number reads_number 1
      (record { generation = 1; session_id = 500 }) traffic idle_server refl refl

finish_session_late_example :
    let opened = (begin_session 1 501 idle_server).1 in
    (check_current (socket 1) idle_server ≡ (ok true, idle_server))
    × (opened.connections 1 ≡ some (record { generation = 3; session_id = 501 }))
    × ((finish_session true (socket 1) opened).1.connections 1 ≡ none)
finish_session_late_example =
    finish_session_late (socket 1) 501 idle_server {e = record { generation = 1; session_id = 500 }}
      refl refl

handle_client_message-Says_example :
    Says naturals hash config reads_uuid reads_number reads_number (socket 1) idle_server (
      handled naturals hash config reads_uuid reads_number reads_number
        (socket 1)
        idle_server
        (ClientMessage.signaling Signaling.offer 7 "sdp"))
handle_client_message-Says_example =
    handle_client_message-Says naturals hash config reads_uuid reads_number reads_number (socket 1)
      idle_server (ClientMessage.signaling Signaling.offer 7 "sdp")

-- an entry of player 1, whose last heartbeat is long ago
abbrev stale_server : AppState ℕ
stale_server =
    server (record (lobby PlayerState.queueing MatchStatus.pending_accept Umvc3Phase.terminal []) {
      now = 90_000_000;
      player_state = λ _. some (player PlayerState.queueing none);
      queue =
          record {
            user_id = 1;
            game_mode = "pong_1v1";
            match_difficulty = MatchDifficulty.normal;
            mu = 25;
            queued_at = 0;
            lease_expires_at = none;
          }
          ∷ [];
    })

sweep_stale_example : Sweeps stale_server (is_abandoned stale_server) (sweep stale_server).1
sweep_stale_example = sweep_stale stale_server

-- a match on a game server, whose secret is 99
abbrev hosted : MatchInfo
hosted = record (duel MatchStatus.playing) { result_secret = some 99 }

abbrev hosting : AppState ℕ
hosting = server (record (lobby PlayerState.in_match MatchStatus.playing Umvc3Phase.terminal []) {
  matches = λ t. if t == 7 then some hosted else none;
})

game_result_once_example :
    let after = (game_result naturals 7 99 (some 2) hosting).1 in
    (option_eq hosted.result_secret (some 99) ≡ true)
    × (match_status_eq hosted.status MatchStatus.playing ≡ true)
    × (is_stranger hosted (some 2) ≡ false)
    × (game_result naturals 7 98 none after
        ≡ ((if option_eq hosted.result_secret (some 98) then conflict else unauthorized), after))
unfolding game_result resolve_from_gameserver resolve_agreed get_rating resolve_match
    set_player_state update_ratings
game_result_once_example =
    game_result_once naturals 7 99 98 (some 2) none hosting {m = hosted} refl refl refl
