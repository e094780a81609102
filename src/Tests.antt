-- ===== src/Tests.antt =====
-- A small lobby with two players and one match, for the tests: whole numbers stand in for f64, and a rating
-- engine that moves both ratings by one stands in for `skillratings`.
pub mod Core
pub mod Ranked
pub mod Auth
pub mod Pairing
pub mod Pong
pub mod RateLimit
pub mod Rps
pub mod Workflow
pub mod Server
use Prim.Native.Nat.{min}
use steam_lobby.Prelude.{
  ℕ, ◌+◌, ◌-◌, ◌*◌, ◌/◌, String, Option, none, some, Bool, true, false, leb, ltb, ◌==◌,
  if◌then◌else◌, List, [], ◌∷◌,
}
use steam_lobby.Core.Types.{
  PlayerId, PlayerState, MatchStatus, ConnectionStrategy, MatchDifficulty, MatchInfo, MatchReport,
}
use steam_lobby.Store.Db.{Db}
use steam_lobby.Store.Numbers.{Numbers, Outcomes, WengLinRating}
use steam_lobby.Store.Rows.{UserRow, PlayerStateRow, Umvc3Row, ReportRow, InboxRow}
use steam_lobby.Ranked.Types.{
  Umvc3Phase, SessionKind, CommandStatus, RankedCommand, CommandActor, RelativeOutcome, LobbyRole,
}
use steam_lobby.Ranked.Config.{Config, ranked_mode}

abbrev one_up : WengLinRating ℕ → WengLinRating ℕ → Outcomes → WengLinRating ℕ × WengLinRating ℕ
one_up a b Outcomes.win = (record a { rating = a.rating + 1 }, record b { rating = b.rating - 1 })
one_up a b Outcomes.loss = (record a { rating = a.rating - 1 }, record b { rating = b.rating + 1 })
one_up a b Outcomes.draw = (a, b)

abbrev pub naturals : Numbers ℕ
naturals = record {
  lit = λ n. n;
  add = λ a b. a + b;
  sub = λ a b. a - b;
  neg = λ a. 0 - a;
  mul = λ a b. a * b;
  div = λ a b. a / b;
  floor = λ n. n;
  min = min;
  le = leb;
  lt = ltb;
  weng_lin = one_up;
}

abbrev pub config : Config
config = record {
  ranked_queue_enabled = true;
  ranked_queue_lease_secs = 45;
  match_accept_timeout_secs = 15;
  umvc3_trying_timeout_secs = 60;
  umvc3_connect_timeout_secs = 30;
  umvc3_ready_timeout_secs = 30;
  umvc3_play_timeout_secs = 1800;
  report_timeout_secs = 120;
  game_modes = [];
}

abbrev pub duel : MatchStatus → MatchInfo
duel status = record {
  match_token = 7;
  player_a = 1;
  player_a_difficulty = MatchDifficulty.normal;
  player_b = 2;
  player_b_difficulty = MatchDifficulty.normal;
  game_mode = ranked_mode;
  connection = ConnectionStrategy.p2p;
  status = status;
  created_at = 0;
  accepted_at = none;
  started_at = some 5;
  ended_at = none;
  server_address = none;
  join_token = none;
  result_secret = none;
  accepted_a = true;
  accepted_b = false;
  connected_a = false;
  connected_b = false;
}

abbrev pub extension : Umvc3Phase → Umvc3Row
extension phase = record {
  phase = phase;
  terminal_reason = none;
  phase_version = 3;
  next_command_sequence = 2;
  phase_deadline = some 50;
  attempt_id = 900;
  lobby_id = none;
  trying_a = false;
  trying_b = false;
  connect_local_a = false;
  connect_peer_a = false;
  connect_local_b = false;
  connect_peer_b = false;
  ready_a = false;
  ready_b = false;
  abandon_vote_a = none;
  abandon_vote_b = none;
  original_queued_at_a = 0;
  original_queued_at_b = 1;
}

abbrev pub user : UserRow
user = record { display_name = "ada"; token_version = 0 }

abbrev pub player : PlayerState → Option ℕ → PlayerStateRow
player state active = record { state = state; last_heartbeat = 0; active_match_token = active }

-- a report of a ranked match
abbrev pub claim : PlayerId → RelativeOutcome → ReportRow
claim p outcome = record {
  reporting_player = p;
  winner = none;
  demo_hash = none;
  outcome = some outcome;
  score = some "2-1";
  checksum = none;
  end_frame = some 900;
}

-- a report of an unranked match
abbrev pub report : PlayerId → Option PlayerId → MatchReport
report p winner = record {
  match_token = 7;
  reporting_player = p;
  winner = winner;
  demo_hash = some "ab";
}

abbrev pub actor : CommandActor
actor = record { user_id = 2; session_kind = SessionKind.native; session_id = 40 }

-- player 2 has sent a command of the match that waits
abbrev pub waiting : RankedCommand → InboxRow
waiting command = record {
  session_kind = SessionKind.native;
  session_id = 40;
  command_id = 71;
  receipt = 600;
  user_id = 2;
  user_sequence = none;
  match_token = some 7;
  match_sequence = some 1;
  expected_phase_version = some 3;
  payload = command;
  status = CommandStatus.pending;
  error_code = none;
  processed_event_sequence = none;
}

-- Players 1 and 2 in match 7, at time 100.
abbrev pub lobby : PlayerState → MatchStatus → Umvc3Phase → List InboxRow → Db ℕ
lobby state status phase inbox = record {
  now = 100;
  entropy = λ n. 1000 + n;
  drawn = 0;
  users = λ id. if leb id 2 then some user else none;
  player_state = λ id. if leb id 2 then some (player state (some 7)) else none;
  ratings = λ _ _. none;
  tokens = 7 ∷ [];
  matches = λ t. if t == 7 then some (duel status) else none;
  reports = λ _. [];
  results = λ _. none;
  events = [];
  queue = [];
  umvc3 = λ t. if t == 7 then some (extension phase) else none;
  inbox = inbox;
  command_counters = λ _. none;
  event_counters = λ _. none;
}
