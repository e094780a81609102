-- ===== src/Core/Match.antt =====
-- lobby-core/src/match_lifecycle.rs: `MatchManager`, the actions on a match, over the store that
-- the server gives it. The hooks of the game are a parameter, and so is the rating engine.
pub mod Resolution
pub mod Lifecycle
pub mod Reports
pub mod Once
use Prim.Native.String.{len}
use steam_lobby.Prelude.{
  ℕ, String, Option, none, some, Bool, true, false, not, ◌&&◌, ◌||◌, ◌==◌, ◌!=◌, ltb, any, str_eq,
  option_eq, is_some, is_none, if◌then◌else◌, List, [], ◌∷◌,
}
use steam_lobby.Core.Types.{
  PlayerId, Token, MatchStatus, MatchEvent, MatchInfo, MatchReport, MatchOutcome, PlayerState,
  OpenSkillRating, match_status_eq, is_server,
}
use steam_lobby.Core.Error.{LobbyError, match_of}
use steam_lobby.Core.Action.{Action, pure, gets, ok_or, reject_if, lift, ◌>>=◌, ◌>>◌}
use steam_lobby.Core.Callbacks.{GameCallbacks}
use steam_lobby.Core.Mmr.{update_ratings}
use steam_lobby.Store.Db.{Db}
use steam_lobby.Store.Numbers.{Numbers, Outcomes}
use steam_lobby.Store.Rows.{ReportRow}
use steam_lobby.Store.Players.{set_player_state, get_rating}
use steam_lobby.Store.Matches.{
  get_match, update_match_status, update_match, mark_accepted, mark_started, record_match_event,
  get_reports, resolve_match,
}
use steam_lobby.Store.Matches
use steam_lobby.Ranked.Types.{StoredOutcome}

abbrev pub is_participant : MatchInfo → PlayerId → Bool
is_participant m p = p == m.player_a || p == m.player_b

-- h.len() > 64
abbrev pub is_long_hash : Option String → Bool
is_long_hash none = false
is_long_hash (some h) = ltb 64 (len h)

abbrev pub is_stranger : MatchInfo → Option PlayerId → Bool
is_stranger m none = false
is_stranger m (some w) = not (is_participant m w)

-- ra.demo_hash.is_some() && rb.demo_hash.is_some() && ra.demo_hash != rb.demo_hash
abbrev pub hashes_differ : Option String → Option String → Bool
hashes_differ (some a) (some b) = not (str_eq a b)
hashes_differ none _ = false
hashes_differ (some _) none = false

-- WIN where the winner is player A, LOSS where it is player B, DRAW otherwise
abbrev pub outcome_of : MatchInfo → Option PlayerId → Outcomes
outcome_of m winner =
    if option_eq winner (some m.player_a)
    then Outcomes.win
    else if option_eq winner (some m.player_b)
    then Outcomes.loss
    else Outcomes.draw

abbrev pub outcome_str : Outcomes → StoredOutcome
outcome_str Outcomes.win = StoredOutcome.win
outcome_str Outcomes.loss = StoredOutcome.loss
outcome_str Outcomes.draw = StoredOutcome.draw

abbrev pub to_match_outcome : {R : Type 0} → Outcomes → R → MatchOutcome R
to_match_outcome Outcomes.win mu_change = MatchOutcome.win mu_change
to_match_outcome Outcomes.loss mu_change = MatchOutcome.loss mu_change
to_match_outcome Outcomes.draw mu_change = MatchOutcome.draw mu_change

module _ {R : Type 0} where
  abbrev load_match : Token → Action (Db R) MatchInfo
  load_match t = do found ← get_match t; ok_or found (LobbyError.match_not_found t)

  abbrev expect_status : Token → MatchInfo → MatchStatus → Action (Db R) (Unit {0})
  expect_status t m status =
      reject_if (not (match_status_eq m.status status))
        (LobbyError.match_state_mismatch (match_of t))

  -- both players are free to queue again
  abbrev release_players : MatchInfo → Action (Db R) (Unit {0})
  release_players m = do
    set_player_state m.player_a PlayerState.in_menus
    set_player_state m.player_b PlayerState.in_menus

  abbrev when : Bool → Action (Db R) (Unit {0}) → Action (Db R) (Unit {0})
  when true act = act
  when false act = pure tt

module _ {R : Type 0} (cb : GameCallbacks R) where
  unfoldable pub accept_match : Token → PlayerId → Action (Db R) (Unit {0})
  unfolding get_match update_match_status record_match_event
  accept_match t user = do
    m ← load_match t
    expect_status t m MatchStatus.pending_accept
    reject_if (not (is_participant m user)) (LobbyError.not_participant t)
    let first_accept = if user == m.player_a then not m.accepted_a else not m.accepted_b
    both ← mark_accepted t user
    when both (do update_match_status t MatchStatus.in_progress; lift (cb.on_match_accepted m))
    when first_accept (record_match_event t MatchEvent.accepted (some user))

  unfoldable pub mark_connected : Token → PlayerId → Action (Db R) (Unit {0})
  unfolding get_match update_match
  mark_connected t user = do
    m ← load_match t
    expect_status t m MatchStatus.in_progress
    reject_if (is_server m.connection) (LobbyError.match_state_mismatch (match_of t))
    reject_if (not (is_participant m user)) (LobbyError.not_participant t)
    both ← mark_started t user
    now ← gets (λ s. s.now)
    when both
        (do update_match m.match_token MatchStatus.reporting now; lift (cb.on_players_connected m))

module _ {R : Type 0} (N : Numbers R) (cb : GameCallbacks R) where
  unfoldable pub resolve_agreed : MatchInfo → Option PlayerId → Action (Db R) (MatchOutcome R)
  unfolding get_rating resolve_match set_player_state update_ratings
  resolve_agreed m winner = do
    rating_a ← get_rating N m.player_a m.game_mode
    rating_b ← get_rating N m.player_b m.game_mode
    now ← gets (λ s. s.now)
    let (new_a, new_b) = update_ratings N now rating_a rating_b (outcome_of m winner)
    let mu_change_b = N.sub new_b.mu rating_b.mu
    let mu_change_a = N.sub new_a.mu rating_a.mu
    resolve_match m.match_token m.game_mode m.player_a m.player_b
        (outcome_str (outcome_of m winner)) (some mu_change_a) (some mu_change_b) new_a new_b
    let outcome = to_match_outcome (outcome_of m winner) mu_change_a
    lift (cb.on_match_ended m outcome)
    release_players m
    pure outcome

  -- the branches of `submit_report` on the two reports
  unfoldable pub conclude : Token → MatchInfo → List ReportRow → Action (Db R) (MatchOutcome R)
  unfolding update_match set_player_state
  conclude t m [] = pure MatchOutcome.disputed
  conclude t m (_ ∷ []) = pure MatchOutcome.disputed
  conclude t m (ra ∷ rb ∷ _) =
      let agree = option_eq ra.winner rb.winner in
      let missing = is_none ra.demo_hash || is_none rb.demo_hash in
      if agree && not (hashes_differ ra.demo_hash rb.demo_hash)
      then resolve_agreed m ra.winner
      else do
        now ← gets (λ s. s.now)
        update_match t MatchStatus.disputed now
        release_players m
        pure (
            if agree
            then MatchOutcome.disputed
            else if missing
            then MatchOutcome.unreviewable_dispute
            else MatchOutcome.disputed)

  unfoldable pub submit_report : MatchReport → Action (Db R) (MatchOutcome R)
  unfolding get_match get_reports Matches.submit_report
  submit_report report = do
    let t = report.match_token
    m ← load_match t
    expect_status t m MatchStatus.reporting
    reject_if (not (is_participant m report.reporting_player)) (LobbyError.not_participant t)
    reject_if (is_long_hash report.demo_hash) (LobbyError.invalid_report t)
    reject_if (is_stranger m report.winner) (LobbyError.invalid_report t)
    existing ← get_reports t
    reject_if (any (λ r. r.reporting_player == report.reporting_player) existing)
        (LobbyError.invalid_report t)
    Matches.submit_report report
    reports ← get_reports t
    conclude t m reports

  unfoldable pub resolve_from_gameserver : Token → Option PlayerId → Action (Db R) (MatchOutcome R)
  unfolding get_match
  resolve_from_gameserver t winner = do
    m ← load_match t
    expect_status t m MatchStatus.playing
    reject_if (is_stranger m winner) (LobbyError.invalid_report t)
    resolve_agreed m winner

  unfoldable pub resolve_pong : Token → PlayerId → Action (Db R) (MatchOutcome R)
  unfolding get_match
  resolve_pong t winner = do
    m ← load_match t
    expect_status t m MatchStatus.reporting
    reject_if (not (is_participant m winner)) (LobbyError.invalid_report t)
    resolve_agreed m (some winner)

  -- the rest of `resolve_forfeit`, once the match is known to be Reporting
  unfoldable pub forfeit_both : MatchInfo → Action (Db R) (MatchOutcome R)
  unfolding get_rating resolve_match set_player_state update_ratings
  forfeit_both m = do
    rating_a ← get_rating N m.player_a m.game_mode
    rating_b ← get_rating N m.player_b m.game_mode
    now ← gets (λ s. s.now)
    let (loser_new, _) = update_ratings N now rating_a rating_b Outcomes.loss
    let delta = N.sub loser_new.mu rating_a.mu
    resolve_match m.match_token m.game_mode m.player_a m.player_b StoredOutcome.forfeit (some delta)
        (some delta) (record rating_a { mu = N.add rating_a.mu delta })
        (record rating_b { mu = N.add rating_b.mu delta })
    let outcome = MatchOutcome.forfeit delta
    lift (cb.on_match_ended m outcome)
    release_players m
    pure outcome

  unfoldable pub resolve_forfeit : Token → Action (Db R) (MatchOutcome R)
  unfolding get_match
  resolve_forfeit t = do m ← load_match t; expect_status t m MatchStatus.reporting; forfeit_both m
