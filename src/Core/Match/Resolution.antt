-- ===== src/Core/Match/Resolution.antt =====
-- What `MatchManager::resolve_agreed` writes (lobby-core/src/match_lifecycle.rs).
use mathlib.Core.Option
use steam_lobby.Prelude.{Option, some, ◌&&◌, ◌==◌, ◌≡◌, arith, put, modify, is_none, if◌then◌else◌}
use steam_lobby.Core.Types.{
  PlayerId, Token, PlayerState, MatchStatus, MatchInfo, MatchOutcome, OpenSkillRating,
}
use steam_lobby.Core.Error.{LobbyError, ok, err}
use steam_lobby.Core.Callbacks.{GameCallbacks}
use steam_lobby.Core.Mmr.{update_ratings}
use steam_lobby.Core.Match.{resolve_agreed, forfeit_both, outcome_of, outcome_str}
use steam_lobby.Store.Db.{Db}
use steam_lobby.Store.Numbers.{Numbers, Outcomes}
use steam_lobby.Store.Rows.{ResultRow}
use steam_lobby.Store.Players.{update_rating_row, insert_rating_row, default_rating}
use steam_lobby.Ranked.Types.{StoredOutcome}

abbrev pub status_of : {R : Type 0} → Db R → Token → Option MatchStatus
status_of s t = Option.map (λ m. m.status) (s.matches t)

module _ {R : Type 0} (N : Numbers R) (m : MatchInfo) (s : Db R) where
  -- after the ratings of both players have been read, missing ones being created
  abbrev pub with_ratings : Db R
  with_ratings = record s {
    ratings =
        insert_rating_row m.player_b m.game_mode (default_rating N s.now)
          (insert_rating_row m.player_a m.game_mode (default_rating N s.now) s.ratings);
  }

  abbrev old_a : OpenSkillRating R
  old_a = Option.get_or (s.ratings m.player_a m.game_mode) (default_rating N s.now)

  abbrev old_b : OpenSkillRating R
  old_b =
      Option.get_or
        (insert_rating_row m.player_a m.game_mode (default_rating N s.now) s.ratings m.player_b
          m.game_mode)
        (default_rating N s.now)

  -- the database once ratings, result and status are written
  abbrev pub settled : StoredOutcome → R → R → OpenSkillRating R → OpenSkillRating R → Db R
  settled outcome mu_change_a mu_change_b new_a new_b = record s {
    ratings =
        update_rating_row m.player_b m.game_mode
          (λ _. record { mu = new_b.mu; sigma = new_b.sigma; last_updated = s.now })
          (update_rating_row m.player_a m.game_mode
            (λ _. record { mu = new_a.mu; sigma = new_a.sigma; last_updated = s.now })
            with_ratings.ratings);
    results =
        put m.match_token
          (record {
            outcome = outcome;
            mu_change_a = some mu_change_a;
            mu_change_b = some mu_change_b;
          })
          s.results;
    matches =
        modify m.match_token
          (λ row. record row { status = MatchStatus.resolved; ended_at = some s.now }) s.matches;
  }

  module _ (cb : GameCallbacks R) (winner : Option PlayerId) where
    abbrev new_ratings : OpenSkillRating R × OpenSkillRating R
    new_ratings = update_ratings N s.now old_a old_b (outcome_of m winner)

    abbrev pub agreed : Db R
    agreed =
        settled (outcome_str (outcome_of m winner)) (N.sub new_ratings.0.mu old_a.mu)
          (N.sub new_ratings.1.mu old_b.mu) new_ratings.0 new_ratings.1

    -- what a success has written
    abbrev pub resolved : Db R
    resolved = record agreed {
      player_state =
          modify m.player_b (λ p. record p { state = PlayerState.in_menus })
            (modify m.player_a (λ p. record p { state = PlayerState.in_menus }) s.player_state);
    }

    pub resolve_agreed-ok :
        {outcome : MatchOutcome R}
        → (resolve_agreed N cb m winner s).0 ≡ ok outcome
        → (resolve_agreed N cb m winner s).1 ≡ resolved
    unfolding resolve_agreed
    resolve_agreed-ok fine = ground arith

    pub resolve_agreed-stored :
        {r : ResultRow R}
        → s.results m.match_token ≡ some r
        → resolve_agreed N cb m winner s
          ≡ (err (LobbyError.database "match_results_pkey"), with_ratings)
    unfolding resolve_agreed
    resolve_agreed-stored stored = ground arith

    -- Whatever the hook answers, the match and its result are written together or not at all.
    pub status-resolve_agreed :
        (t : Token)
        → status_of (resolve_agreed N cb m winner s).1 t ≡ (
            if is_none (s.results m.match_token) && m.match_token == t
            then Option.map (λ _. MatchStatus.resolved) (s.matches t)
            else status_of s t)
    unfolding resolve_agreed
    status-resolve_agreed t = ground arith

    pub results-resolve_agreed :
        (t : Token)
        → (resolve_agreed N cb m winner s).1.results t ≡ (
            if is_none (s.results m.match_token) && m.match_token == t
            then agreed.results t
            else s.results t)
    unfolding resolve_agreed
    results-resolve_agreed t = ground arith

  module _ (cb : GameCallbacks R) where
    abbrev delta : R
    delta = N.sub (update_ratings N s.now old_a old_b Outcomes.loss).0.mu old_a.mu

    abbrev pub forfeited : Db R
    forfeited =
        settled StoredOutcome.forfeit delta delta (record old_a { mu = N.add old_a.mu delta })
          (record old_b { mu = N.add old_b.mu delta })

    pub status-forfeit_both :
        (t : Token)
        → status_of (forfeit_both N cb m s).1 t ≡ (
            if is_none (s.results m.match_token) && m.match_token == t
            then Option.map (λ _. MatchStatus.resolved) (s.matches t)
            else status_of s t)
    unfolding forfeit_both
    status-forfeit_both t = ground arith

    pub results-forfeit_both :
        (t : Token)
        → (forfeit_both N cb m s).1.results t ≡ (
            if is_none (s.results m.match_token) && m.match_token == t
            then forfeited.results t
            else s.results t)
    unfolding forfeit_both
    results-forfeit_both t = ground arith
