-- ===== src/Ranked/Finalize.antt =====
-- `finalize_umvc3_in_tx` (lobby-server/src/db/matches.rs): the one writer of a ranked result.
pub mod Once
pub mod Writes
use mathlib.Core.Option
use steam_lobby.Prelude.{
  ℕ, ◌+◌, ◌*◌, String, Option, none, some, Bool, true, false, not, ◌&&◌, ◌||◌, ◌==◌, str_eq,
  option_eq, is_some, if◌then◌else◌, List, [], ◌∷◌, ◌++◌, Table, put, modify,
}
use steam_lobby.Core.Types.{
  Uuid, PlayerId, Token, DateTime, PlayerState, MatchStatus, MatchDifficulty, MatchInfo,
  OpenSkillRating, match_status_eq,
}
use steam_lobby.Core.Error.{LobbyError, Result, ok, err, match_of}
use steam_lobby.Core.Action.{Action, pure, gets, modifies, ok_or, reject_if, raise, ◌>>=◌, ◌>>◌}
use steam_lobby.Core.Mmr.{RatingOutcome, update_ratings_for_outcome}
use steam_lobby.Core.Match.{is_participant}
use steam_lobby.Store.Db.{Db}
use steam_lobby.Store.Numbers.{Numbers}
use steam_lobby.Store.Rows.{
  PlayerStateRow, Umvc3Row, ResultRow, EventType, EventRow, Payload, QueueRow,
}
use steam_lobby.Store.Players.{update_rating_row, insert_rating_row, default_rating}
use steam_lobby.Store.Queue.{requeued, seconds}
use steam_lobby.Ranked.Types.{
  Umvc3Phase, Umvc3Verdict, RequeueDecision, StoredOutcome, StoredResolution, TerminalReason,
  phase_eq,
}
use steam_lobby.Ranked.Config.{ranked_mode}
use steam_lobby.Ranked.Events.{next_sequence}

-- Seen from player A.
abbrev pub outcome_of : PlayerId → Umvc3Verdict → StoredOutcome
outcome_of a (Umvc3Verdict.win winner) =
    if winner == a then StoredOutcome.win else StoredOutcome.loss
outcome_of a Umvc3Verdict.draw = StoredOutcome.draw
outcome_of a Umvc3Verdict.disputed = StoredOutcome.disputed

-- Seen from player B.
abbrev pub flipped : StoredOutcome → StoredOutcome
flipped StoredOutcome.win = StoredOutcome.loss
flipped StoredOutcome.loss = StoredOutcome.win
flipped o = o

abbrev pub rating_outcome : PlayerId → Umvc3Verdict → Option RatingOutcome
rating_outcome a (Umvc3Verdict.win winner) =
    some (if winner == a then RatingOutcome.win else RatingOutcome.loss)
rating_outcome a Umvc3Verdict.draw = some RatingOutcome.draw
rating_outcome a Umvc3Verdict.disputed = none

abbrev pub is_disputed : Umvc3Verdict → Bool
is_disputed Umvc3Verdict.disputed = true
is_disputed _ = false

-- The winner is neither player.
abbrev pub names_stranger : MatchInfo → Umvc3Verdict → Bool
names_stranger m (Umvc3Verdict.win winner) = not (is_participant m winner)
names_stranger m _ = false

-- The player's row is there and owned by the match.
abbrev pub is_held : Token → Option PlayerStateRow → Bool
is_held t none = false
is_held t (some p) = option_eq p.active_match_token (some t)

abbrev pub release_to : Bool → PlayerState
release_to should_requeue = if should_requeue then PlayerState.queueing else PlayerState.in_menus

-- UPDATE player_state SET state, active_match_token = NULL WHERE user_id AND active_match_token = t
abbrev pub released : Token → PlayerState → PlayerStateRow → PlayerStateRow
released t state p =
    if option_eq p.active_match_token (some t)
    then record p { state = state; active_match_token = none }
    else p

abbrev pub ended : DateTime → MatchInfo → MatchInfo
ended now m = record m { status = MatchStatus.resolved; ended_at = some now }

abbrev pub made_terminal : TerminalReason → Umvc3Row → Umvc3Row
made_terminal reason u = record u {
  phase = Umvc3Phase.terminal;
  terminal_reason = some reason;
  phase_version = u.phase_version + 1;
  phase_deadline = none;
}

module _ {R : Type 0} (N : Numbers R) where
  -- both ratings exist from here on
  abbrev pub materialised : MatchInfo → Db R → Db R
  materialised m s = record s {
    ratings =
        insert_rating_row m.player_b m.game_mode (default_rating N s.now)
          (insert_rating_row m.player_a m.game_mode (default_rating N s.now) s.ratings);
  }

  abbrev pub rating_in : Db R → PlayerId → String → OpenSkillRating R
  rating_in s id mode = Option.get_or (s.ratings id mode) (default_rating N s.now)

  -- the two changes of mu, and the database with the new ratings
  unfoldable pub rate : MatchInfo → Option RatingOutcome → Bool → Db R → Option R × Option R × Db R
  unfolding update_ratings_for_outcome
  rate m none requeues s = (none, none, if requeues then materialised m s else s)
  rate m (some outcome) requeues s =
      let t = materialised m s in
      let old_a = rating_in t m.player_a m.game_mode in
      let old_b = rating_in t m.player_b m.game_mode in
      let (new_a, new_b) = update_ratings_for_outcome N s.now old_a old_b outcome in
      (
        some (N.sub new_a.mu old_a.mu),
        some (N.sub new_b.mu old_b.mu),
        record t {
          ratings =
              update_rating_row m.player_b m.game_mode
                (λ _. record { mu = new_b.mu; sigma = new_b.sigma; last_updated = s.now })
                (update_rating_row m.player_a m.game_mode
                  (λ _. record { mu = new_a.mu; sigma = new_a.sigma; last_updated = s.now })
                  t.ratings);
        },
      )

  -- one round of the loop over the players: state, and the place in the queue
  abbrev pub free_player :
      MatchInfo → PlayerId → Bool → MatchDifficulty → DateTime → ℕ → Db R → Db R
  free_player m id should_requeue difficulty queued_at lease_secs s = record s {
    player_state = modify id (released m.match_token (release_to should_requeue)) s.player_state;
    queue =
        if should_requeue
        then requeued
            (record {
              user_id = id;
              game_mode = m.game_mode;
              match_difficulty = difficulty;
              mu = (rating_in s id m.game_mode).mu;
              queued_at = queued_at;
              lease_expires_at = some (s.now + seconds lease_secs);
            })
            s.queue
        else s.queue;
  }

  abbrev result_event : Token → EventType → PlayerId → ℕ → StoredOutcome → Option R → EventRow R
  result_event t event_type recipient sequence outcome delta = record {
    match_token = t;
    event_type = event_type;
    actor = none;
    recipient = some (recipient, sequence);
    payload = Payload.result outcome delta;
  }

  -- the two result events, numbered in the order of the recipients' ids
  abbrev pub announce : MatchInfo → Bool → StoredOutcome → Option R → Option R → Db R → Db R
  announce m disputed outcome delta_a delta_b s =
      let event_type = if disputed then EventType.disputed else EventType.resolved in
      let number_a = next_sequence s.event_counters m.player_a in
      let number_b = next_sequence s.event_counters m.player_b in
      record s {
        event_counters =
            put m.player_b (number_b + 1) (put m.player_a (number_a + 1) s.event_counters);
        events =
            s.events
            ++ (result_event m.match_token event_type m.player_a number_a outcome delta_a
                ∷ result_event m.match_token event_type m.player_b number_b (flipped outcome)
                    delta_b
                ∷ []);
      }

  -- the writes, once every check has passed
  unfoldable pub write_verdict :
      MatchInfo → Umvc3Row → Umvc3Verdict → RequeueDecision → Db R → StoredResolution R × Db R
  unfolding rate
  write_verdict m u verdict requeue s =
      let t = m.match_token in
      let outcome = outcome_of m.player_a verdict in
      let disputed = is_disputed verdict in
      let (delta_a, delta_b, s1) =
        rate m (rating_outcome m.player_a verdict) (requeue.player_a || requeue.player_b) s in
      let s2 = record s1 {
        results =
            put t (record { outcome = outcome; mu_change_a = delta_a; mu_change_b = delta_b })
              s1.results;
        matches = modify t (ended s1.now) s1.matches;
        umvc3 =
            modify t
              (made_terminal
                (if disputed then TerminalReason.disputed else TerminalReason.resolved))
              s1.umvc3;
      } in
      let s3 =
        free_player m m.player_a requeue.player_a m.player_a_difficulty u.original_queued_at_a 45
          s2 in
      let s4 =
        free_player m m.player_b requeue.player_b m.player_b_difficulty u.original_queued_at_b 45
          s3 in
      (
        record {
          outcome = outcome;
          mu_change_a = delta_a;
          mu_change_b = delta_b;
          newly_finalized = true;
        },
        announce m disputed outcome delta_a delta_b s4,
      )

  -- the part after the look for a stored result
  unfoldable pub finalize_fresh :
      Token
      → MatchInfo
      → Umvc3Row
      → Umvc3Verdict
      → RequeueDecision
      → Action (Db R) (StoredResolution R)
  finalize_fresh t m u verdict requeue = do
    let mismatch = LobbyError.match_state_mismatch (match_of t)
    reject_if (phase_eq u.phase Umvc3Phase.terminal) mismatch
    reject_if (match_status_eq m.status MatchStatus.resolved) mismatch
    reject_if (names_stranger m verdict) (LobbyError.invalid_report t)
    state_a ← gets (λ s. s.player_state m.player_a)
    state_b ← gets (λ s. s.player_state m.player_b)
    reject_if (m.player_a == m.player_b || not (is_held t state_a) || not (is_held t state_b))
        mismatch
    λ s. let (resolution, after) = write_verdict m u verdict requeue s in (ok resolution, after)

  abbrev stored_or_fresh :
      Option (ResultRow R) → Action (Db R) (StoredResolution R) → Action (Db R) (StoredResolution R)
  stored_or_fresh none fresh = fresh
  stored_or_fresh (some r) fresh = pure (record {
    outcome = r.outcome;
    mu_change_a = r.mu_change_a;
    mu_change_b = r.mu_change_b;
    newly_finalized = false;
  })

  unfoldable pub finalize_umvc3_in_tx :
      Token → Umvc3Verdict → RequeueDecision → Action (Db R) (StoredResolution R)
  unfolding finalize_fresh
  finalize_umvc3_in_tx t verdict requeue = do
    let mismatch = LobbyError.match_state_mismatch (match_of t)
    row ← gets (λ s. s.matches t)
    m ← ok_or row (LobbyError.match_not_found t)
    reject_if (not (str_eq m.game_mode ranked_mode)) mismatch
    extension ← gets (λ s. s.umvc3 t)
    u ← ok_or extension mismatch
    stored ← gets (λ s. s.results t)
    stored_or_fresh stored (finalize_fresh t m u verdict requeue)
