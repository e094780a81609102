-- ===== src/Ranked/Evidence/Verdicts.antt =====
-- What `resolve_evidence` (lobby-server/src/commands.rs) makes of reports and abandon votes.
use steam_lobby.Prelude.{
  Option, none, some, Bool, true, false, ◌≡◌, refl, arith, ◌==◌, ◌&&◌, ◌||◌, if◌then◌else◌, List,
  [], ◌∷◌, is_some,
}
use steam_lobby.Core.Types.{PlayerId, MatchInfo}
use steam_lobby.Core.Match.{is_participant}
use steam_lobby.Store.Rows.{Umvc3Row, ReportRow}
use steam_lobby.Ranked.Types.{Umvc3Verdict}
use steam_lobby.Ranked.Finalize.{names_stranger}
use steam_lobby.Ranked.Evidence.{verdict_of, by_reporter, other_player}

-- The vote of the player that is not the reporter.
abbrev pub answering_vote : MatchInfo → Umvc3Row → ReportRow → Option PlayerId
answering_vote m u r =
    if r.reporting_player == m.player_a then u.abandon_vote_b else u.abandon_vote_a

-- A verdict needs a word from each player: two reports, two votes, or one report and the other's vote.
abbrev pub both_have_spoken : MatchInfo → Umvc3Row → List ReportRow → Bool
both_have_spoken m u [] = is_some u.abandon_vote_a && is_some u.abandon_vote_b
both_have_spoken m u (r ∷ []) =
    is_some u.abandon_vote_a && is_some u.abandon_vote_b || is_some (answering_vote m u r)
both_have_spoken m u (_ ∷ _ ∷ _) = true

-- There is a verdict exactly when both players have spoken: two reports, two votes, or one report
-- and the vote of the player that is not its reporter.
pub verdict_of_both :
    (m : MatchInfo) (u : Umvc3Row) (reports : List ReportRow)
    → is_some (verdict_of m u reports) ≡ both_have_spoken m u reports
unfolding verdict_of
verdict_of_both m u [] = ground arith
verdict_of_both m u (r ∷ []) = ground arith
verdict_of_both m u (_ ∷ _ ∷ _) = refl

other_player_participates :
    (m : MatchInfo) (p : PlayerId) → is_participant m (other_player m p) ≡ true
other_player_participates m p = ground arith

-- a vote names one of the two players
abbrev pub names_player : MatchInfo → Option PlayerId → Bool
names_player m none = true
names_player m (some p) = is_participant m p

abbrev pub by_players : MatchInfo → List ReportRow → Bool
by_players m [] = true
by_players m (r ∷ rs) = is_participant m r.reporting_player && by_players m rs

-- If every report is from one of the players, no verdict names a stranger as the winner.
pub verdict_of-names_player :
    (m : MatchInfo) (u : Umvc3Row) (reports : List ReportRow) {v : Umvc3Verdict}
    → by_players m reports ≡ true
    → verdict_of m u reports ≡ some v
    → names_stranger m v ≡ false
unfolding verdict_of
verdict_of-names_player m u [] ours e = ground arith
verdict_of-names_player m u (r ∷ []) ours e = ground arith
verdict_of-names_player m u (r ∷ x ∷ _) ours e = ground arith

-- Two reports of different players come out in the same order, whichever came first.
pub by_reporter_comm :
    (x y : ReportRow)
    → (x.reporting_player == y.reporting_player) ≡ false
    → by_reporter (x ∷ y ∷ []) ≡ by_reporter (y ∷ x ∷ [])
unfolding by_reporter
by_reporter_comm x y apart = ground arith
