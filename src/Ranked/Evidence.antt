-- ===== src/Ranked/Evidence.antt =====
-- `resolve_evidence` (lobby-server/src/commands.rs): what reports and abandon votes prove.
pub mod Verdicts
use mathlib.Core.Option
use steam_lobby.Prelude.{
  ℕ, String, Option, none, some, Bool, true, false, not, ◌&&◌, ◌||◌, ◌==◌, ◌!=◌, str_eq, option_eq,
  ltb, any, is_none, if◌then◌else◌, List, [], ◌∷◌,
}
use steam_lobby.Core.Types.{PlayerId, MatchInfo}
use steam_lobby.Core.Error.{Code, Result, ok, err}
use steam_lobby.Store.Db.{Db}
use steam_lobby.Store.Numbers.{Numbers}
use steam_lobby.Store.Rows.{Umvc3Row, ReportRow}
use steam_lobby.Ranked.Types.{Umvc3Verdict, RelativeOutcome, RequeueDecision}
use steam_lobby.Ranked.Finalize.{finalize_umvc3_in_tx}
use steam_lobby.Ranked.Phase.{Applied}

abbrev pub other_player : MatchInfo → PlayerId → PlayerId
other_player m p = if p == m.player_a then m.player_b else m.player_a

-- the winner that a report names; a row with no outcome does not come this far
abbrev pub claimed : MatchInfo → ReportRow → Option PlayerId
claimed m r = elim r.outcome [
  | none ↦ none
  | some o ↦ elim o [
    | RelativeOutcome.win ↦ some r.reporting_player
    | RelativeOutcome.loss ↦ some (other_player m r.reporting_player)
    | RelativeOutcome.draw ↦ none
  ]
]

abbrev text_eq : Option String → Option String → Bool
text_eq none none = true
text_eq (some a) (some b) = str_eq a b
text_eq none (some _) = false
text_eq (some _) none = false

abbrev pub same_report : MatchInfo → ReportRow → ReportRow → Bool
same_report m x y =
    option_eq (claimed m x) (claimed m y)
    && text_eq x.score y.score
    && text_eq x.checksum y.checksum
    && option_eq x.end_frame y.end_frame

abbrev win_or_draw : Option PlayerId → Umvc3Verdict
win_or_draw none = Umvc3Verdict.draw
win_or_draw (some w) = Umvc3Verdict.win w

-- both have voted: the player whom both name has lost
abbrev by_votes : MatchInfo → PlayerId → PlayerId → Umvc3Verdict
by_votes m vote_a vote_b =
    if vote_a == vote_b then Umvc3Verdict.win (other_player m vote_a) else Umvc3Verdict.disputed

-- one report, and the vote of the player that did not report
abbrev by_report_and_vote : Option PlayerId → PlayerId → Umvc3Verdict
by_report_and_vote none loser = Umvc3Verdict.disputed
by_report_and_vote (some winner) loser =
    if winner != loser then Umvc3Verdict.win winner else Umvc3Verdict.disputed

-- the evidence of at most one report
abbrev without_two :
    MatchInfo → List ReportRow → Option PlayerId → Option PlayerId → Option Umvc3Verdict
without_two m reports (some vote_a) (some vote_b) = some (by_votes m vote_a vote_b)
without_two m (r ∷ _) vote_a vote_b =
    Option.map (by_report_and_vote (claimed m r))
      (if r.reporting_player == m.player_a then vote_b else vote_a)
without_two m [] vote_a vote_b = none

unfoldable pub verdict_of : MatchInfo → Umvc3Row → List ReportRow → Option Umvc3Verdict
verdict_of m u (x ∷ y ∷ _) =
    some (if same_report m x y then win_or_draw (claimed m x) else Umvc3Verdict.disputed)
verdict_of m u reports = without_two m reports u.abandon_vote_a u.abandon_vote_b

-- ORDER BY reporting_player
insert_report : ReportRow → List ReportRow → List ReportRow
insert_report r [] = r ∷ []
insert_report r (x ∷ xs) =
    if ltb r.reporting_player x.reporting_player then r ∷ x ∷ xs else x ∷ insert_report r xs

unfoldable pub by_reporter : List ReportRow → List ReportRow
unfolding insert_report
by_reporter [] = []
by_reporter (r ∷ rs) = insert_report r (by_reporter rs)

abbrev pub no_requeue : RequeueDecision
no_requeue = record { player_a = false; player_b = false }

module _ {R : Type 0} (N : Numbers R) where
  -- every error of the finalizer becomes `database_error`
  abbrev finalized : {A : Type 0} → Result A × Db R → Applied R
  finalized (ok _, s) = (none, s)
  finalized (err _, s) = (some Code.database_error, s)

  abbrev pub settle : MatchInfo → Option Umvc3Verdict → Db R → Applied R
  settle m none s = (none, s)
  settle m (some verdict) s = finalized (finalize_umvc3_in_tx N m.match_token verdict no_requeue s)

  -- a row with no outcome cannot be decoded
  unfoldable pub resolve_evidence : MatchInfo → Umvc3Row → Db R → Applied R
  resolve_evidence m u s =
      if any (λ (r : ReportRow). is_none r.outcome) (s.reports m.match_token)
      then (some Code.database_error, s)
      else settle m (verdict_of m u (by_reporter (s.reports m.match_token))) s
