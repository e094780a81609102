-- ===== src/Core/Match/Reports.antt =====
-- The reports of the two players (`MatchManager::submit_report`, lobby-core/src/match_lifecycle.rs).
use mathlib.Core.Option
use steam_lobby.Prelude.{
  String, is_none, or_comm, option_eq_comm, option_eq→eq, Bool-cases, inl, inr, Option, none, some,
  Bool, true, false, ◌&&◌, not, ◌==◌, ◌≡◌, refl, arith, any, str_eq, str_eq_iff, option_eq, [], ◌∷◌,
}
use steam_lobby.Core.Types.{Token, MatchStatus, MatchInfo, MatchReport, MatchOutcome}
use steam_lobby.Core.Error.{LobbyError, ok, err}
use steam_lobby.Core.Callbacks.{GameCallbacks}
use steam_lobby.Core.Match.{
  submit_report, conclude, is_participant, is_long_hash, is_stranger, hashes_differ,
}
use steam_lobby.Core.Match.Resolution.{status_of}
use steam_lobby.Store.Db.{Db}
use steam_lobby.Store.Numbers.{Numbers}
use steam_lobby.Store.Rows.{ReportRow}
use steam_lobby.Store.Matches
use steam_lobby.Store.Matches.{of_report}

-- What `submit_report` asks of a report before it looks at the others.
pub record IsAdmissible {R : Type 0} (s : Db R) (m : MatchInfo) (r : MatchReport) : Type 0 where
  pub found : s.matches r.match_token ≡ some m
  pub reporting : m.status ≡ MatchStatus.reporting
  pub participant : is_participant m r.reporting_player ≡ true
  pub short : is_long_hash r.demo_hash ≡ false
  pub of_match : is_stranger m r.winner ≡ false

abbrev agree : ReportRow → ReportRow → Bool
agree ra rb = option_eq ra.winner rb.winner && not (hashes_differ ra.demo_hash rb.demo_hash)

module _ {R : Type 0} (N : Numbers R) (cb : GameCallbacks R) (s : Db R) (r : MatchReport) where
  -- A player's second report of a match that is otherwise admissible is an InvalidReport, and
  -- nothing is written.
  pub submit_report_twice :
      {m : MatchInfo}
      → IsAdmissible s m r
      → any (λ x. x.reporting_player == r.reporting_player) (s.reports r.match_token) ≡ true
      → submit_report N cb r s ≡ (err (LobbyError.invalid_report r.match_token), s)
  unfolding submit_report
  submit_report_twice fits twice = ground arith

  -- The first report of a match, where it is admissible, is stored, answered as disputed, and
  -- decides nothing else.
  pub submit_report_alone :
      {m : MatchInfo}
      → IsAdmissible s m r
      → s.reports r.match_token ≡ []
      → submit_report N cb r s ≡ (ok MatchOutcome.disputed, (Matches.submit_report r s).1)
  unfolding submit_report conclude Matches.submit_report
  submit_report_alone fits first = ground arith

  submit_report-second :
      {m : MatchInfo} {ra : ReportRow}
      → IsAdmissible s m r
      → s.reports r.match_token ≡ ra ∷ []
      → (ra.reporting_player == r.reporting_player) ≡ false
      → submit_report N cb r s
        ≡ conclude N cb r.match_token m (ra ∷ of_report r ∷ []) (Matches.submit_report r s).1
  unfolding submit_report Matches.submit_report
  submit_report-second fits one other = ground arith

str_eq_comm : (a b : String) → str_eq a b ≡ str_eq b a
str_eq_comm a b = ground (arith, str_eq_iff a b, str_eq_iff b a)

hashes_differ_comm : (a b : Option String) → hashes_differ a b ≡ hashes_differ b a
hashes_differ_comm (some a) (some b) = rw (str_eq_comm a b)
hashes_differ_comm none b = ground arith
hashes_differ_comm (some a) none = refl

module _ {R : Type 0} (N : Numbers R) (cb : GameCallbacks R) (t : Token) (m : MatchInfo)
    (s : Db R) where
  -- The verdict on two reports, and all that it writes, do not depend on which report came first.
  pub conclude_comm :
      (ra rb : ReportRow) → conclude N cb t m (ra ∷ rb ∷ []) s ≡ conclude N cb t m (rb ∷ ra ∷ []) s
  unfolding conclude
  conclude_comm ra rb = elim (Bool-cases (option_eq ra.winner rb.winner)) [
    | inl same ↦ rw (
      option_eq_comm rb.winner ra.winner,
      hashes_differ_comm rb.demo_hash ra.demo_hash,
      or_comm (is_none rb.demo_hash) (is_none ra.demo_hash),
      same,
      option_eq→eq ra.winner rb.winner same,
    )
    | inr other ↦ rw (
      option_eq_comm rb.winner ra.winner,
      hashes_differ_comm rb.demo_hash ra.demo_hash,
      or_comm (is_none rb.demo_hash) (is_none ra.demo_hash),
      other,
    )
  ]

  conclude-disagree :
      (ra rb : ReportRow)
      → agree ra rb ≡ false
      → ((conclude N cb t m (ra ∷ rb ∷ []) s).1.ratings ≡ s.ratings)
        × ((conclude N cb t m (ra ∷ rb ∷ []) s).1.results ≡ s.results)
        × (status_of (conclude N cb t m (ra ∷ rb ∷ []) s).1 t
            ≡ Option.map (λ _. MatchStatus.disputed) (s.matches t))
  unfolding conclude
  conclude-disagree ra rb h = ground arith
