-- ===== src/Tests/Core.antt =====
-- The theorems on lobby-core at concrete inputs.
use steam_lobby.Prelude.{arith, ℕ, String, none, some, true, ◌≡◌, ◌≢◌, refl, [], ◌∷◌}
use steam_lobby.Core.Types.{PlayerId, PlayerState, MatchStatus, MatchDifficulty, MatchOutcome}
use steam_lobby.Core.Error.{LobbyError, ok, err}
use steam_lobby.Core.Callbacks.{default_callbacks}
use steam_lobby.Core.Player.Machine.{Op, run, next_row, run_machine}
use steam_lobby.Core.Expiry.{expire_playing_matches}
use steam_lobby.Core.Expiry.Overdue.{IsKeyed, is_ok, disputed, expire_playing_matches-matches}
use steam_lobby.Core.Match.{conclude, resolve_agreed}
use steam_lobby.Core.Match.Once.{resolve_agreed_once}
use steam_lobby.Core.Mmr.{update_ratings}
use steam_lobby.Store.Players.{get_rating, set_player_state}
use steam_lobby.Core.Match.Lifecycle.{accepts, act, follows, act-follows}
use steam_lobby.Core.Match.Resolution.{status_of}
use steam_lobby.Core.Match.Reports.{conclude_comm}
use steam_lobby.Store.Db.{Db}
use steam_lobby.Store.Matches.{of_report, resolve_match}
use steam_lobby.Ranked.Types.{Umvc3Phase}
use steam_lobby.Tests.{naturals, duel, user, player, report, lobby}

abbrev idle : Db ℕ
idle = lobby PlayerState.in_menus MatchStatus.pending_accept Umvc3Phase.awaiting_accepted []

abbrev reporting : Db ℕ
reporting = lobby PlayerState.reporting MatchStatus.reporting Umvc3Phase.playing []

run_machine_example :
    ((run default_callbacks 1 (Op.begins "pong_1v1" MatchDifficulty.hard) idle).0 ≡ ok tt)
    × ((run default_callbacks 1 (Op.begins "pong_1v1" MatchDifficulty.hard) idle).1.player_state 1
        ≡ some (
            next_row 100
              (Op.begins "pong_1v1" MatchDifficulty.hard)
              (player PlayerState.in_menus (some 7))))
    × ((j : PlayerId)
        → j ≢ 1
        → (run default_callbacks 1 (Op.begins "pong_1v1" MatchDifficulty.hard) idle).1.player_state
            j
          ≡ idle.player_state j)
run_machine_example =
    run_machine idle 1 {u = user} {p = player PlayerState.in_menus (some 7)} refl refl
      (Op.begins "pong_1v1" MatchDifficulty.hard)

act-follows_example :
    follows MatchStatus.pending_accept
      (status_of (act naturals default_callbacks (accepts 7 2) idle).1 7)
    ≡ true
act-follows_example =
    act-follows naturals default_callbacks idle (accepts 7 2) {m = duel MatchStatus.pending_accept}
      refl refl

conclude_comm_example :
    conclude naturals default_callbacks 7
      (duel MatchStatus.reporting)
      (of_report (report 1 (some 1)) ∷ of_report (report 2 none) ∷ [])
      reporting
    ≡ conclude naturals default_callbacks 7
        (duel MatchStatus.reporting)
        (of_report (report 2 none) ∷ of_report (report 1 (some 1)) ∷ [])
        reporting
conclude_comm_example =
    conclude_comm naturals default_callbacks 7 (duel MatchStatus.reporting) reporting
      (of_report (report 1 (some 1))) (of_report (report 2 none))

abbrev reported : Db ℕ
reported = record reporting { reports = λ _. of_report (report 1 (some 2)) ∷ [] }

resolve_agreed_once_example :
    let first =
      (resolve_agreed naturals default_callbacks
        (duel MatchStatus.reporting)
        (some 1)
        reporting).1 in
    let second =
      resolve_agreed naturals default_callbacks (duel MatchStatus.reporting) (some 2) first in
    (second.0 ≡ err (LobbyError.database "match_results_pkey"))
    × (second.1.matches ≡ first.matches)
    × (second.1.results ≡ first.results)
    × (second.1.player_state ≡ first.player_state)
    × ((id : PlayerId) (mode : String) → second.1.ratings id mode ≡ first.ratings id mode)
unfolding resolve_agreed get_rating resolve_match set_player_state update_ratings
resolve_agreed_once_example =
    resolve_agreed_once naturals default_callbacks (duel MatchStatus.reporting) reporting (some 1)
      (some 2) {outcome = MatchOutcome.win 1} refl

abbrev overdue : Db ℕ
overdue = record (lobby PlayerState.in_match MatchStatus.playing Umvc3Phase.playing []) {
  now = 5_000_005;
}

overdue-IsKeyed : IsKeyed overdue
overdue-IsKeyed t m found = ground arith

expire_playing_matches-matches_example :
    (is_ok (expire_playing_matches 3 overdue).0 ≡ true)
    × ((expire_playing_matches 3 overdue).1.matches 7 ≡ some (disputed (duel MatchStatus.playing)))
expire_playing_matches-matches_example = expire_playing_matches-matches 3 7 overdue overdue-IsKeyed
