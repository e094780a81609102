-- ===== src/Tests/Rps.antt =====
-- The theorems on the referee of rock, paper, scissors at concrete inputs.
use steam_lobby.Prelude.{ℕ, zero, suc, ◌+◌, ◌≡◌, refl, arith, false, Option, some, List, [], ◌∷◌}
use steam_lobby.Core.Types.{MatchStatus}
use steam_lobby.Rps.{Input, run, spawned, is_still}
use steam_lobby.Rps.Invariant.{IsSound, run-IsSound}
use steam_lobby.Rps.Time.{run_ends}

abbrev reporting : Option MatchStatus
reporting = some MatchStatus.reporting

-- player 1 shows paper and player 2 rock, at every turn
abbrev every_half_second : ℕ → ℕ → List Input
every_half_second now zero = []
every_half_second now (suc n) =
    record {
      now = now;
      stored = reporting;
      choices = record { from = 1; choice = 1 } ∷ record { from = 2; choice = 0 } ∷ [];
    }
    ∷ every_half_second (now + 500) n

run-IsSound_example : IsSound 1 2 (run 1 2 (every_half_second 500 40) spawned)
run-IsSound_example = run-IsSound 1 2 (every_half_second 500 40)

run_ends_example : is_still (run 1 2 (every_half_second 500 386) spawned).ending ≡ false
run_ends_example = run_ends 1 2 (every_half_second 500 386) 0 refl (omega arith)
