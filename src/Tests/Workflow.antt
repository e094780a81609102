-- ===== src/Tests/Workflow.antt =====
-- The theorems on the workflow of a match at concrete events.
use steam_lobby.Prelude.{true, refl, List, [], ◌∷◌}
use steam_lobby.Workflow.{MatchArgs, Event, react, react_all, begun, choice, start, who_won}
use steam_lobby.Workflow.Strangers.{IsBlocked, react_all-IsBlocked}

abbrev pub players : MatchArgs
players = record { player_a = 1; player_b = 2 }

-- both accept and start, player 2 reports late and changes its mind
abbrev pub played : List Event
played =
    choice 1 true ∷ start 2 ∷ choice 2 true ∷ start 1 ∷ who_won 2 2 ∷ who_won 2 1 ∷ who_won 1 1 ∷ []

-- player 3 accepts, then both players accept and start
abbrev crowded : List Event
crowded = choice 1 true ∷ choice 2 true ∷ start 1 ∷ start 2 ∷ []

three_accept : IsBlocked players 3 (react players (choice 3 true) begun)
unfolding react
three_accept = (refl, refl)

react_all-IsBlocked_example :
    IsBlocked players 3 (react_all players crowded (react players (choice 3 true) begun))
react_all-IsBlocked_example =
    react_all-IsBlocked players 3 crowded (react players (choice 3 true) begun) refl refl refl
      three_accept
