-- ===== src/Tests/RateLimit.antt =====
-- The theorem on the rate limiter at a concrete input.
use steam_lobby.Prelude.{ℕ, ◌++◌, false, ◌≡◌, arith, ltb, ◌==◌, length, if◌then◌else◌, [], ◌∷◌}
use steam_lobby.RateLimit.{RateLimiter, check}
use steam_lobby.RateLimit.Window.{recent, IsKept, check_limits}

abbrev busy : RateLimiter
busy = record { max = 2; window = 60; hits = λ ip. if ip == 5 then 10 ∷ 90 ∷ [] else [] }

busy-IsKept : IsKept 95 busy
busy-IsKept ip = ground arith

check_limits_example :
    ((check 100 5 busy).0 ≡ ltb (length (recent 100 60 (10 ∷ 90 ∷ []))) 2)
    × ((check 100 5 busy).1.hits 5 ≡ (
        if ltb (length (recent 100 60 (10 ∷ 90 ∷ []))) 2
        then recent 100 60 (10 ∷ 90 ∷ []) ++ 100 ∷ []
        else recent 100 60 (10 ∷ 90 ∷ [])))
    × ((j : ℕ) → (5 == j) ≡ false → (check 100 5 busy).1.hits j ≡ busy.hits j)
    × IsKept 100 (check 100 5 busy).1
check_limits_example = check_limits 95 100 5 busy (omega arith) busy-IsKept
