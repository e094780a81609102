-- ===== src/RateLimit.antt =====
-- lobby-server/src/rate_limit.rs: the sliding-window rate limiter.
--
-- An address is the number that it stands for, and an `Instant` a number of clock ticks. The lock on the
-- table makes one call of `check` one step.
pub mod Window
use steam_lobby.Prelude.{
  ℕ, ◌-◌, Bool, true, false, leb, ltb, length, if◌then◌else◌, List, [], ◌∷◌, ◌++◌, ◌==◌,
}

pub record RateLimiter : Type 0 where
  pub max : ℕ
  pub window : ℕ
  -- the hits of an address, oldest first
  pub hits : ℕ → List ℕ

unfoldable pub new : ℕ → ℕ → RateLimiter
new max window = record { max = max; window = window; hits = λ _. [] }

-- `t.elapsed() > self.window`, where an instant in the future has elapsed by nothing
abbrev pub has_elapsed : ℕ → ℕ → ℕ → Bool
has_elapsed now window t = ltb window (now - t)

-- while q.front().is_some_and(…) { q.pop_front(); }
unfoldable pub pop_elapsed : ℕ → ℕ → List ℕ → List ℕ
pop_elapsed now window [] = []
pop_elapsed now window (t ∷ ts) =
    let rest = pop_elapsed now window ts in if has_elapsed now window t then rest else t ∷ ts

abbrev set_hits : ℕ → List ℕ → RateLimiter → RateLimiter
set_hits ip q l = record l { hits = λ j. if ip == j then q else l.hits j }

unfoldable pub check : ℕ → ℕ → RateLimiter → Bool × RateLimiter
unfolding pop_elapsed
check now ip l =
    let q = pop_elapsed now l.window (l.hits ip) in
    if leb l.max (length q) then (false, set_hits ip q l) else (true, set_hits ip (q ++ now ∷ []) l)
