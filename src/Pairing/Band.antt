-- ===== src/Pairing/Band.antt =====
-- How far apart two ratings may be: `search_band` (lobby-core/src/queue.rs) and `mmr_offset`
-- (lobby-core/src/types.rs).
use steam_lobby.Prelude.{ℕ, ◌-◌, ◌/◌, Bool, not, ◌||◌}
use steam_lobby.Core.Types.{DateTime, MatchDifficulty}
use steam_lobby.Store.Rows.{QueueRow}
use steam_lobby.Store.Numbers.{Numbers}

module _ {R : Type 0} (N : Numbers R) where
  unfoldable pub mmr_offset : MatchDifficulty → R
  mmr_offset MatchDifficulty.easy = N.neg (N.lit 150)
  mmr_offset MatchDifficulty.normal = N.lit 0
  mmr_offset MatchDifficulty.hard = N.lit 150

  -- min(50 + floor(wait / 10) * 25, 400)
  unfoldable pub band_of : R → R
  band_of wait =
      N.min (N.add (N.lit 50) (N.mul (N.floor (N.div wait (N.lit 10))) (N.lit 25))) (N.lit 400)

  unfoldable pub search_band : (wait mu offset : R) → R × R
  unfolding band_of
  search_band wait mu offset =
      let band = band_of wait in (N.add (N.sub mu band) offset, N.add (N.add mu band) offset)

  -- the whole seconds that a row has waited
  abbrev pub wait_secs : DateTime → QueueRow R → ℕ
  wait_secs now a = (now - a.queued_at) / 1_000_000

  -- not (b.mu < lo || b.mu > hi)
  unfoldable pub is_in_band : DateTime → QueueRow R → QueueRow R → Bool
  unfolding search_band mmr_offset
  is_in_band now a b =
      let (lo, hi) = search_band (N.lit (wait_secs now a)) a.mu (mmr_offset a.match_difficulty) in
      not (N.lt b.mu lo || N.lt hi b.mu)
