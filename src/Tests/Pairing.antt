-- ===== src/Tests/Pairing.antt =====
-- The theorems on pairing at concrete inputs: two players wait for the ranked mode.
use steam_lobby.Prelude.{ℕ, none, some, true, false, ◌≡◌, refl, [], ◌∷◌, leb, ◌==◌, if◌then◌else◌}
use steam_lobby.Core.Types.{
  PlayerId, PlayerState, MatchStatus, MatchDifficulty, MatchInfo, ConnectionStrategy,
  ResultAuthority,
}
use steam_lobby.Core.Error.{ok}
use steam_lobby.Store.Db.{Db}
use steam_lobby.Store.Rows.{QueueRow}
use steam_lobby.Ranked.Types.{Umvc3Phase}
use steam_lobby.Ranked.Config.{ranked_mode}
use steam_lobby.Pairing.Form.{Request}
use steam_lobby.Pairing.Band.{is_in_band}
use steam_lobby.Pairing.Claim.{claim}
use steam_lobby.Pairing.Next.{pair_next_match_with_accept_timeout}
use steam_lobby.Pairing.Claims.{can_pair, IsPaired, claim_pairs}
use steam_lobby.Pairing.Complete.{pair_next_complete}
use steam_lobby.Tests.{naturals, player, lobby}

abbrev request : Request
request = record {
  mode = ranked_mode;
  spec = record {
    id = ranked_mode;
    connection = ConnectionStrategy.p2p;
    authority = ResultAuthority.native_report;
  };
  pair_cooldown_secs = 60;
  match_accept_timeout_secs = 15;
}

abbrev entry : PlayerId → ℕ → QueueRow ℕ
entry id lease = record {
  user_id = id;
  game_mode = ranked_mode;
  match_difficulty = MatchDifficulty.normal;
  mu = 1000;
  queued_at = id;
  lease_expires_at = some lease;
}

-- players 1 and 2 wait, at time 100, with leases up to the given time
abbrev room : ℕ → Db ℕ
room lease = record (lobby PlayerState.queueing MatchStatus.resolved Umvc3Phase.terminal []) {
  player_state = λ id. if leb id 2 then some (player PlayerState.queueing none) else none;
  queue = entry 2 lease ∷ entry 1 lease ∷ [];
}

claim_pairs_example :
    ((can_pair naturals request 1 2 (room 500) ≡ true)
      → (m : MatchInfo) × ((claim naturals request 1 2 (room 500)).0 ≡ ok (some m))
        × IsPaired naturals request 1 2 (room 500) m (claim naturals request 1 2 (room 500)).1)
    × ((can_pair naturals request 1 2 (room 500) ≡ false)
        → claim naturals request 1 2 (room 500) ≡ (ok none, room 500))
claim_pairs_example = claim_pairs naturals request 1 2 (room 500) refl refl refl

can_pair-room : can_pair naturals request 1 2 (room 500) ≡ true
unfolding is_in_band
can_pair-room = refl

nobody_paired : (pair_next_match_with_accept_timeout naturals request (room 100)).0 ≡ ok none
unfolding pair_next_match_with_accept_timeout
nobody_paired = refl

pair_next_complete_example :
    ((pair_next_match_with_accept_timeout naturals request (room 100)).1 ≡ room 100)
    × ((a b : PlayerId) → (a == b) ≡ false → can_pair naturals request a b (room 100) ≡ false)
pair_next_complete_example = pair_next_complete naturals request (room 100) nobody_paired
