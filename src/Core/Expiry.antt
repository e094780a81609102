-- ===== src/Core/Expiry.antt =====
-- lobby-core/src/match_expiry.rs: matches whose gameserver never reported.
pub mod Overdue
use steam_lobby.Prelude.{
  ℕ, ◌-◌, ◌/◌, Option, none, some, Bool, false, ltb, if◌then◌else◌, List, [], ◌∷◌,
}
use steam_lobby.Core.Types.{Token, DateTime, MatchStatus, MatchInfo, PlayerState}
use steam_lobby.Core.Action.{Action, pure, gets, ◌>>=◌, ◌>>◌}
use steam_lobby.Store.Db.{Db}
use steam_lobby.Store.Players.{set_player_state}
use steam_lobby.Store.Matches.{get_matches_by_status, update_match_status}

-- `(now - then).num_seconds().max(0)`
abbrev pub seconds_since : DateTime → DateTime → ℕ
seconds_since now before = (now - before) / 1_000_000

abbrev pub is_overdue : DateTime → ℕ → Option DateTime → Bool
is_overdue now timeout none = false
is_overdue now timeout (some started) = ltb timeout (seconds_since now started)

module _ {R : Type 0} where
  -- the loop over the Playing matches, which returns the expired tokens
  expire_each : DateTime → ℕ → List MatchInfo → Action (Db R) (List Token)
  unfolding update_match_status set_player_state
  expire_each now timeout [] = pure []
  expire_each now timeout (m ∷ ms) =
      let rest = expire_each now timeout ms in
      if is_overdue now timeout m.started_at
      then (do
        update_match_status m.match_token MatchStatus.disputed
        set_player_state m.player_a PlayerState.in_menus
        set_player_state m.player_b PlayerState.in_menus
        expired ← rest
        pure (m.match_token ∷ expired))
      else rest

  unfoldable pub expire_playing_matches : ℕ → Action (Db R) (List Token)
  unfolding get_matches_by_status expire_each
  expire_playing_matches timeout = do
    matches ← get_matches_by_status MatchStatus.playing
    now ← gets (λ s. s.now)
    expire_each now timeout matches
