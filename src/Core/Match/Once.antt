-- ===== src/Core/Match/Once.antt =====
-- An unranked match is rated once (`MatchManager::resolve_agreed`, lobby-core/src/match_lifecycle.rs).
use steam_lobby.Prelude.{String, Option, ◌≡◌, refl, arith, Option-cases, inl, inr}
use steam_lobby.Core.Types.{PlayerId, MatchInfo, MatchOutcome}
use steam_lobby.Core.Error.{LobbyError, ok, err}
use steam_lobby.Core.Callbacks.{GameCallbacks}
use steam_lobby.Core.Match.{resolve_agreed}
use steam_lobby.Core.Match.Resolution.{
  resolve_agreed-stored, resolve_agreed-ok, agreed, resolved, with_ratings,
}
use steam_lobby.Store.Db.{Db}
use steam_lobby.Store.Numbers.{Numbers}

module _ {R : Type 0} (N : Numbers R) (cb : GameCallbacks R) (m : MatchInfo) (s : Db R) where
  agreed-rated :
      (winner : Option PlayerId) (id : PlayerId) (mode : String)
      → (with_ratings N m (agreed N m s cb winner)).ratings id mode
        ≡ (agreed N m s cb winner).ratings id mode
  agreed-rated winner id mode = ground arith

  -- Once a match has been resolved with success, resolving it again, whoever is to have won, is a
  -- database error that changes no match, no result, no player's state and no rating.
  pub resolve_agreed_once :
      (winner later : Option PlayerId) {outcome : MatchOutcome R}
      → (resolve_agreed N cb m winner s).0 ≡ ok outcome
      → let first = (resolve_agreed N cb m winner s).1 in
        let second = resolve_agreed N cb m later first in
        (second.0 ≡ err (LobbyError.database "match_results_pkey"))
        × (second.1.matches ≡ first.matches)
        × (second.1.results ≡ first.results)
        × (second.1.player_state ≡ first.player_state)
        × ((id : PlayerId) (mode : String) → second.1.ratings id mode ≡ first.ratings id mode)
  resolve_agreed_once winner later fine = elim (Option-cases (after.results m.match_token)) [
    | inl absent ↦ ground (arith, absent)
    | inr (row, has_row) ↦
        rw
          (resolve_agreed-ok N m s cb winner fine, resolve_agreed-stored N m after cb later has_row)
          (refl, refl, refl, refl, agreed-rated winner)
  ]
    where
      after : Db R
      after = resolved N m s cb winner
