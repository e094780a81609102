-- ===== src/Core/Callbacks.antt =====
-- lobby-core/src/traits.rs, `GameCallbacks`: the hooks of a game, which may refuse an action.
-- They are given no store, so a hook is a function into `Result`.
use steam_lobby.Prelude.{String}
use steam_lobby.Core.Types.{PlayerId, MatchDifficulty, MatchInfo, MatchOutcome}
use steam_lobby.Core.Error.{Result, ok}

pub record GameCallbacks (R : Type 0) : Type 0 where
  pub on_player_in_menu : PlayerId → Result (Unit {0})
  pub on_player_queueing : PlayerId → String → MatchDifficulty → Result (Unit {0})
  pub on_player_cancel_queue : PlayerId → Result (Unit {0})
  pub on_match_accepted : MatchInfo → Result (Unit {0})
  pub on_players_connected : MatchInfo → Result (Unit {0})
  pub on_match_ended : MatchInfo → MatchOutcome R → Result (Unit {0})
  pub on_player_disconnected : PlayerId → Result (Unit {0})
  pub on_heartbeat : PlayerId → Result (Unit {0})

-- The methods' default bodies, which the server's `DefaultCallbacks` keeps.
abbrev pub default_callbacks : {R : Type 0} → GameCallbacks R
default_callbacks = record {
  on_player_in_menu = λ _. ok tt;
  on_player_queueing = λ _ _ _. ok tt;
  on_player_cancel_queue = λ _. ok tt;
  on_match_accepted = λ _. ok tt;
  on_players_connected = λ _. ok tt;
  on_match_ended = λ _ _. ok tt;
  on_player_disconnected = λ _. ok tt;
  on_heartbeat = λ _. ok tt;
}
