-- ===== src/Ranked/Config.antt =====
-- The settings that the ranked code reads (`RuntimeConfig`, lobby-server/src/state.rs).
use steam_lobby.Prelude.{ℕ, String, Bool, List}
use steam_lobby.Core.Types.{ModeSpec}

-- A timeout is in seconds.
pub record Config : Type 0 where
  pub ranked_queue_enabled : Bool
  pub ranked_queue_lease_secs : ℕ
  pub match_accept_timeout_secs : ℕ
  pub umvc3_trying_timeout_secs : ℕ
  pub umvc3_connect_timeout_secs : ℕ
  pub umvc3_ready_timeout_secs : ℕ
  pub umvc3_play_timeout_secs : ℕ
  pub report_timeout_secs : ℕ
  pub game_modes : List ModeSpec

abbrev pub ranked_mode : String
ranked_mode = "umvc3_1v1"
