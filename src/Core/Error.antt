-- ===== src/Core/Error.antt =====
-- lobby-core/src/error.rs: the errors, and `Result`.
--
-- The text of `MatchStateMismatch` is a match token or, in lobby-server/src/commands.rs, a machine
-- code. A token is a UUID, which is no machine code, so `Detail` keeps the two apart.
use steam_lobby.Prelude.{String, ◌≡◌, ◌⊎◌, refl, inl, inr}
use steam_lobby.Core.Types.{PlayerId, PlayerState, Token}

-- The machine codes of lobby-server/src/commands.rs.
pub data Code : Type 0 where
  not_participant match_state_mismatch stale_attempt deadline_elapsed : Code
  command_id_conflict ranked_queue_disabled unsupported_ranked_mode already_queued : Code
  duplicate_report player_not_found unauthorized database_error : Code

pub data Detail : Type 0 where
  match_of : Token → Detail
  code_of : Code → Detail

pub data LobbyError : Type 0 where
  player_not_found : PlayerId → LobbyError
  invalid_state_transition : PlayerState → PlayerState → LobbyError
  match_not_found : Token → LobbyError
  match_state_mismatch : Detail → LobbyError
  not_participant : Token → LobbyError
  steam_auth_failed : String → LobbyError
  database : String → LobbyError
  invalid_report : Token → LobbyError

pub data Result {ℓ} (A : Type ℓ) : Type ℓ where
  ok : A → Result A
  err : LobbyError → Result A

-- To split on a computed result and keep the equation.
pub Result-cases :
    {A : Type 0} (r : Result A) → ((a : A) × (r ≡ ok a)) ⊎ ((e : LobbyError) × (r ≡ err e))
Result-cases (ok a) = inl (a, refl)
Result-cases (err e) = inr (e, refl)
