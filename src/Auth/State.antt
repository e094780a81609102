-- ===== src/Auth/State.antt =====
-- The tables of lobby-server/migrations that signing in reads and writes. A token, a hash and a
-- provider's nonce are numbers, which the code only stores and compares; a text is a String where the
-- code compares it with a literal.
use steam_lobby.Prelude.{
  ℕ, ◌+◌, ◌*◌, String, Bool, Option, none, some, List, Table, ltb, is_none, ◌&&◌,
}
use steam_lobby.Core.Types.{Uuid, DateTime}
use steam_lobby.Core.Error.{LobbyError, ok}
use steam_lobby.Core.Action.{Action, modifies_unless}

abbrev pub Hash : Type 0
Hash = ℕ

abbrev pub Secret : Type 0
Secret = ℕ

pub record UserAccount : Type 0 where
  pub id : Uuid
  pub display_name : String
  pub token_version : ℕ
  pub steam_id : Option ℕ
  pub primary_provider : String
  pub is_admin : Bool
  pub last_login_at : DateTime

-- a row of `accounts`; its keys are (provider, provider_uid) and (user_id, provider)
pub record Identity : Type 0 where
  pub provider : String
  pub provider_uid : String
  pub user_id : Uuid
  pub last_login_at : DateTime
  pub linked_at : DateTime

pub record BrowserSession : Type 0 where
  pub user_id : Uuid
  pub auth_provider : String
  pub csrf_hash : Hash
  pub expires_at : DateTime
  pub last_seen_at : DateTime
  pub revoked_at : Option DateTime

pub record NativeSession : Type 0 where
  pub user_id : Uuid
  pub expires_at : DateTime
  pub last_seen_at : DateTime
  pub revoked_at : Option DateTime

pub record LoginState : Type 0 where
  pub browser_nonce_hash : Hash
  pub provider : String
  pub return_to : String
  pub code_verifier : Option Secret
  pub expires_at : DateTime
  pub consumed_at : Option DateTime

-- provider is always 'discord'
pub record ProviderSession : Type 0 where
  pub provider_uid : String
  pub display_name : String
  pub expires_at : DateTime
  pub consumed_at : Option DateTime

pub data LinkStatus : Type 0 where
  pending committed expired : LinkStatus

pub record LinkIntent : Type 0 where
  pub user_id : Uuid
  pub kind : String
  pub provider_session_hash : Hash
  pub browser_session_id : Option Uuid
  pub native_session_id : Option Uuid
  pub status : LinkStatus
  pub expires_at : DateTime

pub record Handoff : Type 0 where
  pub native_session_id : Uuid
  pub expires_at : DateTime
  pub consumed_at : Option DateTime

pub record Auth : Type 0 where
  pub now : DateTime
  pub entropy : ℕ → Uuid
  pub drawn : ℕ
  pub users : List UserAccount
  pub accounts : List Identity
  pub browser_sessions : Table BrowserSession
  pub native_sessions : Table NativeSession
  pub login_states : Table LoginState
  pub provider_sessions : Table ProviderSession
  pub link_intents : Table LinkIntent
  pub handoffs : Table Handoff

-- `gen_random_uuid()` and `Uuid::new_v4()`
abbrev pub new_id : Action Auth Uuid
new_id s = (ok (s.entropy s.drawn), record s { drawn = s.drawn + 1 })

abbrev pub minutes : ℕ → ℕ
minutes n = n * 60_000_000

-- INSERT under a primary key
abbrev pub insert_if_new : Bool → (Auth → Auth) → Action Auth (Unit {0})
insert_if_new taken f = modifies_unless taken (LobbyError.database "duplicate key") f

-- revoked_at IS NULL AND expires_at > NOW()
abbrev pub is_live : DateTime → Option DateTime → DateTime → Bool
is_live expires_at revoked_at now = is_none revoked_at && ltb now expires_at

-- COALESCE(revoked_at, NOW())
abbrev pub revoked_since : Option DateTime → DateTime → Option DateTime
revoked_since none now = some now
revoked_since (some at) now = some at
