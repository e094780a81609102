-- ===== src/Auth/Steps.antt =====
-- Everything that signing in can do to the database, one step at a time.
use steam_lobby.Prelude.{ℕ, ◌≤◌, String, Bool, Option}
use steam_lobby.Core.Types.{Uuid, DateTime}
use steam_lobby.Auth.State.{Auth, Hash, Secret}
use steam_lobby.Auth.Sessions.{
  create_browser_session, create_native_session, touch_browser_session, touch_native_session,
  revoke_browser_session, revoke_native_session, revoke_all_sessions,
  revoke_provider_browser_sessions, create_oauth_login_state, consume_oauth_login_state,
}
use steam_lobby.Auth.Accounts.{
  find_or_create_user, create_guest_user, login_linked_account, set_admin_flag,
}
use steam_lobby.Auth.Links.{
  create_provider_proof, create_browser_link_intent, create_oauth_handoff, complete_native_handoff,
}
use steam_lobby.Auth.Confirm.{confirm_discord_link, revoke_discord_link}

-- what the code calls of its crates, and the setting
pub record Setup : Type 0 where
  pub token_hash : Secret → Hash
  pub encode : Uuid → Uuid → Secret
  pub parse_i64 : String → Option ℕ
  pub steam_only : Bool

-- One call of an operation, whatever it answers, or time that passes.
pub data Step (c : Setup) : Auth → Auth → Type 0 where
  passes : {s : Auth} (later : DateTime) → s.now ≤ later → Step c s (record s { now = later })
  browser_created :
      {s : Auth} (user : Uuid) (provider : String) (csrf : Hash) (ttl : ℕ)
      → Step c s (create_browser_session user provider csrf ttl s).1
  native_created : {s : Auth} (user : Uuid) → Step c s (create_native_session user s).1
  browser_touched : {s : Auth} (id user : Uuid) → Step c s (touch_browser_session id user s).1
  native_touched : {s : Auth} (id user : Uuid) → Step c s (touch_native_session id user s).1
  browser_revoked : {s : Auth} (id user : Uuid) → Step c s (revoke_browser_session id user s).1
  native_revoked : {s : Auth} (id user : Uuid) → Step c s (revoke_native_session id user s).1
  all_revoked : {s : Auth} (user : Uuid) → Step c s (revoke_all_sessions user s).1
  provider_revoked :
      {s : Auth} (user : Uuid) (provider : String)
      → Step c s (revoke_provider_browser_sessions user provider s).1
  login_begun :
      {s : Auth} (state nonce : Secret) (provider return_to : String) (verifier : Option Secret)
      → Step c s (create_oauth_login_state c.token_hash state nonce provider return_to verifier s).1
  login_consumed :
      {s : Auth} (state nonce : Secret) (provider : String)
      → Step c s (consume_oauth_login_state c.token_hash state nonce provider s).1
  signed_in :
      {s : Auth} (provider uid name : String) (verified : Bool)
      → Step c s (find_or_create_user c.parse_i64 c.steam_only provider uid name verified s).1
  guest_created : {s : Auth} (name : String) → Step c s (create_guest_user c.steam_only name s).1
  linked_login :
      {s : Auth} (provider uid name : String)
      → Step c s (login_linked_account provider uid name s).1
  admin_set :
      {s : Auth} (user : Uuid) (is_admin : Bool) → Step c s (set_admin_flag user is_admin s).1
  proof_created :
      {s : Auth} (uid name : String)
      → Step c s (create_provider_proof c.token_hash c.encode uid name s).1
  link_begun :
      {s : Auth} (user session : Uuid) (proof : Secret)
      → Step c s (create_browser_link_intent c.token_hash c.encode user session proof s).1
  handoff_created :
      {s : Auth} (session : Uuid)
      → Step c s (create_oauth_handoff c.token_hash c.encode session s).1
  handoff_completed :
      {s : Auth} (state : Secret) (uid name : String)
      → Step c s (complete_native_handoff c.token_hash c.encode state uid name s).1
  link_confirmed :
      {s : Auth} (id user : Uuid) (kind : String) (session : Uuid)
      → Step c s (confirm_discord_link id user kind session s).1
  link_revoked : {s : Auth} (user : Uuid) → Step c s (revoke_discord_link user s).1

-- any number of steps
pub data Steps (c : Setup) : Auth → Auth → Type 0 where
  done : {s : Auth} → Steps c s s
  then_step : {s t u : Auth} → Steps c s t → Step c t u → Steps c s u
