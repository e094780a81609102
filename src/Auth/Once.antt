-- ===== src/Auth/Once.antt =====
-- What can be used once only (lobby-server/src/db/sessions.rs): a login state, a handoff, a link intent.
use steam_lobby.Prelude.{
  String, Bool, true, false, str_eq, ◌≡◌, arith, none, some, is_some, is_none, ◌<◌,
}
use steam_lobby.Core.Types.{Uuid}
use steam_lobby.Core.Error.{Result, ok}
use steam_lobby.Auth.State.{Auth, Hash, Secret, LoginState}
use steam_lobby.Auth.Sessions.{consume_oauth_login_state}
use steam_lobby.Auth.Links.{complete_native_handoff, open_handoff}
use steam_lobby.Auth.Confirm.{Confirmation, linked, confirm_discord_link}

module _ (token_hash : Secret → Hash) (state : Secret) where
  -- A login state that was consumed was one of the given provider and the given browser, neither
  -- consumed nor expired, and is not consumed again, whoever asks.
  pub consume_oauth_login_state_once :
      (nonce nonce' : Secret) (provider provider' : String) (s : Auth) (r : LoginState)
      → (consume_oauth_login_state token_hash state nonce provider s).0 ≡ ok (some r)
      → let after = (consume_oauth_login_state token_hash state nonce provider s).1 in
        (s.login_states (token_hash state) ≡ some r)
        × (is_none r.consumed_at ≡ true)
        × (s.now < r.expires_at)
        × (str_eq r.provider provider ≡ true)
        × (r.browser_nonce_hash ≡ token_hash nonce)
        × (consume_oauth_login_state token_hash state nonce' provider' after ≡ (ok none, after))
  unfolding consume_oauth_login_state
  consume_oauth_login_state_once nonce nonce' provider provider' s r got = ground arith

abbrev pub was_linked : Result Confirmation → Bool
was_linked (ok linked) = true
was_linked _ = false

-- A link that was confirmed is not confirmed again, whoever asks with whatever session, and the
-- second call changes nothing.
pub confirm_discord_link_once :
    (id user user' : Uuid) (kind kind' : String) (session session' : Uuid) (s : Auth)
    → was_linked (confirm_discord_link id user kind session s).0 ≡ true
    → let after = (confirm_discord_link id user kind session s).1 in
      (was_linked (confirm_discord_link id user' kind' session' after).0 ≡ false)
      × ((confirm_discord_link id user' kind' session' after).1 ≡ after)
unfolding confirm_discord_link
confirm_discord_link_once id user user' kind kind' session session' s done = ground arith

module _ (token_hash : Secret → Hash) (encode : Uuid → Uuid → Secret) (state : Secret) where
  -- A handoff that a native client's session has completed was open, with the session live, and is
  -- not completed again.
  pub complete_native_handoff_once :
      (uid uid' name name' : String) (s : Auth) (id : Uuid)
      → (complete_native_handoff token_hash encode state uid name s).0 ≡ ok (some id)
      → let after = (complete_native_handoff token_hash encode state uid name s).1 in
        (is_some (open_handoff token_hash encode (token_hash state) s) ≡ true)
        × (complete_native_handoff token_hash encode state uid' name' after ≡ (ok none, after))
  unfolding complete_native_handoff
  complete_native_handoff_once uid uid' name name' s id done = ground arith
