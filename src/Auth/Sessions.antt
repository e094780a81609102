-- ===== src/Auth/Sessions.antt =====
-- Browser and native sessions, and the state of a login (lobby-server/src/db/sessions.rs).
use mathlib.Core.Option
use steam_lobby.Prelude.{
  ℕ, ◌+◌, String, Bool, true, false, ◌&&◌, ◌==◌, str_eq, Option, none, some, is_some, if◌then◌else◌,
  List, Table, put, modify, update,
}
use steam_lobby.Core.Types.{Uuid, DateTime}
use steam_lobby.Core.Action.{Action, pure, gets, modifies, ◌>>=◌, ◌>>◌}
use steam_lobby.Store.Queue.{seconds}
use steam_lobby.Auth.State.{
  Hash, Secret, Auth, UserAccount, BrowserSession, NativeSession, LoginState, new_id, minutes,
  insert_if_new, is_live, revoked_since,
}

abbrev pub revoke_browser : DateTime → BrowserSession → BrowserSession
revoke_browser now r = record r { revoked_at = revoked_since r.revoked_at now }

abbrev pub revoke_native : DateTime → NativeSession → NativeSession
revoke_native now r = record r { revoked_at = revoked_since r.revoked_at now }

abbrev pub is_live_browser : DateTime → BrowserSession → Bool
is_live_browser now r = is_live r.expires_at r.revoked_at now

abbrev pub is_live_native : DateTime → NativeSession → Bool
is_live_native now r = is_live r.expires_at r.revoked_at now

-- UPDATE … SET f WHERE p, on every row
abbrev pub update_where : {V : Type 0} → (V → Bool) → (V → V) → Table V → Table V
update_where p f t k = Option.map (λ r. if p r then f r else r) (t k)

-- UPDATE … SET f WHERE key = k AND p
abbrev pub update_row : {V : Type 0} → Uuid → (V → Bool) → (V → V) → Table V → Table V
update_row k p f = modify k λ r. if p r then f r else r

-- SELECT … WHERE key = k AND p
abbrev pub row_where : {V : Type 0} → (V → Bool) → Option V → Option V
row_where p none = none
row_where p (some r) = if p r then some r else none

unfoldable pub create_browser_session : Uuid → String → Hash → ℕ → Action Auth Uuid
create_browser_session user provider csrf_hash ttl_secs = do
  id ← new_id
  taken ← gets (λ s. is_some (s.browser_sessions id))
  insert_if_new taken (λ s. record s {
    browser_sessions =
        put id
          (record {
            user_id = user;
            auth_provider = provider;
            csrf_hash = csrf_hash;
            expires_at = s.now + seconds ttl_secs;
            last_seen_at = s.now;
            revoked_at = none;
          })
          s.browser_sessions;
  })
  pure id

unfoldable pub create_native_session : Uuid → Action Auth Uuid
create_native_session user = do
  id ← new_id
  taken ← gets (λ s. is_some (s.native_sessions id))
  insert_if_new taken (λ s. record s {
    native_sessions =
        put id
          (record {
            user_id = user;
            expires_at = s.now + minutes 60;
            last_seen_at = s.now;
            revoked_at = none;
          })
          s.native_sessions;
  })
  pure id

abbrev pub browser_of : Uuid → DateTime → BrowserSession → Bool
browser_of user now r = r.user_id == user && is_live_browser now r

abbrev pub native_of : Uuid → DateTime → NativeSession → Bool
native_of user now r = r.user_id == user && is_live_native now r

unfoldable pub live_browser_session : Uuid → Uuid → Action Auth (Option BrowserSession)
live_browser_session id user = gets λ s. row_where (browser_of user s.now) (s.browser_sessions id)

unfoldable pub live_native_session : Uuid → Uuid → Action Auth (Option NativeSession)
live_native_session id user = gets λ s. row_where (native_of user s.now) (s.native_sessions id)

unfoldable pub live_native_session_by_id : Uuid → Action Auth (Option NativeSession)
live_native_session_by_id id = gets λ s. row_where (is_live_native s.now) (s.native_sessions id)

-- rows_affected() == 1
unfoldable pub touch_browser_session : Uuid → Uuid → Action Auth Bool
touch_browser_session id user = do
  touched ← gets (λ s. is_some (row_where (browser_of user s.now) (s.browser_sessions id)))
  modifies (λ s. record s {
    browser_sessions =
        update_row id (browser_of user s.now) (λ r. record r { last_seen_at = s.now })
          s.browser_sessions;
  })
  pure touched

unfoldable pub touch_native_session : Uuid → Uuid → Action Auth Bool
touch_native_session id user = do
  touched ← gets (λ s. is_some (row_where (native_of user s.now) (s.native_sessions id)))
  modifies (λ s. record s {
    native_sessions =
        update_row id (native_of user s.now) (λ r. record r { last_seen_at = s.now })
          s.native_sessions;
  })
  pure touched

unfoldable pub revoke_browser_session : Uuid → Uuid → Action Auth (Unit {0})
revoke_browser_session id user = modifies λ s. record s {
  browser_sessions =
      update_row id (λ r. r.user_id == user) (revoke_browser s.now) s.browser_sessions;
}

unfoldable pub revoke_native_session : Uuid → Uuid → Action Auth (Unit {0})
revoke_native_session id user = modifies λ s. record s {
  native_sessions = update_row id (λ r. r.user_id == user) (revoke_native s.now) s.native_sessions;
}

abbrev bump_version : Uuid → List UserAccount → List UserAccount
bump_version user = update (λ u. u.id == user) λ u. record u { token_version = u.token_version + 1 }

unfoldable pub revoke_all_sessions : Uuid → Action Auth (Unit {0})
revoke_all_sessions user = modifies λ s. record s {
  browser_sessions =
      update_where (λ r. r.user_id == user) (revoke_browser s.now) s.browser_sessions;
  native_sessions = update_where (λ r. r.user_id == user) (revoke_native s.now) s.native_sessions;
  users = bump_version user s.users;
}

abbrev pub is_provider_session : Uuid → String → BrowserSession → Bool
is_provider_session user provider r = r.user_id == user && str_eq r.auth_provider provider

unfoldable pub revoke_provider_browser_sessions : Uuid → String → Action Auth (Unit {0})
revoke_provider_browser_sessions user provider = modifies λ s. record s {
  browser_sessions =
      update_where (is_provider_session user provider) (revoke_browser s.now) s.browser_sessions;
}

-- `token_hash` is SHA-256
module _ (token_hash : Secret → Hash) where
  unfoldable pub create_oauth_login_state :
      Secret → Secret → String → String → Option Secret → Action Auth (Unit {0})
  create_oauth_login_state state browser_nonce provider return_to verifier = do
    taken ← gets (λ s. is_some (s.login_states (token_hash state)))
    insert_if_new taken (λ s. record s {
      login_states =
          put (token_hash state)
            (record {
              browser_nonce_hash = token_hash browser_nonce;
              provider = provider;
              return_to = return_to;
              code_verifier = verifier;
              expires_at = s.now + minutes 10;
              consumed_at = none;
            })
            s.login_states;
    })

  -- consumed_at IS NULL AND expires_at > NOW()
  abbrev pub is_open_state : DateTime → LoginState → Bool
  is_open_state now r = is_live r.expires_at r.consumed_at now

  abbrev fits_login : String → Secret → LoginState → Bool
  fits_login provider browser_nonce r =
      str_eq r.provider provider && r.browser_nonce_hash == token_hash browser_nonce

  abbrev consume_row : Hash → Option LoginState → Bool → Action Auth (Option LoginState)
  consume_row h none fits = pure none
  consume_row h (some r) false = pure none
  consume_row h (some r) true = do
    modifies (λ s. record s {
      login_states = modify h (λ x. record x { consumed_at = some s.now }) s.login_states;
    })
    pure (some r)

  unfoldable pub consume_oauth_login_state :
      Secret → Secret → String → Action Auth (Option LoginState)
  consume_oauth_login_state state browser_nonce provider s =
      let row = row_where (is_open_state s.now) (s.login_states (token_hash state)) in
      consume_row (token_hash state) row
        (Option.get_or (Option.map (fits_login provider browser_nonce) row) false) s
