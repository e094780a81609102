-- ===== src/Auth/Dead.antt =====
-- A browser session that is over stays over (lobby-server/src/db/sessions.rs).
use steam_lobby.Prelude.{
  ℕ, ◌≤◌, String, Bool, true, false, not, ◌≡◌, arith, Option, none, some, is_some, Bool-cases, inl,
  inr,
}
use steam_lobby.Core.Types.{Uuid, DateTime}
use steam_lobby.Core.Error.{ok}
use steam_lobby.Auth.State.{Auth, Secret, BrowserSession}
use steam_lobby.Auth.Sessions.{
  create_browser_session, create_native_session, touch_browser_session, touch_native_session,
  revoke_browser_session, revoke_native_session, revoke_all_sessions,
  revoke_provider_browser_sessions, create_oauth_login_state, consume_oauth_login_state,
  is_live_browser, live_browser_session,
}
use steam_lobby.Auth.Accounts.{
  find_or_create_user, create_guest_user, login_linked_account, set_admin_flag,
}
use steam_lobby.Auth.Links.{
  create_provider_proof, create_browser_link_intent, create_oauth_handoff, complete_native_handoff,
}
use steam_lobby.Auth.Confirm.{confirm_discord_link, revoke_discord_link}
use steam_lobby.Auth.Steps.{Setup, Step, Steps, done, then_step}

-- the row is there, and is revoked or has expired
abbrev pub is_over_at : DateTime → Option BrowserSession → Bool
is_over_at now none = false
is_over_at now (some r) = not (is_live_browser now r)

abbrev pub is_over : Uuid → Auth → Bool
is_over id s = is_over_at s.now (s.browser_sessions id)

-- the clock and the browser sessions are as they were
abbrev Untouched : Auth → Auth → Type 0
Untouched s t = (t.now ≡ s.now) × (t.browser_sessions ≡ s.browser_sessions)

module _ (c : Setup) (s : Auth) where
  signed_in-Untouched :
      (provider uid name : String) (verified : Bool)
      → Untouched s (find_or_create_user c.parse_i64 c.steam_only provider uid name verified s).1
  unfolding find_or_create_user
  signed_in-Untouched provider uid name verified = ground arith

  link_begun-Untouched :
      (user session : Uuid) (proof : Secret)
      → Untouched s (create_browser_link_intent c.token_hash c.encode user session proof s).1
  unfolding create_browser_link_intent
  link_begun-Untouched user session proof = ground arith

  handoff_completed-Untouched :
      (state : Secret) (uid name : String)
      → Untouched s (complete_native_handoff c.token_hash c.encode state uid name s).1
  unfolding complete_native_handoff
  handoff_completed-Untouched state uid name = ground arith

  link_confirmed-Untouched :
      (id user : Uuid) (kind : String) (session : Uuid)
      → Untouched s (confirm_discord_link id user kind session s).1
  unfolding confirm_discord_link
  link_confirmed-Untouched id user kind session = ground arith

is_over-Untouched :
    (id : Uuid) (s t : Auth) → Untouched s t → is_over id s ≡ true → is_over id t ≡ true
is_over-Untouched id s t (clock, rows) over = rw (clock, rows) over

module _ (id : Uuid) (s : Auth) (over : is_over id s ≡ true) where
  created-is_over :
      (user : Uuid) (provider : String) (csrf ttl : ℕ)
      → is_over id (create_browser_session user provider csrf ttl s).1 ≡ true
  unfolding create_browser_session
  created-is_over user provider csrf ttl =
      elim (Bool-cases (is_some (s.browser_sessions (s.entropy s.drawn)))) [
        | inl taken ↦ rw taken over
        | inr free ↦ rw free (ground arith)
      ]

  touched-is_over : (other user : Uuid) → is_over id (touch_browser_session other user s).1 ≡ true
  unfolding touch_browser_session
  touched-is_over other user = ground arith

  revoked-is_over : (other user : Uuid) → is_over id (revoke_browser_session other user s).1 ≡ true
  unfolding revoke_browser_session
  revoked-is_over other user = ground arith

  all_revoked-is_over : (user : Uuid) → is_over id (revoke_all_sessions user s).1 ≡ true
  unfolding revoke_all_sessions
  all_revoked-is_over user = ground arith

  provider_revoked-is_over :
      (user : Uuid) (provider : String)
      → is_over id (revoke_provider_browser_sessions user provider s).1 ≡ true
  unfolding revoke_provider_browser_sessions
  provider_revoked-is_over user provider = ground arith

  link_revoked-is_over : (user : Uuid) → is_over id (revoke_discord_link user s).1 ≡ true
  unfolding revoke_discord_link
  link_revoked-is_over user = ground arith

  -- the operations that write no browser session
  native_created-is_over : (user : Uuid) → is_over id (create_native_session user s).1 ≡ true
  unfolding create_native_session
  native_created-is_over user = ground arith

  native_touched-is_over :
      (other user : Uuid) → is_over id (touch_native_session other user s).1 ≡ true
  unfolding touch_native_session
  native_touched-is_over other user = over

  native_revoked-is_over :
      (other user : Uuid) → is_over id (revoke_native_session other user s).1 ≡ true
  unfolding revoke_native_session
  native_revoked-is_over other user = over

  passed-is_over : (later : DateTime) → s.now ≤ later → is_over id (record s { now = later }) ≡ true
  passed-is_over later after = ground arith

  admin_set-is_over :
      (user : Uuid) (is_admin : Bool) → is_over id (set_admin_flag user is_admin s).1 ≡ true
  unfolding set_admin_flag
  admin_set-is_over user is_admin = over

  linked_login-is_over :
      (provider uid name : String) → is_over id (login_linked_account provider uid name s).1 ≡ true
  unfolding login_linked_account
  linked_login-is_over provider uid name = ground arith

  module _ (c : Setup) where
    guest_created-is_over :
        (name : String) → is_over id (create_guest_user c.steam_only name s).1 ≡ true
    unfolding create_guest_user
    guest_created-is_over name = ground arith

    login_begun-is_over :
        (state nonce : Secret) (provider return_to : String) (verifier : Option Secret)
        → is_over id
            (create_oauth_login_state c.token_hash state nonce provider return_to verifier s).1
          ≡ true
    unfolding create_oauth_login_state
    login_begun-is_over state nonce provider return_to verifier = ground arith

    login_consumed-is_over :
        (state nonce : Secret) (provider : String)
        → is_over id (consume_oauth_login_state c.token_hash state nonce provider s).1 ≡ true
    unfolding consume_oauth_login_state
    login_consumed-is_over state nonce provider = ground arith

    proof_created-is_over :
        (uid name : String)
        → is_over id (create_provider_proof c.token_hash c.encode uid name s).1 ≡ true
    unfolding create_provider_proof
    proof_created-is_over uid name = ground arith

    handoff_created-is_over :
        (session : Uuid)
        → is_over id (create_oauth_handoff c.token_hash c.encode session s).1 ≡ true
    unfolding create_oauth_handoff
    handoff_created-is_over session = ground arith

Step-is_over :
    (c : Setup) (id : Uuid) (s t : Auth) → Step c s t → is_over id s ≡ true → is_over id t ≡ true
Step-is_over c id s _ (Step.passes later after) over = passed-is_over id s over later after
Step-is_over c id s _ (Step.browser_created user provider csrf ttl) over =
    created-is_over id s over user provider csrf ttl
Step-is_over c id s _ (Step.native_created user) over = native_created-is_over id s over user
Step-is_over c id s _ (Step.browser_touched other user) over = touched-is_over id s over other user
Step-is_over c id s _ (Step.native_touched other user) over =
    native_touched-is_over id s over other user
Step-is_over c id s _ (Step.browser_revoked other user) over = revoked-is_over id s over other user
Step-is_over c id s _ (Step.native_revoked other user) over =
    native_revoked-is_over id s over other user
Step-is_over c id s _ (Step.all_revoked user) over = all_revoked-is_over id s over user
Step-is_over c id s _ (Step.provider_revoked user provider) over =
    provider_revoked-is_over id s over user provider
Step-is_over c id s _ (Step.login_begun state nonce provider return_to verifier) over =
    login_begun-is_over id s over c state nonce provider return_to verifier
Step-is_over c id s _ (Step.login_consumed state nonce provider) over =
    login_consumed-is_over id s over c state nonce provider
Step-is_over c id s t (Step.signed_in provider uid name verified) over =
    is_over-Untouched id s t (signed_in-Untouched c s provider uid name verified) over
Step-is_over c id s _ (Step.guest_created name) over = guest_created-is_over id s over c name
Step-is_over c id s _ (Step.linked_login provider uid name) over =
    linked_login-is_over id s over provider uid name
Step-is_over c id s _ (Step.admin_set user is_admin) over =
    admin_set-is_over id s over user is_admin
Step-is_over c id s _ (Step.proof_created uid name) over =
    proof_created-is_over id s over c uid name
Step-is_over c id s t (Step.link_begun user session proof) over =
    is_over-Untouched id s t (link_begun-Untouched c s user session proof) over
Step-is_over c id s _ (Step.handoff_created session) over =
    handoff_created-is_over id s over c session
Step-is_over c id s t (Step.handoff_completed state uid name) over =
    is_over-Untouched id s t (handoff_completed-Untouched c s state uid name) over
Step-is_over c id s t (Step.link_confirmed intent user kind session) over =
    is_over-Untouched id s t (link_confirmed-Untouched c s intent user kind session) over
Step-is_over c id s _ (Step.link_revoked user) over = link_revoked-is_over id s over user

Steps-is_over :
    (c : Setup) (id : Uuid) (s t : Auth) → Steps c s t → is_over id s ≡ true → is_over id t ≡ true
Steps-is_over c id s _ done over = over
Steps-is_over c id s u (then_step {t = t} steps step) over =
    Step-is_over c id t u step (Steps-is_over c id s t steps over)

-- A browser session that is revoked or has expired is never live again, for whatever user it is
-- asked and whatever calls come in between.
pub live_browser_session_over :
    (c : Setup) (id user : Uuid) (s t : Auth)
    → is_over id s ≡ true
    → Steps c s t
    → live_browser_session id user t ≡ (ok none, t)
unfolding live_browser_session
live_browser_session_over c id user s t over steps =
    ground (arith, Steps-is_over c id s t steps over)

-- To log out everywhere ends every browser session of the player.
pub revoke_all_sessions-is_over :
    (user id : Uuid) (s : Auth) (r : BrowserSession)
    → s.browser_sessions id ≡ some r
    → r.user_id ≡ user
    → is_over id (revoke_all_sessions user s).1 ≡ true
unfolding revoke_all_sessions
revoke_all_sessions-is_over user id s r at mine = ground arith
