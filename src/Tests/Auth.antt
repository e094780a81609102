-- ===== src/Tests/Auth.antt =====
-- The theorems on signing in at concrete inputs: a player with a Steam account, a browser session, and
-- a Discord account to link.
use steam_lobby.Prelude.{
  ℕ, ◌+◌, ◌*◌, String, true, ◌==◌, str_eq, Option, none, some, ◌≡◌, refl, [], ◌∷◌, ◌<◌, any,
  is_none, if◌then◌else◌,
}
use steam_lobby.Core.Error.{ok}
use steam_lobby.Auth.State.{
  Auth, BrowserSession, LoginState, LinkStatus, LinkIntent, ProviderSession,
}
use steam_lobby.Auth.Sessions.{
  consume_oauth_login_state, live_browser_session, revoke_all_sessions, touch_browser_session,
}
use steam_lobby.Auth.Accounts.{owner_in, is_account_of, new_identity, new_user, find_or_create_user}
use steam_lobby.Auth.Links.{complete_native_handoff}
use steam_lobby.Auth.Confirm.{confirm_discord_link, is_pending}
use steam_lobby.Auth.Linking.{Owns, confirm_discord_link-Owns}
use steam_lobby.Auth.Once.{was_linked, consume_oauth_login_state_once}
use steam_lobby.Auth.Steps.{Setup, Step, Steps, done, then_step}
use steam_lobby.Auth.Dead.{live_browser_session_over}
use steam_lobby.Auth.Token.{SessionClaims, browser, revalidate_session, revalidate_session_over}
use steam_lobby.Auth.Ownership.{Steps-owner}

abbrev crates : Setup
crates = record {
  token_hash = λ n. n + 1;
  encode = λ a b. a * 10_000 + b;
  parse_i64 = λ _. some 7656;
  steam_only = true;
}

abbrev session : Option ℕ → BrowserSession
session revoked_at = record {
  user_id = 1;
  auth_provider = "steam";
  csrf_hash = 9;
  expires_at = 1_000;
  last_seen_at = 0;
  revoked_at = revoked_at;
}

-- player 1 with the Steam subject "7656", browser session 5, login state 3, handoff 6 and link intent 8
abbrev site : Option ℕ → Auth
site revoked_at = record {
  now = 100;
  entropy = λ n. 2_000 + n;
  drawn = 0;
  users = new_user 1 "ada" (some 7656) "steam" 0 ∷ [];
  accounts = new_identity "steam" "7656" 1 0 ∷ [];
  browser_sessions = λ id. if id == 5 then some (session revoked_at) else none;
  native_sessions = λ id.
      if id == 6
      then some (record { user_id = 1; expires_at = 1_000; last_seen_at = 0; revoked_at = none })
      else none;
  login_states = λ h.
      if h == 4
      then some (record {
        browser_nonce_hash = 12;
        provider = "steam";
        return_to = "/";
        code_verifier = none;
        expires_at = 1_000;
        consumed_at = none;
      })
      else none;
  provider_sessions = λ h.
      if h == 77
      then some (record {
        provider_uid = "d1";
        display_name = "ada";
        expires_at = 1_000;
        consumed_at = none;
      })
      else none;
  link_intents = λ id.
      if id == 8
      then some (record {
        user_id = 1;
        kind = "browser";
        provider_session_hash = 77;
        browser_session_id = some 5;
        native_session_id = none;
        status = LinkStatus.pending;
        expires_at = 1_000;
      })
      else none;
  handoffs = λ h.
      if h == 21
      then some (record { native_session_id = 6; expires_at = 1_000; consumed_at = none })
      else none;
}

abbrev login : LoginState
login = record {
  browser_nonce_hash = 12;
  provider = "steam";
  return_to = "/";
  code_verifier = none;
  expires_at = 1_000;
  consumed_at = none;
}

login_consumed :
    (consume_oauth_login_state crates.token_hash 3 11 "steam" (site none)).0 ≡ ok (some login)
unfolding consume_oauth_login_state
login_consumed = refl

consume_oauth_login_state_once_example :
    let after = (consume_oauth_login_state crates.token_hash 3 11 "steam" (site none)).1 in
    ((site none).login_states 4 ≡ some login)
    × (is_none login.consumed_at ≡ true)
    × (100 < login.expires_at)
    × (str_eq login.provider "steam" ≡ true)
    × (login.browser_nonce_hash ≡ 12)
    × (consume_oauth_login_state crates.token_hash 3 11 "steam" after ≡ (ok none, after))
consume_oauth_login_state_once_example =
    consume_oauth_login_state_once crates.token_hash 3 11 11 "steam" "steam" (site none) login
      login_consumed

link_confirmed : was_linked (confirm_discord_link 8 1 "browser" 5 (site none)).0 ≡ true
unfolding confirm_discord_link
link_confirmed = refl

confirm_discord_link-Owns_example :
    let after = (confirm_discord_link 8 1 "browser" 5 (site none)).1 in
    (li : LinkIntent) × (ps : ProviderSession) × ((site none).link_intents 8 ≡ some li)
    × ((site none).provider_sessions li.provider_session_hash ≡ some ps)
    × (li.user_id ≡ 1)
    × (is_pending li.status ≡ true)
    × (is_none ps.consumed_at ≡ true)
    × ((site none).now < li.expires_at)
    × ((site none).now < ps.expires_at)
    × (any (is_account_of 1 "steam") (site none).accounts ≡ true)
    × Owns ps.provider_uid 1 (site none).accounts after.accounts
confirm_discord_link-Owns_example =
    confirm_discord_link-Owns 8 1 "browser" 5 (site none) link_confirmed

handoff_completed :
    (complete_native_handoff crates.token_hash crates.encode 20 "d1" "ada" (site none)).0
    ≡ ok (some 2_002)
unfolding complete_native_handoff
handoff_completed = refl

-- the player signs in again and confirms the link
abbrev signed_in : Auth
signed_in = (find_or_create_user crates.parse_i64 true "steam" "7656" "ada" true (site (some 90))).1

abbrev visit : Steps crates (site (some 90)) (confirm_discord_link 8 1 "browser" 5 signed_in).1
visit =
    then_step (then_step done (Step.signed_in "steam" "7656" "ada" true))
      (Step.link_confirmed 8 1 "browser" 5)

live_browser_session_over_example :
    live_browser_session 5 1 (confirm_discord_link 8 1 "browser" 5 signed_in).1
    ≡ (ok none, (confirm_discord_link 8 1 "browser" 5 signed_in).1)
live_browser_session_over_example =
    live_browser_session_over crates 5 1 (site (some 90))
      (confirm_discord_link 8 1 "browser" 5 signed_in).1 refl visit

-- the claims of the token of session 5, and how the text of the player's id is read
abbrev claims : SessionClaims
claims = record { sid = 5; sub = "u1"; provider = some "steam"; csrf = some 8; token_version = 0 }

abbrev parse_uuid : String → Option ℕ
parse_uuid text = if str_eq text "u1" then some 1 else none

abbrev logged_out : Auth
logged_out = (touch_browser_session 5 1 (revoke_all_sessions 1 (site none)).1).1

revalidate_session_over_example :
    revalidate_session crates.token_hash parse_uuid (browser claims) logged_out ≡ none
unfolding revalidate_session
revalidate_session_over_example =
    revalidate_session_over crates.token_hash parse_uuid crates claims 1 (site none) logged_out refl
      (then_step done (Step.browser_touched 5 1))

Steps-owner_example :
    owner_in "steam" "7656" (confirm_discord_link 8 1 "browser" 5 signed_in).1.accounts ≡ some 1
Steps-owner_example =
    Steps-owner crates "steam" "7656" 1 (site (some 90))
      (confirm_discord_link 8 1 "browser" 5 signed_in).1 refl refl visit
