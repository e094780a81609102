-- ===== src/Auth/Token.antt =====
-- A session token against the database (`revalidate_session`, lobby-server/src/routes.rs).
--
-- The token's signature and times are checked before, by the crate jsonwebtoken; what it claims is the
-- argument here. The text of a UUID is parsed by a parameter.
use mathlib.Core.Option
use steam_lobby.Prelude.{
  ℕ, String, Bool, false, ◌&&◌, ◌==◌, str_eq, ◌≡◌, refl, arith, Option, none, some, is_some,
  if◌then◌else◌, List, find, Option-cases, inl, inr,
}
use steam_lobby.Core.Types.{Uuid}
use steam_lobby.Core.Error.{Result, ok, err}
use steam_lobby.Auth.State.{Auth, Hash, Secret, UserAccount, BrowserSession}
use steam_lobby.Auth.Sessions.{live_browser_session, live_native_session, revoke_all_sessions}
use steam_lobby.Auth.Steps.{Setup, Steps}
use steam_lobby.Auth.Dead.{live_browser_session_over, revoke_all_sessions-is_over}

-- the claims that are read after the token itself has been checked
pub record SessionClaims : Type 0 where
  pub sid : Uuid
  pub sub : String
  pub provider : Option String
  pub csrf : Option Secret
  pub token_version : ℕ

pub data ValidatedSession : Type 0 where
  browser native : SessionClaims → ValidatedSession

abbrev pub claims_of : ValidatedSession → SessionClaims
claims_of (browser c) = c
claims_of (native c) = c

-- COALESCE((SELECT token_version …), 0)
abbrev pub version_in : Uuid → List UserAccount → ℕ
version_in user users =
    Option.get_or (Option.map (λ u. u.token_version) (find (λ u. u.id == user) users)) 0

abbrev pub has_provider : Option String → BrowserSession → Bool
has_provider none r = false
has_provider (some provider) r = str_eq provider r.auth_provider

abbrev pub has_csrf : (Secret → Hash) → Option Secret → BrowserSession → Bool
has_csrf token_hash none r = false
has_csrf token_hash (some csrf) r = r.csrf_hash == token_hash csrf

abbrev pub is_claimed : (Secret → Hash) → SessionClaims → Result (Option BrowserSession) → Bool
is_claimed token_hash c (err e) = false
is_claimed token_hash c (ok none) = false
is_claimed token_hash c (ok (some r)) = has_provider c.provider r && has_csrf token_hash c.csrf r

abbrev pub is_there : {V : Type 0} → Result (Option V) → Bool
is_there (err e) = false
is_there (ok found) = is_some found

module _ (token_hash : Secret → Hash) (parse_uuid : String → Option Uuid) where
  abbrev pub is_live_session : ValidatedSession → Uuid → Auth → Bool
  is_live_session (browser c) user s = is_claimed token_hash c (live_browser_session c.sid user s).0
  is_live_session (native c) user s = is_there (live_native_session c.sid user s).0

  abbrev pub revalidate_as : ValidatedSession → Option Uuid → Auth → Option Uuid
  revalidate_as session none s = none
  revalidate_as session (some user) s =
      if version_in user s.users == (claims_of session).token_version
        && is_live_session session user s
      then some user
      else none

  unfoldable pub revalidate_session : ValidatedSession → Auth → Option Uuid
  unfolding live_browser_session live_native_session
  revalidate_session session s = revalidate_as session (parse_uuid (claims_of session).sub) s

  -- a token that is accepted names a row of its user
  accepted :
      (c : SessionClaims) (user : Uuid) (s : Auth) (r : BrowserSession)
      → s.browser_sessions c.sid ≡ some r
      → revalidate_session (browser c) s ≡ some user
      → r.user_id ≡ user
  unfolding revalidate_session live_browser_session
  accepted c user s r at fine = ground (arith, at, fine)

  refused :
      (c : SessionClaims) (user : Uuid) (s : Auth)
      → s.browser_sessions c.sid ≡ none
      → revalidate_session (browser c) s ≡ none
  unfolding revalidate_session live_browser_session
  refused c user s absent = ground (arith, absent)

  lost :
      (c : SessionClaims) (t : Auth)
      → ((user : Uuid) → live_browser_session c.sid user t ≡ (ok none, t))
      → revalidate_session (browser c) t ≡ none
  unfolding revalidate_session live_browser_session
  lost c t gone = elim (Option-cases (parse_uuid c.sub)) [
    | inl unreadable ↦ rw unreadable refl
    | inr (user, reads) ↦ ground (arith, reads, gone user)
  ]

  -- A token of a browser session that is accepted for a player is never accepted again once the
  -- player has logged out everywhere, whatever calls follow.
  pub revalidate_session_over :
      (setup : Setup) (c : SessionClaims) (user : Uuid) (s t : Auth)
      → revalidate_session (browser c) s ≡ some user
      → Steps setup (revoke_all_sessions user s).1 t
      → revalidate_session (browser c) t ≡ none
  revalidate_session_over setup c user s t fine steps =
      elim (Option-cases (s.browser_sessions c.sid)) [
        | inl absent ↦ absurd (ground (arith, fine, refused c user s absent))
        | inr (r, at) ↦ lost c t (λ other.
            live_browser_session_over setup c.sid other (revoke_all_sessions user s).1 t
              (revoke_all_sessions-is_over user c.sid s r at (accepted c user s r at fine)) steps)
      ]
