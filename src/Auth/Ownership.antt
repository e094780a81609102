-- ===== src/Auth/Ownership.antt =====
-- The table `accounts` through any number of calls (lobby-server/src/db/players.rs and sessions.rs).
use steam_lobby.Prelude.{String, true, false, str_eq, ◌≡◌, none, some}
use steam_lobby.Core.Types.{Uuid}
use steam_lobby.Auth.State.{Auth}
use steam_lobby.Auth.Accounts.{owner_in, set_admin_flag}
use steam_lobby.Auth.Confirm.{revoke_discord_link}
use steam_lobby.Auth.Sessions.{
  touch_browser_session, touch_native_session, revoke_browser_session, revoke_native_session,
  revoke_all_sessions, revoke_provider_browser_sessions,
}
use steam_lobby.Auth.Owners.{Change, same, unlinked, Change-owner}
use steam_lobby.Auth.Steps.{Setup, Step, Steps, done, then_step}
use steam_lobby.Auth.Changes.{
  change_of, link_confirmed-Change, linked_login-Change, signed_in-Change, link_begun-same,
  handoff_completed-same, others-same,
}

Step-Change : (c : Setup) (s t : Auth) → Step c s t → Change s.accounts t.accounts
unfolding touch_browser_session touch_native_session revoke_browser_session revoke_native_session
    revoke_all_sessions revoke_provider_browser_sessions set_admin_flag revoke_discord_link
Step-Change c s _ (Step.passes later after) = same
Step-Change c s _ (Step.browser_created user provider csrf ttl) =
    change_of _ _ ((others-same s c 0 user provider "" csrf ttl 0 none true).0)
Step-Change c s _ (Step.native_created user) =
    change_of _ _ ((others-same s c 0 user "" "" 0 0 0 none true).1)
Step-Change c s _ (Step.browser_touched id user) = same
Step-Change c s _ (Step.native_touched id user) = same
Step-Change c s _ (Step.browser_revoked id user) = same
Step-Change c s _ (Step.native_revoked id user) = same
Step-Change c s _ (Step.all_revoked user) = same
Step-Change c s _ (Step.provider_revoked user provider) = same
Step-Change c s _ (Step.login_begun state nonce provider return_to verifier) =
    change_of _ _ ((others-same s c 0 0 provider return_to state nonce 0 verifier true).2)
Step-Change c s _ (Step.login_consumed state nonce provider) =
    change_of _ _ ((others-same s c 0 0 provider "" state nonce 0 none true).3)
Step-Change c s _ (Step.signed_in provider uid name verified) =
    signed_in-Change s c.parse_i64 c.steam_only provider uid name verified
Step-Change c s _ (Step.guest_created name) =
    change_of _ _ ((others-same s c 0 0 "" name 0 0 0 none true).4)
Step-Change c s _ (Step.linked_login provider uid name) = linked_login-Change s provider uid name
Step-Change c s _ (Step.admin_set user is_admin) = same
Step-Change c s _ (Step.proof_created uid name) =
    change_of _ _ ((others-same s c 0 0 uid name 0 0 0 none true).5)
Step-Change c s _ (Step.link_begun user session proof) =
    change_of _ _ (link_begun-same s c user session proof)
Step-Change c s _ (Step.handoff_created session) =
    change_of _ _ ((others-same s c session 0 "" "" 0 0 0 none true).6)
Step-Change c s _ (Step.handoff_completed state uid name) =
    change_of _ _ (handoff_completed-same s c state uid name)
Step-Change c s _ (Step.link_confirmed id user kind session) =
    link_confirmed-Change s id user kind session
Step-Change c s _ (Step.link_revoked user) = unlinked user

-- Once a player owns a subject of a provider other than Discord, no call gives it to anyone else or
-- takes it away: a Steam identity signs in to the same player for ever.
pub Steps-owner :
    (c : Setup) (p uid : String) (owner : Uuid) (s t : Auth)
    → str_eq p "discord" ≡ false
    → owner_in p uid s.accounts ≡ some owner
    → Steps c s t
    → owner_in p uid t.accounts ≡ some owner
Steps-owner c p uid owner s _ other own done = own
Steps-owner c p uid owner s u other own (then_step {t = t} steps step) =
    Change-owner t.accounts u.accounts p uid owner (Step-Change c t u step) other
      (Steps-owner c p uid owner s t other own steps)
