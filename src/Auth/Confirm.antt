-- ===== src/Auth/Confirm.antt =====
-- The end of a link: confirming and revoking it (lobby-server/src/db/sessions.rs).
use mathlib.Core.Option
use steam_lobby.Prelude.{
  String, Bool, true, false, not, ◌&&◌, ◌||◌, ◌==◌, str_eq, Option, none, some, is_none, is_some,
  ltb, if◌then◌else◌, option_eq, List, [], ◌∷◌, ◌++◌, any, find, select, modify,
}
use steam_lobby.Core.Types.{Uuid, DateTime}
use steam_lobby.Core.Error.{ok}
use steam_lobby.Core.Action.{Action, modifies}
use steam_lobby.Auth.State.{Auth, Hash, ProviderSession, LinkIntent, LinkStatus, Identity}
use steam_lobby.Auth.Sessions.{
  row_where, browser_of, native_of, is_provider_session, update_where, revoke_browser,
}
use steam_lobby.Auth.Accounts.{is_identity, is_account_of, owner_in, has_account_in, new_identity}

pub data ConfirmError : Type 0 where
  session_mismatch replayed expired steam_required ownership_conflict : ConfirmError

pub data Confirmation : Type 0 where
  linked : Confirmation
  rejected : ConfirmError → Confirmation

abbrev pub is_pending : LinkStatus → Bool
is_pending LinkStatus.pending = true
is_pending _ = false

-- the row of the join of link_intents and provider_sessions
abbrev pub intent_row : Uuid → Option LinkIntent → Auth → Option (LinkIntent × ProviderSession)
intent_row user none s = none
intent_row user (some li) s =
    if li.user_id == user
    then Option.map (λ ps. (li, ps)) (s.provider_sessions li.provider_session_hash)
    else none

-- stored_kind != kind, or the intent belongs to another session
abbrev is_other_session : LinkIntent → String → Uuid → Bool
is_other_session li kind session =
    not (str_eq li.kind kind)
    || (str_eq kind "browser" && not (option_eq li.browser_session_id (some session)))
    || (str_eq kind "native" && not (option_eq li.native_session_id (some session)))

-- the session is live; no session is of another kind
abbrev is_live_session : String → Uuid → Uuid → Auth → Bool
is_live_session kind session user s =
    if str_eq kind "browser"
    then is_some (row_where (browser_of user s.now) (s.browser_sessions session))
    else if str_eq kind "native"
    then is_some (row_where (native_of user s.now) (s.native_sessions session))
    else false

abbrev pub discord_uid_of : Uuid → List Identity → Option String
discord_uid_of user rows =
    Option.map (λ r. r.provider_uid) (find (is_account_of user "discord") rows)

abbrev pub is_other_user : Uuid → Option Uuid → Bool
is_other_user user none = false
is_other_user user (some owner) = not (owner == user)

abbrev pub is_other_uid : String → Option String → Bool
is_other_uid uid none = false
is_other_uid uid (some stored) = not (str_eq stored uid)

-- after a failed INSERT: the rows must say already what it was to say
abbrev is_linked : String → Uuid → List Identity → Bool
is_linked uid user rows =
    option_eq (owner_in "discord" uid rows) (some user)
    && not (is_none (discord_uid_of user rows))
    && not (is_other_uid uid (discord_uid_of user rows))

-- The rows with the link: INSERT INTO accounts where nobody owns the subject, which fails where a row
-- has one of its keys.
abbrev pub linked_rows : String → Uuid → DateTime → List Identity → Option (List Identity)
linked_rows uid user now rows =
    if is_some (owner_in "discord" uid rows)
    then some rows
    else if any (is_identity "discord" uid) rows || any (is_account_of user "discord") rows
    then (if is_linked uid user rows then some rows else none)
    else some (rows ++ new_identity "discord" uid user now ∷ [])

abbrev committed_if : LinkIntent → LinkIntent
committed_if li = if is_pending li.status then record li { status = LinkStatus.committed } else li

abbrev consumed_proof : DateTime → ProviderSession → ProviderSession
consumed_proof now ps = if is_none ps.consumed_at then record ps { consumed_at = some now } else ps

abbrev commit : Uuid → Hash → List Identity → Auth → Auth
commit id proof rows s = record s {
  accounts = rows;
  provider_sessions = modify proof (consumed_proof s.now) s.provider_sessions;
  link_intents = modify id committed_if s.link_intents;
}

abbrev commit_if : Option (List Identity) → Uuid → Hash → Auth → Confirmation × Auth
commit_if none id proof s = (rejected ConfirmError.ownership_conflict, s)
commit_if (some rows) id proof s = (linked, commit id proof rows s)

-- the checks in order, and the writes
abbrev confirm_on :
    Option (LinkIntent × ProviderSession) → Uuid → Uuid → String → Uuid → Auth → Confirmation × Auth
confirm_on none id user kind session s = (rejected ConfirmError.session_mismatch, s)
confirm_on (some (li, ps)) id user kind session s =
    let uid = ps.provider_uid in
    if not (is_pending li.status) || is_some ps.consumed_at
    then (rejected ConfirmError.replayed, s)
    else if not (ltb s.now li.expires_at) || not (ltb s.now ps.expires_at)
    then (rejected ConfirmError.expired, s)
    else if is_other_session li kind session || not (is_live_session kind session user s)
    then (rejected ConfirmError.session_mismatch, s)
    else if not (has_account_in user "steam" s.accounts)
    then (rejected ConfirmError.steam_required, s)
    else if is_other_user user (owner_in "discord" uid s.accounts)
        || is_other_uid uid (discord_uid_of user s.accounts)
    then (rejected ConfirmError.ownership_conflict, s)
    else commit_if (linked_rows uid user s.now s.accounts) id li.provider_session_hash s

unfoldable pub confirm_discord_link : Uuid → Uuid → String → Uuid → Action Auth Confirmation
confirm_discord_link id user kind session s =
    let (answer, after) =
      confirm_on (intent_row user (s.link_intents id) s) id user kind session s in
    (ok answer, after)

unfoldable pub revoke_discord_link : Uuid → Action Auth (Unit {0})
revoke_discord_link user = modifies λ s. record s {
  accounts = select (λ r. not (is_account_of user "discord" r)) s.accounts;
  browser_sessions =
      update_where (is_provider_session user "discord") (revoke_browser s.now) s.browser_sessions;
}
