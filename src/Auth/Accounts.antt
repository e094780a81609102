-- ===== src/Auth/Accounts.antt =====
-- Accounts and their identities (lobby-server/src/db/players.rs, `find_or_create_user` and below).
use mathlib.Core.Option
use steam_lobby.Prelude.{
  ℕ, String, Bool, true, false, not, ◌&&◌, ◌||◌, ◌==◌, str_eq, Option, none, some, is_none,
  if◌then◌else◌, option_eq, List, [], ◌∷◌, ◌++◌, any, find, update,
}
use steam_lobby.Core.Types.{Uuid, DateTime}
use steam_lobby.Core.Error.{LobbyError}
use steam_lobby.Core.Action.{Action, pure, gets, modifies, reject_if, transaction, ◌>>=◌, ◌>>◌}
use steam_lobby.Auth.State.{Auth, UserAccount, Identity, new_id}

-- provider = $1 AND provider_uid = $2
abbrev pub is_identity : String → String → Identity → Bool
is_identity provider uid r = str_eq r.provider provider && str_eq r.provider_uid uid

-- user_id = $1 AND provider = $2
abbrev pub is_account_of : Uuid → String → Identity → Bool
is_account_of user provider r = r.user_id == user && str_eq r.provider provider

abbrev pub owner_in : String → String → List Identity → Option Uuid
owner_in provider uid rows = Option.map (λ r. r.user_id) (find (is_identity provider uid) rows)

-- display_name = CASE WHEN name = '' THEN display_name ELSE name END, last_login_at = NOW()
abbrev logged_in : String → DateTime → UserAccount → UserAccount
logged_in name now u = record u {
  display_name = if str_eq name "" then u.display_name else name;
  last_login_at = now;
}

abbrev pub seen_at : DateTime → Identity → Identity
seen_at now r = record r { last_login_at = now }

abbrev pub new_identity : String → String → Uuid → DateTime → Identity
new_identity provider uid user now = record {
  provider = provider;
  provider_uid = uid;
  user_id = user;
  last_login_at = now;
  linked_at = now;
}

abbrev pub new_user : Uuid → String → Option ℕ → String → DateTime → UserAccount
new_user id name steam_id provider now = record {
  id = id;
  display_name = name;
  token_version = 0;
  steam_id = steam_id;
  primary_provider = provider;
  is_admin = false;
  last_login_at = now;
}

-- INSERT INTO users … RETURNING id
abbrev insert_user : String → Option ℕ → String → Action Auth Uuid
insert_user name steam_id provider = do
  id ← new_id
  taken ← gets (λ s. any (λ u. u.id == id) s.users)
  reject_if taken (LobbyError.database "users_pkey")
  modifies (λ s. record s { users = s.users ++ new_user id name steam_id provider s.now ∷ [] })
  pure id

abbrev has_steam_id : ℕ → UserAccount → Bool
has_steam_id steam_id u = option_eq u.steam_id (some steam_id)

-- ON CONFLICT (steam_id) DO UPDATE … RETURNING id
abbrev upsert_steam_user : ℕ → String → Option UserAccount → Action Auth Uuid
upsert_steam_user steam_id name none = insert_user name (some steam_id) "steam"
upsert_steam_user steam_id name (some u) = do
  modifies (λ s. record s { users = update (has_steam_id steam_id) (logged_in name s.now) s.users })
  pure u.id

abbrev pub user_of : Option ℕ → String → String → Action Auth Uuid
user_of none name provider = insert_user name none provider
user_of (some steam_id) name provider = do
  row ← gets (λ s. find (has_steam_id steam_id) s.users)
  upsert_steam_user steam_id name row

-- INSERT INTO accounts … ON CONFLICT (provider, provider_uid) DO NOTHING; the other key of the table
-- is (user_id, provider). A subject that is known here was won by a concurrent call, which the code then
-- answers with; one call at a time finds it before.
abbrev pub add_identity : String → String → Uuid → Action Auth (Unit {0})
add_identity provider uid user = do
  known ← gets (λ s. any (is_identity provider uid) s.accounts)
  linked ← gets (λ s. any (is_account_of user provider) s.accounts)
  reject_if (not known && linked) (LobbyError.database "user_identities_user_id_provider_key")
  modifies (λ s. record s {
    accounts =
        if known then s.accounts else s.accounts ++ new_identity provider uid user s.now ∷ [];
  })

abbrev pub add_if : Bool → String → String → Uuid → Action Auth (Unit {0})
add_if true provider uid user = add_identity provider uid user
add_if false provider uid user = pure tt

-- the two UPDATEs of a login
abbrev log_in : String → String → String → Uuid → Action Auth (Unit {0})
log_in provider uid name user = modifies λ s. record s {
  users = update (λ u. u.id == user) (logged_in name s.now) s.users;
  accounts = update (is_identity provider uid) (seen_at s.now) s.accounts;
}

abbrev pub existing_or_new :
    Option Uuid → Option ℕ → String → String → String → Bool → Action Auth Uuid
existing_or_new (some user) steam_id provider uid name verified = do
  log_in provider uid name user
  pure user
existing_or_new none steam_id provider uid name verified = do
  user ← user_of steam_id name provider
  add_if verified provider uid user
  pure user

-- `parse::<i64>()` on the subject of a Steam identity, and the setting steam_backed_accounts_only
module _ (parse_i64 : String → Option ℕ) (steam_only : Bool) where
  abbrev pub bad_steam_id : String → String → Bool
  bad_steam_id provider uid = str_eq provider "steam" && is_none (parse_i64 uid)

  abbrev pub steam_id_of : String → String → Option ℕ
  steam_id_of provider uid = if str_eq provider "steam" then parse_i64 uid else none

  unfoldable pub find_or_create_user : String → String → String → Bool → Action Auth Uuid
  find_or_create_user provider uid name verified = do
    reject_if (steam_only && (not verified || not (str_eq provider "steam")))
        (LobbyError.steam_auth_failed "account creation is restricted to verified Steam identities")
    reject_if (bad_steam_id provider uid) (LobbyError.steam_auth_failed "invalid Steam identity")
    transaction (do
      owner ← gets (λ s. owner_in provider uid s.accounts)
      existing_or_new owner (steam_id_of provider uid) provider uid name verified)

module _ (steam_only : Bool) where
  unfoldable pub create_guest_user : String → Action Auth Uuid
  create_guest_user name = do
    reject_if steam_only (LobbyError.steam_auth_failed "guest accounts are disabled")
    insert_user name none "guest"

-- EXISTS (SELECT 1 FROM accounts WHERE user_id = $1 AND provider = $2)
abbrev pub has_account_in : Uuid → String → List Identity → Bool
has_account_in user provider = any (is_account_of user provider)

unfoldable pub has_account : Uuid → String → Action Auth Bool
has_account user provider = gets λ s. has_account_in user provider s.accounts

unfoldable pub account_owner : String → String → Action Auth (Option Uuid)
account_owner provider uid = gets λ s. owner_in provider uid s.accounts

abbrev pub log_in_linked : Option Uuid → String → String → String → Action Auth (Option Uuid)
log_in_linked none provider uid name = pure none
log_in_linked (some user) provider uid name = do
  linked ← gets (λ s. has_account_in user "steam" s.accounts)
  if linked then (do log_in provider uid name user; pure (some user)) else pure none

unfoldable pub login_linked_account : String → String → String → Action Auth (Option Uuid)
login_linked_account provider uid name = do
  owner ← gets (λ s. owner_in provider uid s.accounts)
  log_in_linked owner provider uid name

unfoldable pub get_display_name : Uuid → Action Auth (Option String)
get_display_name user =
    gets λ s. Option.map (λ u. u.display_name) (find (λ u. u.id == user) s.users)

unfoldable pub set_admin_flag : Uuid → Bool → Action Auth (Unit {0})
set_admin_flag user is_admin = modifies λ s. record s {
  users = update (λ u. u.id == user) (λ u. record u { is_admin = is_admin }) s.users;
}

unfoldable pub get_user_id : ℕ → Action Auth (Option Uuid)
get_user_id steam_id = gets λ s. Option.map (λ u. u.id) (find (has_steam_id steam_id) s.users)
