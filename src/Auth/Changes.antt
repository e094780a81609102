-- ===== src/Auth/Changes.antt =====
-- What each operation of signing in does to the table `accounts` (lobby-server/src/db/players.rs and
-- sessions.rs).
use steam_lobby.Prelude.{
  ℕ, String, Bool, true, false, not, ◌&&◌, ◌||◌, str_eq, ◌≡◌, sym, ap, arith, Option, none, some,
  is_some, Bool-cases, Option-cases, inl, inr, List, [], ◌∷◌, ◌++◌, any,
}
use mathlib.Core.Path.{subst}
use steam_lobby.Core.Types.{Uuid, DateTime}
use steam_lobby.Core.Error.{Result-cases}
use steam_lobby.Auth.State.{Auth, Identity, Secret}
use steam_lobby.Auth.Accounts.{
  is_identity, is_account_of, owner_in, new_identity, find_or_create_user, login_linked_account,
  create_guest_user,
}
use steam_lobby.Auth.Links.{complete_native_handoff, create_browser_link_intent}
use steam_lobby.Auth.Confirm.{confirm_discord_link, linked_rows}
use steam_lobby.Core.Action.{pure, ◌>>=◌}
use steam_lobby.Auth.Sessions.{
  create_browser_session, create_native_session, create_oauth_login_state,
  consume_oauth_login_state,
}
use steam_lobby.Auth.Links.{create_provider_proof, create_oauth_handoff}
use steam_lobby.Auth.Once.{was_linked}
use steam_lobby.Auth.Accounts.{
  add_identity, user_of, existing_or_new, add_if, bad_steam_id, steam_id_of,
}
use steam_lobby.Auth.Confirm.{intent_row}
use steam_lobby.Auth.Owners.{Change, same, seen, added}
use steam_lobby.Auth.Steps.{Setup}

pub change_of : (rows after : List Identity) → after ≡ rows → Change rows after
change_of rows after e = subst (Change rows) (sym e) same

linked_rows-Change :
    (uid : String) (user : Uuid) (now : DateTime) (rows after : List Identity)
    → linked_rows uid user now rows ≡ some after
    → Change rows after
linked_rows-Change uid user now rows after got =
    elim (Bool-cases (is_some (owner_in "discord" uid rows))) [
      | inl owned ↦ change_of rows after (ground arith)
      | inr free ↦
          elim (Bool-cases
            (any (is_identity "discord" uid) rows || any (is_account_of user "discord") rows)) [
              | inl taken ↦ change_of rows after (ground arith)
              | inr open_keys ↦
                  subst (Change rows) (is_appended open_keys free)
                    (added "discord" uid user now (ground arith) (ground arith))
            ]
    ]
  where
    is_appended :
        (any (is_identity "discord" uid) rows || any (is_account_of user "discord") rows) ≡ false
        → is_some (owner_in "discord" uid rows) ≡ false
        → rows ++ new_identity "discord" uid user now ∷ [] ≡ after
    is_appended keys free = ground arith

module _ (s : Auth) where
  confirm-same :
      (id user : Uuid) (kind : String) (session : Uuid)
      → was_linked (confirm_discord_link id user kind session s).0 ≡ false
      → (confirm_discord_link id user kind session s).1 ≡ s
  unfolding confirm_discord_link
  confirm-same id user kind session no_link = ground arith

  pub link_confirmed-Change :
      (id user : Uuid) (kind : String) (session : Uuid)
      → Change s.accounts (confirm_discord_link id user kind session s).1.accounts
  unfolding confirm_discord_link
  link_confirmed-Change id user kind session =
      elim (Bool-cases (was_linked (confirm_discord_link id user kind session s).0)) [
        | inr no_link ↦
            change_of _ _ (ap (λ t. t.accounts) (confirm-same id user kind session no_link))
        | inl done_link ↦ elim (Option-cases (intent_row user (s.link_intents id) s)) [
          | inl gone ↦ absurd (ground arith)
          | inr ((li, ps), found) ↦
              elim (Option-cases (linked_rows ps.provider_uid user s.now s.accounts)) [
                | inl stuck ↦ absurd (ground arith)
                | inr (rows, got) ↦
                    subst (Change s.accounts) (sym (ground arith))
                      (linked_rows-Change ps.provider_uid user s.now s.accounts rows got)
              ]
        ]
      ]

  add_identity-Change :
      (p u : String) (user : Uuid) → Change s.accounts (add_identity p u user s).1.accounts
  add_identity-Change p u user = elim (Bool-cases (any (is_identity p u) s.accounts)) [
    | inl known ↦ change_of _ _ (ground arith)
    | inr fresh ↦ elim (Bool-cases (any (is_account_of user p) s.accounts)) [
      | inl taken ↦ change_of _ _ (ground arith)
      | inr free ↦ rw (fresh, free) (added p u user s.now fresh free)
    ]
  ]

  user_of-accounts :
      (steam_id : Option ℕ) (name p : String) → (user_of steam_id name p s).1.accounts ≡ s.accounts
  user_of-accounts steam_id name p = ground arith

  pub linked_login-Change :
      (p u name : String) → Change s.accounts (login_linked_account p u name s).1.accounts
  unfolding login_linked_account
  linked_login-Change p u name = elim (Option-cases (owner_in p u s.accounts)) [
    | inl gone ↦ change_of _ _ (ground arith)
    | inr (user, owned) ↦ elim (Bool-cases (any (is_account_of user "steam") s.accounts)) [
      | inl steam ↦ rw (owned, steam) (seen p u s.now)
      | inr other ↦ rw (owned, other) same
    ]
  ]

change_from :
    (rows : List Identity) (t u : Auth)
    → t.accounts ≡ rows
    → Change t.accounts u.accounts
    → Change rows u.accounts
change_from rows t u e = subst (λ x. Change x u.accounts) e

module _ (s : Auth) where
  existing_or_new-Change :
      (owner : Option Uuid) (steam_id : Option ℕ) (p u name : String) (verified : Bool)
      → Change s.accounts (existing_or_new owner steam_id p u name verified s).1.accounts
  existing_or_new-Change (some user) steam_id p u name verified = seen p u s.now
  existing_or_new-Change none steam_id p u name verified =
      elim (Result-cases (user_of steam_id name p s).0) [
        | inr (e, failed) ↦ rw failed (change_of _ _ (user_of-accounts s steam_id name p))
        | inl (user, at) ↦ rw at (elim (Bool-cases verified) [
          | inr unproved ↦ rw unproved (change_of _ _ (user_of-accounts s steam_id name p))
          | inl proved ↦ rw proved (
              change_from s.accounts (user_of steam_id name p s).1 (after user)
                (user_of-accounts s steam_id name p)
                (rw (rest_accounts user)
                  (add_identity-Change (user_of steam_id name p s).1 p u user)))
        ])
      ]
    where
      after : Uuid → Auth
      after user = ((add_if true p u user >>= (λ _. pure user)) (user_of steam_id name p s).1).1

      rest_accounts :
          (user : Uuid)
          → (after user).accounts ≡ (add_identity p u user (user_of steam_id name p s).1).1.accounts
      rest_accounts user = ground arith

  pub signed_in-Change :
      (parse_i64 : String → Option ℕ) (only : Bool) (p u name : String) (verified : Bool)
      → Change s.accounts (find_or_create_user parse_i64 only p u name verified s).1.accounts
  unfolding find_or_create_user
  signed_in-Change parse_i64 only p u name verified =
      elim (Bool-cases (only && (not verified || not (str_eq p "steam")))) [
        | inl shut ↦ rw shut same
        | inr allowed ↦ rw allowed (elim (Bool-cases (bad_steam_id parse_i64 only p u)) [
          | inl bad ↦ rw bad same
          | inr good ↦
              rw good
                (elim (Result-cases
                  (existing_or_new (owner_in p u s.accounts) (steam_id_of parse_i64 only p u) p u
                    name verified s).0) [
                      | inl (user, at) ↦ rw at (
                          existing_or_new-Change (owner_in p u s.accounts)
                            (steam_id_of parse_i64 only p u) p u name verified)
                      | inr (e, failed) ↦ rw failed same
                    ])
        ])
      ]

  -- the operations that leave the table alone
  module _ (c : Setup) where
    pub link_begun-same :
        (user session : Uuid) (proof : Secret)
        → (create_browser_link_intent c.token_hash c.encode user session proof s).1.accounts
          ≡ s.accounts
    unfolding create_browser_link_intent
    link_begun-same user session proof = ground arith

    pub handoff_completed-same :
        (state : Secret) (u name : String)
        → (complete_native_handoff c.token_hash c.encode state u name s).1.accounts ≡ s.accounts
    unfolding complete_native_handoff
    handoff_completed-same state u name = ground arith

    pub others-same :
        (id user : Uuid) (p name : String) (a b d : ℕ) (v : Option Secret) (flag : Bool)
        → ((create_browser_session user p a b s).1.accounts ≡ s.accounts)
          × ((create_native_session user s).1.accounts ≡ s.accounts)
          × ((create_oauth_login_state c.token_hash a b p name v s).1.accounts ≡ s.accounts)
          × ((consume_oauth_login_state c.token_hash a b p s).1.accounts ≡ s.accounts)
          × ((create_guest_user c.steam_only name s).1.accounts ≡ s.accounts)
          × ((create_provider_proof c.token_hash c.encode p name s).1.accounts ≡ s.accounts)
          × ((create_oauth_handoff c.token_hash c.encode id s).1.accounts ≡ s.accounts)
    unfolding create_browser_session create_native_session create_oauth_login_state
        consume_oauth_login_state create_guest_user create_provider_proof create_oauth_handoff
    others-same id user p name a b d v flag = ground arith
