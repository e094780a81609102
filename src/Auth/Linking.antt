-- ===== src/Auth/Linking.antt =====
-- Who owns a Discord subject once a link is confirmed (`confirm_discord_link`,
-- lobby-server/src/db/sessions.rs).
use mathlib.Core.Path.{subst}
use steam_lobby.Prelude.{
  String, true, false, ◌&&◌, ◌||◌, ==_refl, str_eq, str_eq_refl, str_eq_iff, ◌<◌, ◌≡◌, refl, sym,
  ap, arith, Option, none, some, is_some, is_none, Bool-cases, Option-cases, inl, inr, List, [],
  ◌∷◌, ◌++◌, any,
}
use steam_lobby.Core.Types.{Uuid, DateTime}
use steam_lobby.Auth.State.{Auth, Identity, LinkIntent, ProviderSession}
use steam_lobby.Auth.Accounts.{is_identity, is_account_of, owner_in, new_identity}
use steam_lobby.Auth.Confirm.{
  confirm_discord_link, discord_uid_of, is_other_uid, is_other_user, is_pending, linked_rows,
}
use steam_lobby.Auth.Once.{was_linked}

-- the owner of a subject has an account of the provider
owner-discord_uid_of :
    (uid : String) (user : Uuid) (rows : List Identity)
    → owner_in "discord" uid rows ≡ some user
    → is_some (discord_uid_of user rows) ≡ true
owner-discord_uid_of uid user [] own = absurd (ground arith)
owner-discord_uid_of uid user (r ∷ rows) own =
    ground (arith, owner-discord_uid_of uid user rows, ==_refl user)

-- The player owns the subject, its Discord account has it, and no other subject changes its owner.
abbrev pub Owns : String → Uuid → List Identity → List Identity → Type 0
Owns uid user rows after =
    (owner_in "discord" uid after ≡ some user)
    × (discord_uid_of user after ≡ some uid)
    × ((p u : String)
        → (str_eq "discord" p && str_eq uid u) ≡ false
        → owner_in p u after ≡ owner_in p u rows)

module _ (uid : String) (user : Uuid) (now : DateTime) where
  abbrev row : Identity
  row = new_identity "discord" uid user now

  owner-new :
      (rows : List Identity)
      → any (is_identity "discord" uid) rows ≡ false
      → owner_in "discord" uid (rows ++ row ∷ []) ≡ some user
  owner-new [] free = rw (str_eq_refl uid) refl
  owner-new (r ∷ rows) free = ground (arith, owner-new rows)

  uid-new :
      (rows : List Identity)
      → any (is_account_of user "discord") rows ≡ false
      → discord_uid_of user (rows ++ row ∷ []) ≡ some uid
  uid-new [] free = rw (==_refl user) refl
  uid-new (r ∷ rows) free = ground (arith, uid-new rows)

  owner-other :
      (p u : String) (rows : List Identity)
      → is_identity p u row ≡ false
      → owner_in p u (rows ++ row ∷ []) ≡ owner_in p u rows
  owner-other p u [] other = ground arith
  owner-other p u (r ∷ rows) other = ground (arith, owner-other p u rows)

  same_uid :
      (found : Option String)
      → is_some found ≡ true
      → is_other_uid uid found ≡ false
      → found ≡ some uid
  same_uid none there same = absurd (ground arith)
  same_uid (some stored) there same = ap some ((str_eq_iff stored uid).0 (ground arith))

  owned-Owns :
      (owner : Uuid) (rows : List Identity)
      → owner_in "discord" uid rows ≡ some owner
      → is_other_user user (owner_in "discord" uid rows) ≡ false
      → is_other_uid uid (discord_uid_of user rows) ≡ false
      → Owns uid user rows rows
  owned-Owns owner rows owned mine only = (
    own,
    same_uid (discord_uid_of user rows) (owner-discord_uid_of uid user rows own) only,
    λ p u other. refl,
  )
    where
      own : owner_in "discord" uid rows ≡ some user
      own = ground arith

  added-Owns :
      (rows : List Identity)
      → (any (is_identity "discord" uid) rows || any (is_account_of user "discord") rows) ≡ false
      → Owns uid user rows (rows ++ row ∷ [])
  added-Owns rows fresh = (
    owner-new rows (ground arith),
    uid-new rows (ground arith),
    λ p u other. owner-other p u rows other,
  )

  linked_rows-Owns :
      (rows after : List Identity)
      → linked_rows uid user now rows ≡ some after
      → is_other_user user (owner_in "discord" uid rows) ≡ false
      → is_other_uid uid (discord_uid_of user rows) ≡ false
      → Owns uid user rows after
  linked_rows-Owns rows after got mine only = elim (Option-cases (owner_in "discord" uid rows)) [
    | inr (owner, owned) ↦
        subst (Owns uid user rows) (ground arith) (owned-Owns owner rows owned mine only)
    | inl free ↦
        elim (Bool-cases
          (any (is_identity "discord" uid) rows || any (is_account_of user "discord") rows)) [
            | inl taken ↦ absurd (ground arith)
            | inr fresh ↦ subst (Owns uid user rows) (ground arith) (added-Owns rows fresh)
          ]
  ]

-- A confirmation that answers that the link is made had an intent of that player, still pending,
-- with a proof that nobody had used, neither of them expired, and the player has a Steam account.
-- Afterwards the player owns the proved Discord subject, which is the one that a look at its
-- Discord account finds, and every other subject of any provider has the owner that it had.
pub confirm_discord_link-Owns :
    (id user : Uuid) (kind : String) (session : Uuid) (s : Auth)
    → was_linked (confirm_discord_link id user kind session s).0 ≡ true
    → (li : LinkIntent) × (ps : ProviderSession) × (s.link_intents id ≡ some li)
      × (s.provider_sessions li.provider_session_hash ≡ some ps)
      × (li.user_id ≡ user)
      × (is_pending li.status ≡ true)
      × (is_none ps.consumed_at ≡ true)
      × (s.now < li.expires_at)
      × (s.now < ps.expires_at)
      × (any (is_account_of user "steam") s.accounts ≡ true)
      × Owns ps.provider_uid user s.accounts
          (confirm_discord_link id user kind session s).1.accounts
unfolding confirm_discord_link
confirm_discord_link-Owns id user kind session s done_link =
    elim (Option-cases (s.link_intents id)) [
      | inl gone ↦ absurd (ground arith)
      | inr (li, at) ↦ elim (Option-cases (s.provider_sessions li.provider_session_hash)) [
        | inl unproved ↦ absurd (ground arith)
        | inr (ps, proof) ↦
            elim (Option-cases (linked_rows ps.provider_uid user s.now s.accounts)) [
              | inl stuck ↦ absurd (ground arith)
              | inr (rows, got) ↦ (
                li,
                ps,
                at,
                proof,
                ground arith,
                ground arith,
                ground arith,
                ground arith,
                ground arith,
                ground arith,
                subst (Owns ps.provider_uid user s.accounts) (sym (ground arith)) (
                    linked_rows-Owns ps.provider_uid user s.now s.accounts rows got (ground arith)
                      (ground arith)),
              )
            ]
      ]
    ]
