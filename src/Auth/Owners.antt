-- ===== src/Auth/Owners.antt =====
-- Who owns a provider's subject (the table `accounts`; lobby-server/src/db/players.rs and sessions.rs).
use steam_lobby.Prelude.{
  String, true, false, not, str_eq, str_eq_iff, ◌≡◌, refl, ◌∙◌, arith, some, Bool-cases, inl, inr,
  List, [], ◌∷◌, ◌++◌, any, select, update,
}
use steam_lobby.Core.Types.{Uuid, DateTime}
use steam_lobby.Auth.State.{Identity}
use steam_lobby.Auth.Accounts.{is_identity, is_account_of, owner_in, new_identity, seen_at}

-- What a step does to the table: nothing, a login, a new row under two new keys, or the end of a link.
pub data Change (rows : List Identity) : List Identity → Type 0 where
  same : Change rows rows
  seen : (p u : String) (now : DateTime) → Change rows (update (is_identity p u) (seen_at now) rows)
  added :
      (p u : String) (user : Uuid) (now : DateTime)
      → any (is_identity p u) rows ≡ false
      → any (is_account_of user p) rows ≡ false
      → Change rows (rows ++ new_identity p u user now ∷ [])
  unlinked : (user : Uuid) → Change rows (select (λ r. not (is_account_of user "discord" r)) rows)

owner-seen :
    (p u p' u' : String) (now : DateTime) (rs : List Identity)
    → owner_in p u (update (is_identity p' u') (seen_at now) rs) ≡ owner_in p u rs
owner-seen p u p' u' now [] = refl
owner-seen p u p' u' now (r ∷ rs) = ground (arith, owner-seen p u p' u' now rs)

owner-added :
    (p u : String) (x : Identity) (owner : Uuid) (rs : List Identity)
    → owner_in p u rs ≡ some owner
    → owner_in p u (rs ++ x ∷ []) ≡ some owner
owner-added p u x owner [] own = absurd (ground arith)
owner-added p u x owner (r ∷ rs) own = ground (arith, owner-added p u x owner rs)

owner-unlinked :
    (p u : String) (user owner : Uuid) (rs : List Identity)
    → str_eq p "discord" ≡ false
    → owner_in p u rs ≡ some owner
    → owner_in p u (select (λ r. not (is_account_of user "discord" r)) rs) ≡ some owner
owner-unlinked p u user owner [] other own = absurd (ground arith)
owner-unlinked p u user owner (r ∷ rs) other own = elim (Bool-cases (is_identity p u r)) [
  | inr away ↦ ground (arith, owner-unlinked p u user owner rs other)
  | inl it ↦ ground (arith, stays it)
]
  where
    stays : is_identity p u r ≡ true → str_eq r.provider "discord" ≡ false
    stays it = rw ((str_eq_iff r.provider p).0 (ground arith)) other

pub Change-owner :
    (rows after : List Identity) (p u : String) (owner : Uuid)
    → Change rows after
    → str_eq p "discord" ≡ false
    → owner_in p u rows ≡ some owner
    → owner_in p u after ≡ some owner
Change-owner rows _ p u owner same other own = own
Change-owner rows _ p u owner (seen p' u' now) other own = owner-seen p u p' u' now rows ∙ own
Change-owner rows _ p u owner (added p' u' user now _ _) other own =
    owner-added p u (new_identity p' u' user now) owner rows own
Change-owner rows _ p u owner (unlinked user) other own =
    owner-unlinked p u user owner rows other own
