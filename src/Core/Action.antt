-- ===== src/Core/Action.antt =====
-- An async method that reads and writes the database and may return an error through `?`. What was
-- written before an error stays written, so the database comes back beside the error too.
use steam_lobby.Prelude.{Option, none, some, Bool, true, false}
use steam_lobby.Core.Error.{LobbyError, Result, ok, err}

abbrev pub Action {ℓ} : Type ℓ → Type ℓ → Type ℓ
Action S A = S → Result A × S

module _ {ℓ} {S A : Type ℓ} where
  abbrev pub pure : A → Action S A
  pure a s = (ok a, s)

  abbrev pub raise : LobbyError → Action S A
  raise e s = (err e, s)

  abbrev pub gets : (S → A) → Action S A
  gets f s = (ok (f s), s)

  -- `option.ok_or(e)?`
  abbrev pub ok_or : Option A → LobbyError → Action S A
  ok_or none e s = (err e, s)
  ok_or (some a) e s = (ok a, s)

  -- A transaction that is rolled back where its block returns an error.
  abbrev keep_or_restore : Result A × S → S → Result A × S
  keep_or_restore (ok a, t) s = (ok a, t)
  keep_or_restore (err e, t) s = (err e, s)

  abbrev pub transaction : Action S A → Action S A
  transaction m s = keep_or_restore (m s) s

module _ {ℓ} {S : Type ℓ} where
  abbrev pub modifies : (S → S) → Action S (Unit {ℓ})
  modifies f s = (ok tt, f s)

  -- an INSERT that fails with `e` where a key is taken
  abbrev pub modifies_unless : Bool → LobbyError → (S → S) → Action S (Unit {ℓ})
  modifies_unless true e f s = (err e, s)
  modifies_unless false e f s = (ok tt, f s)

  -- `if test { return Err(e); }`
  abbrev pub reject_if : Bool → LobbyError → Action S (Unit {ℓ})
  reject_if true e s = (err e, s)
  reject_if false e s = (ok tt, s)

module _ {ℓ} {S A B : Type ℓ} where
  abbrev continue : Result A → (A → Action S B) → Action S B
  continue (ok a) f s = f a s
  continue (err e) f s = (err e, s)

  infixl 10 ◌>>=◌ ◌>>◌
  abbrev pub ◌>>=◌ : Action S A → (A → Action S B) → Action S B
  ◌>>=◌ m f s = let (r, t) = m s in continue r f t

  abbrev pub ◌>>◌ : Action S A → Action S B → Action S B
  m >> n = m >>= λ _. n

module _ {ℓ} {S A : Type ℓ} where
  -- A call that touches no table.
  abbrev pub lift : Result A → Action S A
  lift r s = (r, s)
