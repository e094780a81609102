-- ===== src/Prelude/Tables.antt =====
-- A database table with a one-column key, as the map from the key to the row.
use mathlib.Core.Option
use mathlib.Core.Option.{Option, some, none}
use Prim.Native.Nat.{ℕ}
use steam_lobby.Prelude.Tests.{◌==◌, if◌then◌else◌}

abbrev pub Table {ℓ} : Type ℓ → Type ℓ
Table V = ℕ → Option V

module _ {ℓ} {V : Type ℓ} where
  -- `INSERT … ON CONFLICT DO UPDATE`
  abbrev pub put : ℕ → V → Table V → Table V
  put k v t j = if k == j then some v else t j

  -- `UPDATE … SET f WHERE key = k`
  abbrev pub modify : ℕ → (V → V) → Table V → Table V
  modify k f t j = if k == j then Option.map f (t j) else t j

  -- `INSERT … ON CONFLICT DO NOTHING`
  abbrev pub put_absent : ℕ → V → Table V → Table V
  put_absent k v t j = if k == j then some (Option.get_or (t j) v) else t j
