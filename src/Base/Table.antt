-- ===== src/Base/Table.antt =====
-- Rust's `HashMap<u64, V>` as a function from keys to values.
use Prim.Native.Nat.{ℕ}
use mathlib.Core.Option.{Option, none, some}
use quish.Base.Compare.{◌==◌, if◌then◌else◌}

abbrev pub Table {ℓ} : Type ℓ → Type ℓ
Table V = ℕ → Option V

module _ {ℓ} {V : Type ℓ} where
  abbrev pub empty : Table V
  empty k = none

  abbrev pub insert : ℕ → V → Table V → Table V
  insert k v t j = if k == j then some v else t j

  abbrev pub remove : ℕ → Table V → Table V
  remove k t j = if k == j then none else t j
