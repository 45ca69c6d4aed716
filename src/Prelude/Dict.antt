-- ===== src/Prelude/Dict.antt =====
-- A Python dict keyed by numbers that the program only reads and writes by key: a lookup function.
use Prim.Native.Nat.{ℕ}
use mathlib.Core.Option.{Option, none, some}
use fcam_gateway.Prelude.Tests.{◌==◌, if◌then◌else◌}

abbrev pub Dict {ℓ} : Type ℓ → Type ℓ
Dict V = ℕ → Option V

module _ {ℓ} {V : Type ℓ} where
  abbrev pub empty : Dict V
  empty k = none

  -- `d[k] = v`
  abbrev pub insert : ℕ → V → Dict V → Dict V
  insert k v d j = if j == k then some v else d j

  -- `d.pop(k, None)`
  abbrev pub erase : ℕ → Dict V → Dict V
  erase k d j = if j == k then none else d j
