-- ===== src/Prelude/Maps.antt =====
-- Finite maps with numbers for keys, as functions.
use Prim.Native.Nat.{ℕ}
use mathlib.Core.Bool.{Bool, true, false}
use mathlib.Core.Option.{Option, none, some}
use ka_im.Prelude.Tests.{◌==◌, if◌then◌else◌}

module _ {ℓ} {A : Type ℓ} where
  -- `m[k] = v`
  abbrev pub insert : (ℕ → Option A) → ℕ → A → ℕ → Option A
  insert m k v j = if k == j then some v else m j

  -- `m.erase(k)`
  abbrev pub erase : (ℕ → Option A) → ℕ → ℕ → Option A
  erase m k j = if k == j then none else m j

-- `m.find(k) != m.end() && m[k] == v`
abbrev pub holds : (ℕ → Option ℕ) → ℕ → ℕ → Bool
holds m k v = elim (m k) [ none ↦ false | some w ↦ w == v ]

abbrev pub has_key {ℓ} : {A : Type ℓ} → (ℕ → Option A) → ℕ → Bool
has_key m k = elim (m k) [ none ↦ false | some _ ↦ true ]
