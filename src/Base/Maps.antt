-- ===== src/Base/Maps.antt =====
-- A Go map that is read, written and never ranged over: a function of the key.
use Prim.Native.Nat.{ℕ}
use mathlib.Core.Path.{◌≡◌}
use mathlib.Core.Logic.{◌≢◌}
use mathlib.Core.Option.{Option, none, some}
use native.Mathlib.Omega.{arith}
use goxos.Base.Tests.{◌==◌, if◌then◌else◌}

abbrev pub Table {ℓ} : Type ℓ → Type ℓ
Table A = ℕ → Option A

module _ {ℓ} {A : Type ℓ} where
  -- `make(map[uint]A)`
  abbrev pub no_entries : Table A
  no_entries k = none

  -- `m[k] = a`
  abbrev pub insert : Table A → ℕ → A → Table A
  insert m k a j = if k == j then some a else m j

  pub insert_self : (m : Table A) (k : ℕ) (a : A) → insert m k a k ≡ some a
  insert_self m k a = ground arith

  pub insert_ne : (m : Table A) (k j : ℕ) (a : A) → k ≢ j → insert m k a j ≡ m j
  insert_ne m k j a h = ground arith
