-- ===== src/Base/Int.antt =====
-- Signed integers over the native numbers: the `int8` and `int` values of the program, which are
-- compared and used as indices.
use Prim.Native.Nat.{ℕ, suc, ◌+◌, ◌-◌}
use mathlib.Core.Path.{◌≡◌}
use mathlib.Core.Logic.{◌↔◌}
use mathlib.Core.Bool.{Bool, true}
use mathlib.Core.List.{List}
use mathlib.Core.Option.{Option, none}
use native.Mathlib.Omega.{arith}
use goxos.Base.Tests.{ltb, ◌==◌, if◌then◌else◌, uint_mod}
use goxos.Base.Lists.{get_elem?}

-- `negsuc n` is -(n + 1).
pub data ℤ : Type 0 where
  pos : ℕ → ℤ
  negsuc : ℕ → ℤ

abbrev pub pos_part : ℤ → ℕ
pos_part (pos n) = n
pos_part (negsuc n) = 0

abbrev pub neg_part : ℤ → ℕ
neg_part (pos n) = 0
neg_part (negsuc n) = suc n

abbrev pub ltb_ℤ : ℤ → ℤ → Bool
ltb_ℤ a b = ltb (pos_part a + neg_part b) (pos_part b + neg_part a)

abbrev pub eqb_ℤ : ℤ → ℤ → Bool
eqb_ℤ a b = (pos_part a + neg_part b) == (pos_part b + neg_part a)

pub eqb_ℤ_iff : (a b : ℤ) → (eqb_ℤ a b ≡ true) ↔ (a ≡ b)
eqb_ℤ_iff a b = (λ h. ground arith, λ h. ground arith)

-- `int(x)` of a `uint`: two's complement over 64 bits.
abbrev pub to_int : ℕ → ℤ
to_int x = if ltb x 9223372036854775808 then pos x else negsuc (uint_mod - x - 1)

-- `uint(x)` of an `int8` or an `int`.
abbrev pub to_uint : ℤ → ℕ
to_uint (pos n) = n
to_uint (negsuc n) = uint_mod - suc n

-- `xs[i]` with an index of type `int`; `none` is the run-time panic.
abbrev pub index {ℓ} : {A : Type ℓ} → List A → ℤ → Option A
index xs (pos n) = get_elem? xs n
index xs (negsuc n) = none
