-- ===== src/Base/Stored.antt =====
-- Slices of pointers that are filled one index at a time: how many are not nil.
use goxos.Base.Lists.{length, get_elem?, set, replicate}
use Prim.Native.Nat.{ℕ, zero, suc, ◌+◌, ◌≤◌}
use mathlib.Core.List.{List, [], ◌∷◌}
use mathlib.Core.Logic.{◌⊎◌, inl, inr}
use mathlib.Core.Option.{Option, none, some}
use mathlib.Core.Path.{◌≡◌, refl, ap}
use native.Mathlib.Omega.{arith}

module _ {ℓ} {A : Type ℓ} where
  -- How many pointers are not nil.
  unfoldable pub voters : List (Option A) → ℕ
  voters [] = 0
  voters (none ∷ ls) = voters ls
  voters (some l ∷ ls) = suc (voters ls)

  pub voters-le-length : (ls : List (Option A)) → voters ls ≤ length ls
  unfolding voters
  voters-le-length [] = omega arith
  voters-le-length (none ∷ ls) = omega (arith, voters-le-length ls)
  voters-le-length (some l ∷ ls) = omega (arith, voters-le-length ls)

  pub voters-set :
      (ls : List (Option A)) (i : ℕ) (l : A)
      → get_elem? ls i ≡ some none
      → voters (set ls i (some l)) ≡ voters ls + 1
  unfolding voters
  voters-set [] i l h = cc
  voters-set (none ∷ ls) zero l h = omega arith
  voters-set (some m ∷ ls) zero l h = cc
  voters-set (none ∷ ls) (suc i) l h = voters-set ls i l h
  voters-set (some m ∷ ls) (suc i) l h = omega (arith, voters-set ls i l h)

  pub get-set :
      (ls : List (Option A)) (i j : ℕ) (l m : A)
      → get_elem? (set ls i (some l)) j ≡ some (some m)
      → ((i ≡ j) × (l ≡ m)) ⊎ (get_elem? ls j ≡ some (some m))
  get-set [] i j l m h = cc
  get-set (x ∷ ls) zero zero l m h = inl (refl, cc)
  get-set (x ∷ ls) zero (suc j) l m h = inr h
  get-set (x ∷ ls) (suc i) zero l m h = inr h
  get-set (x ∷ ls) (suc i) (suc j) l m h = elim (get-set ls i j l m h) [
    | inl (e, f) ↦ inl (ap suc e, f)
    | inr e ↦ inr e
  ]

  pub get-replicate : (n j : ℕ) (m : A) → get_elem? (replicate n none) j ≡ some (some m) → ⊥
  get-replicate zero j m h = cc
  get-replicate (suc n) zero m h = cc
  get-replicate (suc n) (suc j) m h = get-replicate n j m h

pub voters-replicate {ℓ} : (A : Type ℓ) (n : ℕ) → voters (replicate {A = Option A} n none) ≡ 0
unfolding voters
voters-replicate A zero = refl
voters-replicate A (suc n) = voters-replicate A n
