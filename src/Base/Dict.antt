-- ===== src/Base/Dict.antt =====
-- A Go map with string keys: an association list. A range over it takes the entries in the list's
-- order, which no theorem rests on.
use Prim.Native.String.{String}
use text.Mathlib.Text.{◌==◌ as str_eq}
use text.Mathlib.TextEquality.{eq_iff}
use mathlib.Core.Path.{◌≡◌, refl}
use mathlib.Core.Logic.{◌≢◌}
use mathlib.Core.Bool.{true, false}
use mathlib.Core.Option.{Option, none, some}
use mathlib.Core.List.{List, [], ◌∷◌}
use native.Mathlib.Omega.{arith}
use goxos.Base.Tests.{if◌then◌else◌}
pub use text.Mathlib.Text.{◌==◌ as str_eq}

module _ {ℓ} {V : Type ℓ} where
  -- `v, ok := m[k]`
  unfoldable pub lookup : List (String × V) → String → Option V
  lookup [] k = none
  lookup ((j, v) ∷ m) k = let rest = lookup m k in if str_eq j k then some v else rest

  -- `m[k] = v`
  unfoldable pub store : List (String × V) → String → V → List (String × V)
  store [] k v = (k, v) ∷ []
  store ((j, w) ∷ m) k v =
      let rest = store m k v in if str_eq j k then (k, v) ∷ m else (j, w) ∷ rest

  -- `delete(m, k)`
  unfoldable pub remove : List (String × V) → String → List (String × V)
  remove [] k = []
  remove ((j, w) ∷ m) k = let rest = remove m k in if str_eq j k then rest else (j, w) ∷ rest

  pub lookup-store :
      (m : List (String × V)) (k j : String) (v : V)
      → lookup (store m k v) j ≡ (if str_eq k j then some v else lookup m j)
  unfolding lookup store
  lookup-store [] k j v = refl
  lookup-store ((i, w) ∷ m) k j v =
      ground (arith, eq_iff k j, eq_iff i k, eq_iff i j, lookup-store m k j v)

  pub lookup-remove :
      (m : List (String × V)) (k j : String)
      → lookup (remove m k) j ≡ (if str_eq k j then none else lookup m j)
  unfolding lookup remove
  lookup-remove [] k j = ground arith
  lookup-remove ((i, w) ∷ m) k j =
      ground (arith, eq_iff k j, eq_iff i k, eq_iff i j, lookup-remove m k j)

pub str_eq_refl : (k : String) → str_eq k k ≡ true
str_eq_refl k = ground (arith, eq_iff k k)

pub str_eq_ne : (k j : String) → k ≢ j → str_eq k j ≡ false
str_eq_ne k j h = ground (arith, eq_iff k j)
