-- ===== src/Batchpaxos/Order.antt =====
-- The order in which the clients of a range map are gone through (`SortedKeysRange` of
-- batchpaxos/batcher.go): each once, in the order of their names.
use goxos.Base.{
  ◌≡◌, refl, true, false, List, [], ◌∷◌, ◌⊎◌, inl, inr, ◌<◌, map, ◌==◌, ==_iff, arith, Bool-cases,
  All, All-mono,
}
use mathlib.Core.List.{Permᴰ}
use mathlib.Core.List.Permᴰ
use Prim.Native.String.{String}
use Prim.Native.Char.{code}
use goxos.Batchpaxos.Batcher.{RangeMap, str_before, insert, sorted_keys_range}

-- The order of words in a dictionary, letter by letter by their codes.
abbrev pub Before : String → String → Type 0
Before String.[] t = Unit
Before (String.◌∷◌ c s) String.[] = ⊥
Before (String.◌∷◌ c s) (String.◌∷◌ d t) = (code c < code d) ⊎ ((code c ≡ code d) × Before s t)

Before-of_test : (s t : String) → str_before s t ≡ true → Before s t
unfolding str_before
Before-of_test String.[] t h = tt
Before-of_test (String.◌∷◌ c s) String.[] h = cc
Before-of_test (String.◌∷◌ c s) (String.◌∷◌ d t) h = elim (Bool-cases (code c == code d)) [
  | inl same ↦ inr ((==_iff (code c) (code d)).0 same, Before-of_test s t (ground arith))
  | inr other ↦ inl (ground arith)
]

Before-of_not : (s t : String) → str_before s t ≡ false → Before t s
unfolding str_before
Before-of_not String.[] t h = cc
Before-of_not (String.◌∷◌ c s) String.[] h = tt
Before-of_not (String.◌∷◌ c s) (String.◌∷◌ d t) h = elim (Bool-cases (code c == code d)) [
  | inl same ↦ inr (ground arith, Before-of_not s t (ground arith))
  | inr other ↦ inl (ground arith)
]

Before-trans : (s t u : String) → Before s t → Before t u → Before s u
Before-trans String.[] t u h k = tt
Before-trans (String.◌∷◌ c s) String.[] u h k = absurd h
Before-trans (String.◌∷◌ c s) (String.◌∷◌ d t) String.[] h k = absurd k
Before-trans (String.◌∷◌ c s) (String.◌∷◌ d t) (String.◌∷◌ e u) (inl h) (inl k) = inl (omega arith)
Before-trans (String.◌∷◌ c s) (String.◌∷◌ d t) (String.◌∷◌ e u) (inl h) (inr (k, _)) =
    inl (omega arith)
Before-trans (String.◌∷◌ c s) (String.◌∷◌ d t) (String.◌∷◌ e u) (inr (h, _)) (inl k) =
    inl (omega arith)
Before-trans (String.◌∷◌ c s) (String.◌∷◌ d t) (String.◌∷◌ e u) (inr (h, hs)) (inr (k, ks)) =
    inr (omega arith, Before-trans s t u hs ks)

abbrev pub Ascending : List String → Type 0
Ascending [] = Unit
Ascending (s ∷ ss) = All (Before s) ss × Ascending ss

All-insert :
    (P : String → Type 0) (s : String) (ts : List String) → P s → All P ts → All P (insert s ts)
unfolding insert
All-insert P s [] p ps = (p, tt)
All-insert P s (t ∷ ts) p ps = elim (Bool-cases (str_before s t)) [
  | inl first ↦ rw (first, insert) (p, ps)
  | inr later ↦ rw (later, insert) (ps.0, All-insert P s ts p ps.1)
]

insert-Ascending : (s : String) (ts : List String) → Ascending ts → Ascending (insert s ts)
unfolding insert
insert-Ascending s [] a = (tt, tt)
insert-Ascending s (t ∷ ts) a = elim (Bool-cases (str_before s t)) [
  | inl first ↦
      let b = Before-of_test s t first in
      rw (first, insert)
        ((b, All-mono (Before t) (Before s) ts (λ u h. Before-trans s t u b h) a.0), a)
  | inr later ↦
      rw (later, insert)
        (All-insert (Before t) s ts (Before-of_not s t later) a.0, insert-Ascending s ts a.1)
]

insert-Permᴰ : (s : String) (ts : List String) → Permᴰ (insert s ts) (s ∷ ts)
unfolding insert
insert-Permᴰ s [] = Permᴰ.cons refl Permᴰ.nil
insert-Permᴰ s (t ∷ ts) = elim (Bool-cases (str_before s t)) [
  | inl first ↦ rw (first, insert) (Permᴰ.refl (s ∷ t ∷ ts))
  | inr later ↦
      rw (later, insert) (Permᴰ.trans (Permᴰ.cons refl (insert-Permᴰ s ts)) (Permᴰ.swap refl refl))
]

-- The clients of a range map, each as often as it is a key, in the order of their names.
pub record IsOrder (ranges : RangeMap) (ids : List String) : Type 0 where
  pub keys : Permᴰ ids (map (λ e. e.0) ranges)
  pub ascending : Ascending ids

pub sorted_keys_range-IsOrder : (ranges : RangeMap) → IsOrder ranges (sorted_keys_range ranges)
unfolding sorted_keys_range
sorted_keys_range-IsOrder [] = record { keys = Permᴰ.nil; ascending = tt }
sorted_keys_range-IsOrder ((cid, rng) ∷ m) =
    let o = sorted_keys_range-IsOrder m in
    record {
      keys = Permᴰ.trans (insert-Permᴰ cid (sorted_keys_range m)) (Permᴰ.cons refl o.keys);
      ascending = insert-Ascending cid (sorted_keys_range m) o.ascending;
    }
