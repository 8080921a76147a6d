-- ===== src/Batchpaxos/Keys.antt =====
-- Maps of the batches (batchpaxos/types.go): each key once, and what the range maps and the grown
-- batch point hold under a key (batchpaxos/batchpoint.go).
use goxos.Base.{
  ◌≡◌, refl, ap, subst, ◌∙◌, true, false, Option, none, some, List, [], ◌∷◌, Bool-cases, inl, inr,
}
use goxos.Base.Dict.{lookup, str_eq}
use Prim.Native.String.{String}
use text.Mathlib.TextEquality.{eq_iff}
use goxos.Batchpaxos.Batcher.{BatchPoint, ClientRange}
use goxos.Batchpaxos.Point.{
  make_range_map1, range_after, add_range, make_range_map2, greater, grown_point,
}

-- Each key once.
pub data Keyed {ℓ} {V : Type ℓ} : List (String × V) → Type ℓ where
  empty : Keyed []
  entry :
      {k : String} {v : V} {m : List (String × V)}
      → lookup m k ≡ none
      → Keyed m
      → Keyed ((k, v) ∷ m)

abbrev pub both {ℓ κ} : {A : Type ℓ} {B : Type κ} → Option A → (A → Option B) → Option B
both none f = none
both (some a) f = f a

pub lookup-make_range_map1 :
    (bp : BatchPoint) (k : String)
    → lookup (make_range_map1 bp) k
      ≡ both (lookup bp k) (λ hs. some (record { start = 0; stop = hs }))
unfolding lookup make_range_map1
lookup-make_range_map1 [] k = refl
lookup-make_range_map1 ((cid, hs) ∷ bp) k = elim (Bool-cases (str_eq cid k)) [
  | inl same ↦ rw (same) refl
  | inr other ↦ rw (other) (lookup-make_range_map1 bp k)
]

pub lookup-grown_point :
    (last nbp : BatchPoint) (k : String)
    → lookup (grown_point last nbp) k
      ≡ both (lookup nbp k) (λ hs. some (greater (lookup last k) hs))
unfolding lookup grown_point
lookup-grown_point last [] k = refl
lookup-grown_point last ((cid, hs) ∷ nbp) k = elim (Bool-cases (str_eq cid k)) [
  | inl same ↦ rw (same, (eq_iff cid k).0 same) refl
  | inr other ↦ rw (other) (lookup-grown_point last nbp k)
]

pub lookup-make_range_map2 :
    (bp1 bp2 : BatchPoint) (k : String)
    → Keyed bp2
    → lookup (make_range_map2 bp1 bp2) k ≡ both (lookup bp2 k) (range_after (lookup bp1 k))
unfolding lookup make_range_map2
lookup-make_range_map2 bp1 [] k keyed = refl
lookup-make_range_map2 bp1 ((cid, hs) ∷ bp2) k (Keyed.entry new keyed) =
    elim (Bool-cases (str_eq cid k)) [
      | inl same ↦
          let e : cid ≡ k = (eq_iff cid k).0 same in
          let rest : lookup (make_range_map2 bp1 bp2) k ≡ none =
            lookup-make_range_map2 bp1 bp2 k keyed
            ∙ ap (λ o. both o (range_after (lookup bp1 k)))
                (subst (λ x. lookup bp2 x ≡ none) e new) in
          rw (same) (
            at_key (range_after (lookup bp1 cid) hs) same rest
            ∙ ap (λ x. range_after (lookup bp1 x) hs) e)
      | inr other ↦ rw (other) (
          past_key (range_after (lookup bp1 cid) hs) other ∙ lookup-make_range_map2 bp1 bp2 k keyed)
    ]
  where
    at_key :
        (o : Option ClientRange)
        → str_eq cid k ≡ true
        → lookup (make_range_map2 bp1 bp2) k ≡ none
        → lookup (add_range cid o (make_range_map2 bp1 bp2)) k ≡ o
    at_key none same rest = rest
    at_key (some rng) same rest = rw (same) refl

    past_key :
        (o : Option ClientRange)
        → str_eq cid k ≡ false
        → lookup (add_range cid o (make_range_map2 bp1 bp2)) k ≡ lookup (make_range_map2 bp1 bp2) k
    past_key none other = refl
    past_key (some rng) other = rw (other) refl

pub grown_point-Keyed : (last nbp : BatchPoint) → Keyed nbp → Keyed (grown_point last nbp)
unfolding grown_point
grown_point-Keyed last [] keyed = Keyed.empty
grown_point-Keyed last ((cid, hs) ∷ nbp) (Keyed.entry new keyed) =
    Keyed.entry
      (lookup-grown_point last nbp cid
        ∙ ap (λ o. both o (λ hs. some (greater (lookup last cid) hs))) new)
      (grown_point-Keyed last nbp keyed)
