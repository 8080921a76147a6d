-- ===== src/Batchpaxos/Counts.antt =====
-- How many learns know a client (the first loop of `Intersect` in batchpaxos/quorum.go).
use goxos.Base.{
  ℕ, zero, suc, ◌+◌, ◌≡◌, refl, ap, subst, ◌∙◌, Bool, true, false, Option, none, some, List, [],
  ◌∷◌, ◌==◌, if◌then◌else◌, arith, Bool-cases, ◌⊎◌, inl, inr, length, All,
}
use goxos.Base.Dict.{lookup, store, lookup-store, str_eq}
use Prim.Native.String.{String}
use text.Mathlib.TextEquality.{eq_iff}
use goxos.Batchpaxos.Batcher.{BatchPoint, seq_of}
use goxos.Batchpaxos.Quorum.{BatchLearnMsg, count_clients, count_learns, mins_of, find_min}
use goxos.Batchpaxos.Keys.{Keyed, both}

str_eq_flip : (j k : String) → str_eq j k ≡ false → str_eq k j ≡ false
str_eq_flip j k h = ground (arith, eq_iff j k, eq_iff k j)

-- A map after a write has each key once.
pub store-Keyed : (m : List (String × ℕ)) (k : String) (v : ℕ) → Keyed m → Keyed (store m k v)
unfolding store lookup
store-Keyed [] k v keyed = Keyed.entry refl Keyed.empty
store-Keyed ((j, w) ∷ m) k v (Keyed.entry new keyed) = elim (Bool-cases (str_eq j k)) [
  | inl same ↦
      rw (same) (Keyed.entry (subst (λ x. lookup m x ≡ none) ((eq_iff j k).0 same) new) keyed)
  | inr other ↦ rw (other) (
      Keyed.entry (lookup-store m k j v ∙ rw (str_eq_flip j k other) new) (store-Keyed m k v keyed))
]

abbrev counted : Option ℕ → Option ℕ → Option ℕ
counted none o = o
counted (some hs) o = some (seq_of o + 1)

lookup-count_clients :
    (hss : BatchPoint) (count : List (String × ℕ)) (k : String)
    → Keyed hss
    → lookup (count_clients hss count) k ≡ counted (lookup hss k) (lookup count k)
unfolding count_clients lookup
lookup-count_clients [] count k keyed = refl
lookup-count_clients ((cid, hs) ∷ hss) count k (Keyed.entry new keyed) =
    lookup-count_clients hss (store count cid (seq_of (lookup count cid) + 1)) k keyed
    ∙ ap (counted (lookup hss k)) (lookup-store count cid k (seq_of (lookup count cid) + 1))
    ∙ at_key (Bool-cases (str_eq cid k))
  where
    at_key :
        (str_eq cid k ≡ true) ⊎ (str_eq cid k ≡ false)
        → counted
            (lookup hss k)
            (if str_eq cid k then some (seq_of (lookup count cid) + 1) else lookup count k)
          ≡ counted (if str_eq cid k then some hs else lookup hss k) (lookup count k)
    at_key (inl same) =
        let e : cid ≡ k = (eq_iff cid k).0 same in
        rw (same, subst (λ x. lookup hss x ≡ none) e new, e) refl
    at_key (inr other) = rw (other) refl

count_clients-Keyed :
    (hss : BatchPoint) (count : List (String × ℕ)) → Keyed count → Keyed (count_clients hss count)
unfolding count_clients
count_clients-Keyed [] count keyed = keyed
count_clients-Keyed ((cid, hs) ∷ hss) count keyed =
    count_clients-Keyed hss (store count cid (seq_of (lookup count cid) + 1))
      (store-Keyed count cid (seq_of (lookup count cid) + 1) keyed)

pub count_learns-Keyed :
    (msgs : List BatchLearnMsg) (count : List (String × ℕ))
    → Keyed count
    → Keyed (count_learns msgs count)
unfolding count_learns
count_learns-Keyed [] count keyed = keyed
count_learns-Keyed (msg ∷ msgs) count keyed =
    count_learns-Keyed msgs (count_clients msg.hss count) (count_clients-Keyed msg.hss count keyed)

-- How many of the messages have the client.
abbrev has_client : Option ℕ → ℕ → ℕ
has_client none n = n
has_client (some hs) n = suc n

unfoldable pub holders : List BatchLearnMsg → String → ℕ
unfolding lookup
holders [] k = 0
holders (msg ∷ msgs) k = has_client (lookup msg.hss k) (holders msgs k)

abbrev pub raised : ℕ → Option ℕ → Option ℕ
raised zero o = o
raised (suc n) o = some (suc n + seq_of o)

raised-counted : (n : ℕ) (l o : Option ℕ) → raised n (counted l o) ≡ raised (has_client l n) o
raised-counted n none o = refl
raised-counted zero (some hs) o = ap some (omega arith)
raised-counted (suc n) (some hs) o = ap some (omega arith)

pub lookup-count_learns :
    (msgs : List BatchLearnMsg) (count : List (String × ℕ)) (k : String)
    → All (λ msg. Keyed msg.hss) msgs
    → lookup (count_learns msgs count) k ≡ raised (holders msgs k) (lookup count k)
unfolding count_learns holders
lookup-count_learns [] count k h = refl
lookup-count_learns (msg ∷ msgs) count k h =
    lookup-count_learns msgs (count_clients msg.hss count) k h.1
    ∙ ap (raised (holders msgs k)) (lookup-count_clients msg.hss count k h.0)
    ∙ raised-counted (holders msgs k) (lookup msg.hss k) (lookup count k)

-- The loop over the counts keeps the clients that every learn has.
pub lookup-mins_of :
    (learns : List BatchLearnMsg) (count : List (String × ℕ)) (k : String)
    → Keyed count
    → lookup (mins_of learns count) k
      ≡ both (lookup count k) (λ ct. if ct == length learns then some (find_min learns k) else none)
unfolding mins_of lookup
lookup-mins_of learns [] k keyed = refl
lookup-mins_of learns ((cid, ct) ∷ count) k (Keyed.entry new keyed) =
    elim (Bool-cases (str_eq cid k)) [
      | inl same ↦
          let e : cid ≡ k = (eq_iff cid k).0 same in
          rw (same) (
            at_key same e
              (lookup-mins_of learns count k keyed
                ∙ ap (λ o. both o kept) (subst (λ x. lookup count x ≡ none) e new))
              (ct == length learns))
      | inr other ↦
          rw (other) (past_key other (ct == length learns) ∙ lookup-mins_of learns count k keyed)
    ]
  where
    kept : ℕ → Option ℕ
    kept n = if n == length learns then some (find_min learns k) else none

    at_key :
        str_eq cid k ≡ true
        → cid ≡ k
        → lookup (mins_of learns count) k ≡ none
        → (b : Bool)
        → lookup
            (if b then (cid, find_min learns cid) ∷ mins_of learns count else mins_of learns count)
            k
          ≡ (if b then some (find_min learns k) else none)
    at_key same e rest true = rw (same, e) refl
    at_key same e rest false = rest

    past_key :
        str_eq cid k ≡ false
        → (b : Bool)
        → lookup
            (if b then (cid, find_min learns cid) ∷ mins_of learns count else mins_of learns count)
            k
          ≡ lookup (mins_of learns count) k
    past_key other true = rw (other) refl
    past_key other false = refl
