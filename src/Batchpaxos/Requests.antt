-- ===== src/Batchpaxos/Requests.antt =====
-- Which requests `ForEach` goes through (batchpaxos/batcher.go).
use goxos.Base.{
  ◌+◌, ◌-◌, ◌≤◌, ◌<◌, ◌≡◌, refl, sym, ap, ◌∙◌, false, Option, none, some, Option-cases, ℕ, subst,
  List, [], ◌∷◌, ◌++◌, leb, leb→le, arith, Bool-cases, inl, inr, map,
}
use goxos.Base.Outcome.{done}
use goxos.Base.Dict.{lookup}
use mathlib.Core.Path.{fun_ext}
use Prim.Native.String.{String}
use goxos.Paxos.Value.{Request}
use goxos.Batchpaxos.Batcher.{
  Batcher, ClientLogEntry, no_request, RangeMap, ClientRange, collect, range_fuel, range_of, word32,
  get_request, for_each_id, for_each, sorted_keys_range,
}
use goxos.Batchpaxos.Between.{between, collect-between, collect-past}

-- Every range ends below the last word.
abbrev pub IsBounded : RangeMap → Type 0
IsBounded ranges =
    (k : String) (rng : ClientRange) → lookup ranges k ≡ some rng → rng.stop + 1 < word32

-- The request that the log of a client holds for a sequence number, or the empty request.
abbrev held : Option Request → Request
held none = no_request
held (some req) = req

abbrev logged : Option ClientLogEntry → ℕ → Request
logged none seq = no_request
logged (some entry) seq = held (entry.values seq)

-- The requests of a range, from its start up to its end.
abbrev range_requests : Batcher → String → ClientRange → List Request
range_requests br id rng =
    map (logged (lookup br.c_log id)) (between (rng.stop + 1 - rng.start) rng.start)

get_request-logged : (br : Batcher) (id : String) → get_request br id ≡ logged (lookup br.c_log id)
unfolding get_request
get_request-logged br id = fun_ext (λ seq. elim (Option-cases (lookup br.c_log id)) [
  | inl e ↦ ground (arith, e)
  | inr (entry, e) ↦ elim (Option-cases (entry.values seq)) [
    | inl f ↦ ground (arith, e, f)
    | inr (req, f) ↦ ground (arith, e, f)
  ]
])

-- The range of a client, or that of sequence number 0.
abbrev span : Option ClientRange → ClientRange
span none = record { start = 0; stop = 0 }
span (some rng) = rng

range_of-span : (o : Option ClientRange) → range_of o ≡ span o
range_of-span none = refl
range_of-span (some rng) = refl

-- The requests of the ranges, client after client.
unfoldable pub requests_of : Batcher → RangeMap → List String → List Request
unfolding lookup between
requests_of br ranges [] = []
requests_of br ranges (id ∷ ids) =
    range_requests br id (span (lookup ranges id)) ++ requests_of br ranges ids

collect_requests :
    (br : Batcher) (id : String) (rng : ClientRange)
    → rng.stop + 1 < word32
    → collect range_fuel (get_request br id) rng.start rng.stop ≡ done (range_requests br id rng)
unfolding between
collect_requests br id rng h =
    subst
      (λ f.
        collect range_fuel f rng.start rng.stop
        ≡ done (map (logged (lookup br.c_log id)) (between (rng.stop + 1 - rng.start) rng.start)))
      (sym (get_request-logged br id))
      (elim (Bool-cases (leb rng.start (rng.stop + 1))) [
        | inl low ↦
            let low' : rng.start ≤ rng.stop + 1 = leb→le rng.start (rng.stop + 1) low in
            collect-between (logged (lookup br.c_log id)) (rng.stop + 1 - rng.start) range_fuel
              rng.start rng.stop h (omega (arith, low')) (omega arith)
        | inr high ↦
            let past : leb rng.start rng.stop ≡ false = ground arith in
            let none_left : rng.stop + 1 - rng.start ≡ 0 = ground arith in
            collect-past (logged (lookup br.c_log id)) range_fuel rng.start rng.stop past
              (omega arith)
            ∙ ap (λ n. done (map (logged (lookup br.c_log id)) (between n rng.start)))
                (sym none_left)
      ])

range_of-bounded :
    (o : Option ClientRange) (ranges : RangeMap) (k : String)
    → IsBounded ranges
    → lookup ranges k ≡ o
    → (range_of o).stop + 1 < word32
range_of-bounded none ranges k h e = omega arith
range_of-bounded (some rng) ranges k h e = h k rng e

for_each_id-requests_of :
    (br : Batcher) (ranges : RangeMap) (ids : List String)
    → IsBounded ranges
    → for_each_id br ranges ids ≡ done (requests_of br ranges ids)
unfolding for_each_id requests_of
for_each_id-requests_of br ranges [] h = refl
for_each_id-requests_of br ranges (id ∷ ids) h =
    rw
      (
        sym (range_of-span (lookup ranges id)),
        collect_requests br id (range_of (lookup ranges id))
            (range_of-bounded (lookup ranges id) ranges id h refl),
        for_each_id-requests_of br ranges ids h,
      )
      refl

pub for_each-requests_of :
    (br : Batcher) (ranges : RangeMap)
    → IsBounded ranges
    → for_each br ranges ≡ done (requests_of br ranges (sorted_keys_range ranges))
unfolding for_each
for_each-requests_of br ranges h = for_each_id-requests_of br ranges (sorted_keys_range ranges) h
