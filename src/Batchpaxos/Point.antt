-- ===== src/Batchpaxos/Point.antt =====
-- The batch points of the leader (batchpaxos/batchpoint.go).
use goxos.Base.{
  ℕ, ◌-◌, Bool, true, false, ◌||◌, Option, none, some, List, [], ◌∷◌, ◌++◌, length, ◌==◌, ltb,
  get_elem?, if◌then◌else◌,
}
use goxos.Base.Dict.{lookup}
use Prim.Native.String.{String}
use goxos.Batchpaxos.Batcher.{BatchPoint, RangeMap, ClientRange, inc32}

-- `BatchPointer`
pub record BatchPointer : Type 0 where
  pub batch_points : List BatchPoint

-- `NewBatchPointer`
abbrev pub new_batch_pointer : BatchPointer
new_batch_pointer = record { batch_points = [] }

-- `makeRangeMap1`
unfoldable pub make_range_map1 : BatchPoint → RangeMap
make_range_map1 [] = []
make_range_map1 ((cid, hs) ∷ bp) = (cid, record { start = 0; stop = hs }) ∷ make_range_map1 bp

-- `makeRangeMap2`: one client of the second batch point, and the loop.
abbrev pub range_after : Option ℕ → ℕ → Option ClientRange
range_after none hs = some (record { start = 0; stop = hs })
range_after (some phs) hs =
    if ltb phs hs then some (record { start = inc32 phs; stop = hs }) else none

abbrev pub add_range : String → Option ClientRange → RangeMap → RangeMap
add_range cid none rm = rm
add_range cid (some rng) rm = (cid, rng) ∷ rm

unfoldable pub make_range_map2 : BatchPoint → BatchPoint → RangeMap
unfolding lookup
make_range_map2 bp1 [] = []
make_range_map2 bp1 ((cid, hs) ∷ bp2) =
    add_range cid (range_after (lookup bp1 cid) hs) (make_range_map2 bp1 bp2)

-- What the loop of `TryBatchPoint` puts under a client, and whether that is new.
abbrev pub greater : Option ℕ → ℕ → ℕ
greater none hs = hs
greater (some phs) hs = if ltb phs hs then hs else phs

abbrev pub is_greater : Option ℕ → ℕ → Bool
is_greater none hs = true
is_greater (some phs) hs = ltb phs hs

unfoldable pub grown_point : BatchPoint → BatchPoint → BatchPoint
unfolding lookup
grown_point last [] = []
grown_point last ((cid, hs) ∷ nbp) = (cid, greater (lookup last cid) hs) ∷ grown_point last nbp

unfoldable pub any_greater : BatchPoint → BatchPoint → Bool
unfolding lookup
any_greater last [] = false
any_greater last ((cid, hs) ∷ nbp) = is_greater (lookup last cid) hs || any_greater last nbp

-- `bp.BatchPoints[len(bp.BatchPoints)-1]`
unfoldable pub last_point : List BatchPoint → Option BatchPoint
last_point bps = if length bps == 0 then none else get_elem? bps (length bps - 1)

-- `TryBatchPoint`: the ranges, if a batch point is done.
unfoldable pub try_batch_point : BatchPointer → BatchPoint → BatchPointer × Option RangeMap
unfolding last_point make_range_map1 make_range_map2 grown_point any_greater
try_batch_point bp nbp = elim (last_point bp.batch_points) [
  | none ↦
      if ltb 0 (length nbp)
      then (record { batch_points = bp.batch_points ++ (nbp ∷ []) }, some (make_range_map1 nbp))
      else (bp, none)
  | some last ↦
      if any_greater last nbp
      then (
        record { batch_points = bp.batch_points ++ (grown_point last nbp ∷ []) },
        some (make_range_map2 last (grown_point last nbp)),
      )
      else (bp, none)
]
