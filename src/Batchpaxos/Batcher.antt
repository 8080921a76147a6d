-- ===== src/Batchpaxos/Batcher.antt =====
-- The client log and the batches (batchpaxos/types.go, batchpaxos/batcher.go, batchpaxos/util.go).
-- Pointers to log entries are values, since the log alone holds them. A `uint32` is a natural number
-- with its wrap-around at 2 ^ 32 written out; a loop over a range has fuel for two rounds of it, and
-- with its last word as the end it goes on for ever, which is the outcome `diverge`.
use goxos.Base.{
  ℕ, zero, suc, ◌+◌, ◌-◌, ◌%◌, Bool, true, false, ◌||◌, Option, none, some, List, [], ◌∷◌, ◌++◌,
  length, ◌==◌, ltb, leb, if◌then◌else◌, inc, replicate,
}
use goxos.Base.Dict.{lookup, store}
use goxos.Base.Outcome.{Outcome, done, panic, diverge, ◌>>=◌}
use goxos.Paxos.Value.{Request, get_id, get_seq}
use Prim.Native.String.{String}
use Prim.Native.Char.{code}

-- `ClientLogEntry`
pub record ClientLogEntry : Type 0 where
  pub values : ℕ → Option Request
  pub highest_seen : ℕ

-- `ClientRange`
pub record ClientRange : Type 0 where
  pub start : ℕ
  pub stop : ℕ

-- `BatchPoint`, `RangeMap` and `UpdateValueMap`
abbrev pub BatchPoint : Type 0
BatchPoint = List (String × ℕ)

abbrev pub RangeMap : Type 0
RangeMap = List (String × ClientRange)

abbrev pub UpdateValueMap : Type 0
UpdateValueMap = List (String × List Request)

-- `Batch`
pub record Batch : Type 0 where
  pub id : ℕ
  pub hss : BatchPoint

-- `Batcher`
pub record Batcher : Type 0 where
  pub c_log : List (String × ClientLogEntry)
  pub batch_map : ℕ → Option Batch
  pub current_batch : ℕ

-- `NewBatcher`
abbrev pub new_batcher : Batcher
new_batcher = record { c_log = []; batch_map = λ k. none; current_batch = 0 }

abbrev new_entry : ClientLogEntry
new_entry = record { values = λ k. none; highest_seen = 0 }

abbrev entry_of : Option ClientLogEntry → ClientLogEntry
entry_of none = new_entry
entry_of (some entry) = entry

-- `GetLog`: an entry that is missing is put into the log.
unfoldable pub get_log : Batcher → String → Batcher × ClientLogEntry
unfolding lookup store
get_log br cid = elim (lookup br.c_log cid) [
  | none ↦ (record br { c_log = store br.c_log cid new_entry }, new_entry)
  | some entry ↦ (br, entry)
]

-- `clog.Values[seq] = req`
abbrev put_value : (ℕ → Option Request) → ℕ → Request → ℕ → Option Request
put_value values seq req j = if seq == j then some req else values j

-- `LogRequest`
unfoldable pub log_request : Batcher → Request → Batcher
unfolding get_log store
log_request br req =
    let (br', clog) = get_log br (get_id req) in
    record br' {
      c_log = store br'.c_log (get_id req) (record {
        values = put_value clog.values (get_seq req) req;
        highest_seen =
            if ltb clog.highest_seen (get_seq req) then get_seq req else clog.highest_seen;
      });
    }

-- `client.Request{}`
abbrev pub no_request : Request
no_request = record { type = none; id = none; seq = none; val = [] }

-- `GetRequest`
unfoldable pub get_request : Batcher → String → ℕ → Request
unfolding lookup
get_request br id seq = elim (lookup br.c_log id) [
  | none ↦ no_request
  | some clog ↦ elim (clog.values seq) [ none ↦ no_request | some val ↦ val ]
]

-- The number of words of a `uint32`, its increment, and enough fuel for a loop over a range.
abbrev pub word32 : ℕ
word32 = 4294967296

abbrev pub inc32 : ℕ → ℕ
inc32 i = if i == 4294967295 then 0 else i + 1

abbrev pub range_fuel : ℕ
range_fuel = 8589934593

-- `for i := rng.Start; i <= rng.Stop; i++` with a break at a request that is missing.
unfoldable pub is_complete : ℕ → (ℕ → Option Request) → ℕ → ℕ → Outcome Bool
is_complete zero values i stop = diverge
is_complete (suc fuel) values i stop = elim (leb i stop) [
  | false ↦ done true
  | true ↦ elim (values i) [ none ↦ done false | some req ↦ is_complete fuel values (inc32 i) stop ]
]

-- The same loop, with what its body makes of each sequence number.
unfoldable pub collect {ℓ} : {A : Type ℓ} → ℕ → (ℕ → A) → ℕ → ℕ → Outcome (List A)
collect zero body i stop = diverge
collect (suc fuel) body i stop = elim (leb i stop) [
  | false ↦ done []
  | true ↦ collect fuel body (inc32 i) stop >>= λ rest. done (body i ∷ rest)
]

-- `GetIncompleteRanges`
unfoldable pub get_incomplete_ranges : Batcher → RangeMap → Outcome (Batcher × RangeMap)
unfolding get_log is_complete
get_incomplete_ranges br [] = done (br, [])
get_incomplete_ranges br ((cid, rng) ∷ ranges) =
    let (br', log) = get_log br cid in
    is_complete range_fuel log.values rng.start rng.stop >>= λ complete.
    get_incomplete_ranges br' ranges >>= λ r. done (r.0, if complete then r.1 else (cid, rng) ∷ r.1)

-- `GetCurrentBatchPoint`
unfoldable pub current_batch_point : List (String × ClientLogEntry) → BatchPoint
current_batch_point [] = []
current_batch_point ((cid, entry) ∷ c_log) = (cid, entry.highest_seen) ∷ current_batch_point c_log

abbrev pub seq_of : Option ℕ → ℕ
seq_of none = 0
seq_of (some hs) = hs

-- `hs > prevhss[cid]` for some client
unfoldable pub has_grown : BatchPoint → BatchPoint → Bool
unfolding lookup
has_grown prevhss [] = false
has_grown prevhss ((cid, hs) ∷ hss) = ltb (seq_of (lookup prevhss cid)) hs || has_grown prevhss hss

-- `br.BatchMap[br.CurrentBatch] = batch`, and the increment.
abbrev pub put_batch : Batcher → BatchPoint → Batcher × Option Batch
put_batch br hss =
    let batch : Batch = record { id = br.current_batch; hss = hss } in
    (
      record br {
        batch_map = λ k. if br.current_batch == k then some batch else br.batch_map k;
        current_batch = inc br.current_batch;
      },
      some batch,
    )

-- `GetBatch`; a missing previous batch is a nil pointer.
unfoldable pub get_batch : Batcher → Outcome (Batcher × Option Batch)
unfolding current_batch_point has_grown
get_batch br =
    let hss = current_batch_point br.c_log in
    if length hss == 0
    then done (br, none)
    else if br.current_batch == 0
    then done (put_batch br hss)
    else elim (br.batch_map (br.current_batch - 1)) [
      | none ↦ panic
      | some prev ↦
          if ltb (length prev.hss) (length hss) || has_grown prev.hss hss
          then done (put_batch br hss)
          else done (br, none)
    ]

-- `make([]client.Request, rng.Stop-rng.Start+1)` and its loop: the length is a `uint32`, and the
-- first index panics if it wraps to 0; without a round of the loop the slice is as it was made.
unfoldable pub range_commands : Batcher → String → ClientRange → Outcome (List Request)
unfolding collect get_request
range_commands br cid rng =
    let len = (rng.stop + word32 - rng.start + 1) % word32 in
    if leb rng.start rng.stop
    then (if len == 0 then panic else collect range_fuel (get_request br cid) rng.start rng.stop)
    else done (replicate len no_request)

-- `GetClientCommands`
unfoldable pub get_client_commands : Batcher → RangeMap → Outcome UpdateValueMap
unfolding range_commands
get_client_commands br [] = done []
get_client_commands br ((cid, rng) ∷ ranges) = range_commands br cid rng >>= λ ccmds.
    get_client_commands br ranges >>= λ ret. done ((cid, ccmds) ∷ ret)

-- `SetClientCommands`
unfoldable pub log_requests : Batcher → List Request → Batcher
unfolding log_request
log_requests br [] = br
log_requests br (cmd ∷ cmds) = log_requests (log_request br cmd) cmds

unfoldable pub set_client_commands : Batcher → UpdateValueMap → Batcher
unfolding log_requests
set_client_commands br [] = br
set_client_commands br ((cid, cmds) ∷ cmdmap) = set_client_commands (log_requests br cmds) cmdmap

-- `sort.Strings`: the order of Go's strings, which is that of their characters' codes.
unfoldable pub str_before : String → String → Bool
str_before String.[] t = true
str_before (String.◌∷◌ c s) String.[] = false
str_before (String.◌∷◌ c s) (String.◌∷◌ d t) =
    let rest = str_before s t in if code c == code d then rest else ltb (code c) (code d)

unfoldable pub insert : String → List String → List String
unfolding str_before
insert s [] = s ∷ []
insert s (t ∷ ts) = let rest = insert s ts in if str_before s t then s ∷ t ∷ ts else t ∷ rest

-- `SortedKeysRange`
unfoldable pub sorted_keys_range : RangeMap → List String
unfolding insert
sorted_keys_range [] = []
sorted_keys_range ((cid, rng) ∷ m) = insert cid (sorted_keys_range m)

abbrev pub range_of : Option ClientRange → ClientRange
range_of none = record { start = 0; stop = 0 }
range_of (some rng) = rng

-- `ForEach`, whose callback sends a request on: the requests, in order.
unfoldable pub for_each_id : Batcher → RangeMap → List String → Outcome (List Request)
unfolding lookup collect get_request
for_each_id br ranges [] = done []
for_each_id br ranges (id ∷ ids) =
    let rng = range_of (lookup ranges id) in
    collect range_fuel (get_request br id) rng.start rng.stop >>= λ reqs.
    for_each_id br ranges ids >>= λ more. done (reqs ++ more)

unfoldable pub for_each : Batcher → RangeMap → Outcome (List Request)
unfolding for_each_id sorted_keys_range
for_each br ranges = for_each_id br ranges (sorted_keys_range ranges)
