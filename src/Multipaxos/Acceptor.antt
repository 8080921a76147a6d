-- ===== src/Multipaxos/Acceptor.antt =====
-- The MultiPaxos acceptor (multipaxos/acceptor.go). A handler returns the new state and its
-- reply; `none` is a nil reply. A prepare's loop may not end (see `handle_prep`). The channels
-- are left out: what the loop of `Start` receives is an `Event`, what it sends an `Output`.
pub mod Invariant
pub mod Promises
pub mod Reports
pub mod Prepares
pub mod Votes
pub mod Steps
pub mod Runs
use goxos.Base.{
  ℕ, ◌+◌, ◌≡◌, Bool, true, false, not, ◌&&◌, ◌||◌, Option, none, some, List, [], ◌∷◌, ◌++◌,
  Ordering, replicate, ltb, leb, ◌==◌, eqb_ℤ, if◌then◌else◌, sub_uint, for_upto, no_entries,
}
use goxos.Base.Outcome.{Outcome, done, panic, ◌>>=◌}
use goxos.Grp.Id.{GrpId}
use goxos.Grp.NodeMap.{GrpMgr, epochs}
use goxos.Paxos.Round.{ProposerRound, zero_round, compare_round, is_lt, is_eq, is_gt, is_ge}
use goxos.Paxos.Msg.{AcceptorSlot, new_acceptor_slot, Prepare, Promise, Accept, Learn}
use goxos.Paxos.Slots.{
  AcceptorSlotMap, new_acceptor_slot_map, get_acceptor_slot, put_acceptor_slot,
  copy_acc_slot_map_range,
}

-- Which handlers the constructor chose.
pub data Variant : Type 0 where
  live_replacement async_reconfig regular : Variant

-- `type MultiAcceptor struct`
pub record MultiAcceptor : Type 0 where
  pub id : GrpId
  pub started : Bool
  pub startable : Bool
  pub processing : Bool
  pub leader : GrpId
  pub low_slot : ℕ
  pub slots : AcceptorSlotMap
  pub variant : Variant

-- The choice of handlers in `NewMultiAcceptor`.
abbrev pub variant_of : GrpMgr → Variant
variant_of g =
    if g.lr_enabled then live_replacement else if g.ar_enabled then async_reconfig else regular

-- `NewMultiAcceptor`, of the pack's `ID`, `RunAcc`, Paxos leader, `NextExpectedDcd` and `Gm`.
unfoldable pub new_multi_acceptor : GrpId → Bool → GrpId → ℕ → GrpMgr → MultiAcceptor
new_multi_acceptor id run_acc leader next_expected_dcd g = record {
  id = id;
  started = false;
  startable = run_acc;
  processing = false;
  leader = leader;
  low_slot = next_expected_dcd;
  slots = record new_acceptor_slot_map { max_seen = next_expected_dcd };
  variant = variant_of g;
}

-- What the loop over the slots changes: the slot map, by `GetSlot`, and the list.
pub record Scan : Type 0 where
  pub slots : AcceptorSlotMap
  pub acc_slots : List AcceptorSlot

-- `slot.VRnd.Compare(px.ZeroRound) > 0`
abbrev pub has_voted : AcceptorSlot → Bool
has_voted slot = is_gt (compare_round slot.v_rnd zero_round)

-- One round of the loop.
unfoldable pub collect_slot : ℕ → Scan → Scan
unfolding get_acceptor_slot
collect_slot i sc =
    let (sm, slot) = get_acceptor_slot sc.slots i in
    record {
      slots = sm;
      acc_slots = if has_voted slot then sc.acc_slots ++ slot ∷ [] else sc.acc_slots;
    }

-- `make([]px.AcceptorSlot, n)`: a slice of `n` zero slots, or a run-time panic where `n` exceeds
-- `limit`, the length that the runtime can allocate.
unfoldable pub make_slots : ℕ → ℕ → Outcome (List AcceptorSlot)
make_slots limit n = if leb n limit then done (replicate n (new_acceptor_slot 0)) else panic

-- `int(msg.Slot-max) >= 0`
abbrev pub is_ahead : ℕ → ℕ → Bool
is_ahead slot max = ltb (sub_uint slot max) 9223372036854775808

-- The slice before the loop: it is made with its length, so it starts with zero slots.
unfoldable pub make_acc_slots : ℕ → ℕ → ℕ → Outcome (List AcceptorSlot)
unfolding make_slots
make_acc_slots limit slot max =
    if is_ahead slot max then make_slots limit (sub_uint slot max) else done []

-- The loop over `[msg.Slot, max]`. For `max` below the last word it ends.
unfoldable pub collect : ℕ → AcceptorSlotMap → ℕ → Outcome Scan
unfolding collect_slot make_acc_slots for_upto
collect limit sm slot = make_acc_slots limit slot sm.max_seen >>= λ acc_slots.
    for_upto (sm.max_seen + 2) slot sm.max_seen collect_slot
      (record { slots = sm; acc_slots = acc_slots })

-- From the test of the round on, with the promise's epoch vector.
unfoldable pub answer_prepare :
    ℕ → List ℕ → MultiAcceptor → Prepare → Outcome (MultiAcceptor × Option (Promise × GrpId))
answer_prepare limit epoch_vector a msg =
    if is_ge (compare_round a.slots.rnd msg.c_rnd)
    then done (a, none)
    else (collect limit (record a.slots { rnd = msg.c_rnd }) msg.slot >>= λ sc. done (
      record a { slots = sc.slots },
      some (
        record {
          id = a.id;
          rnd = sc.slots.rnd;
          acc_slots = sc.acc_slots;
          epoch_vector = epoch_vector;
        },
        msg.id,
      ),
    ))

-- `handlePrep`
unfoldable pub handle_prep :
    ℕ → GrpMgr → MultiAcceptor → Prepare → Outcome (MultiAcceptor × Option (Promise × GrpId))
handle_prep limit g a msg = answer_prepare limit [] a msg

-- `handlePrepAr`
unfoldable pub handle_prep_ar :
    ℕ → GrpMgr → MultiAcceptor → Prepare → Outcome (MultiAcceptor × Option (Promise × GrpId))
handle_prep_ar limit g a msg =
    if msg.id.epoch == a.id.epoch then answer_prepare limit [] a msg else done (a, none)

-- `handlePrepLr`
unfoldable pub handle_prep_lr :
    ℕ → GrpMgr → MultiAcceptor → Prepare → Outcome (MultiAcceptor × Option (Promise × GrpId))
handle_prep_lr limit g a msg = answer_prepare limit (epochs g) a msg

-- From the test of the rounds on, with the learn's epoch vector.
unfoldable pub vote : List ℕ → MultiAcceptor → Accept → MultiAcceptor × Option Learn
unfolding get_acceptor_slot
vote epoch_vector a msg =
    let (sm, slot) = get_acceptor_slot a.slots msg.slot in
    if is_gt (compare_round sm.rnd msg.rnd) || is_eq (compare_round msg.rnd slot.v_rnd)
    then (record a { slots = sm }, none)
    else let rnd = if is_lt (compare_round sm.rnd msg.rnd) then msg.rnd else sm.rnd in
      let slot' = record slot { v_rnd = msg.rnd; v_val = msg.val } in
      (
        record a { slots = record (put_acceptor_slot sm msg.slot slot') { rnd = rnd } },
        some (record {
          id = a.id;
          slot = slot.id;
          rnd = rnd;
          val = msg.val;
          epoch_vector = epoch_vector;
        }),
      )

-- `if !a.processing { a.processing = true; … }`
abbrev pub mark_processing : MultiAcceptor → MultiAcceptor
mark_processing a = record a { processing = true }

-- `handleAcc`
unfoldable pub handle_acc : GrpMgr → MultiAcceptor → Accept → MultiAcceptor × Option Learn
handle_acc g a msg =
    let a' = mark_processing a in if ltb msg.slot a'.low_slot then (a', none) else vote [] a' msg

-- `handleAccAr`
unfoldable pub handle_acc_ar : GrpMgr → MultiAcceptor → Accept → MultiAcceptor × Option Learn
handle_acc_ar g a msg =
    let a' = mark_processing a in
    if ltb msg.slot a'.low_slot
    then (a', none)
    else if msg.id.epoch == a'.id.epoch
    then vote [] a' msg
    else (a', none)

-- `handleAccLr`
unfoldable pub handle_acc_lr : GrpMgr → MultiAcceptor → Accept → MultiAcceptor × Option Learn
handle_acc_lr g a msg =
    let a' = mark_processing a in
    if ltb msg.slot a'.low_slot then (a', none) else vote (epochs g) a' msg

-- The calls through the fields `handlePrepare` and `handleAccept`.
unfoldable pub handle_prepare :
    ℕ
    → Variant
    → GrpMgr
    → MultiAcceptor
    → Prepare
    → Outcome (MultiAcceptor × Option (Promise × GrpId))
unfolding handle_prep handle_prep_ar handle_prep_lr
handle_prepare limit live_replacement = handle_prep_lr limit
handle_prepare limit async_reconfig = handle_prep_ar limit
handle_prepare limit regular = handle_prep limit

unfoldable pub handle_accept :
    Variant → GrpMgr → MultiAcceptor → Accept → MultiAcceptor × Option Learn
unfolding handle_acc handle_acc_ar handle_acc_lr
handle_accept live_replacement = handle_acc_lr
handle_accept async_reconfig = handle_acc_ar
handle_accept regular = handle_acc

-- `SetState`, `SetLowSlot`
abbrev pub set_state : MultiAcceptor → AcceptorSlotMap → MultiAcceptor
set_state a slots = record a { slots = slots }

abbrev pub set_low_slot : MultiAcceptor → ℕ → MultiAcceptor
set_low_slot a slot = record a { low_slot = slot }

-- The map that `handleStateRequest` sends. The caller reads it before it closes `release`.
unfoldable pub state_reply : MultiAcceptor → ℕ → Outcome AcceptorSlotMap
unfolding copy_acc_slot_map_range
state_reply a after = copy_acc_slot_map_range after (some a.slots)

-- The map that `handleSlotRequest` sends.
unfoldable pub slot_reply : MultiAcceptor → AcceptorSlotMap
slot_reply a = record new_acceptor_slot_map { max_seen = a.slots.max_seen; rnd = a.slots.rnd }

-- What the loop of `Start` receives. A state request carries the group manager as it is when the
-- caller has closed `release`.
pub data Event : Type 0 where
  prepare : Prepare → Event
  accept : Accept → Event
  trust : GrpId → Event
  state_request : ℕ → GrpMgr → Event
  slot_request : Event
  stop : Event

-- What it sends.
pub data Output : Type 0 where
  send : Promise → GrpId → Output
  broadcast : Learn → Output
  respond : AcceptorSlotMap → Output

abbrev pub sent : Option (Promise × GrpId) → List Output
sent none = []
sent (some (p, dest)) = send p dest ∷ []

abbrev pub cast : Option Learn → List Output
cast none = []
cast (some l) = broadcast l ∷ []

-- One round of the `select` of `Start`.
unfoldable pub step : ℕ → GrpMgr → MultiAcceptor → Event → Outcome (MultiAcceptor × List Output)
unfolding handle_prepare handle_accept state_reply slot_reply
step limit g a (prepare msg) = handle_prepare limit a.variant g a msg >>= λ r. done (r.0, sent r.1)
step limit g a (accept msg) = let (a', l) = handle_accept a.variant g a msg in done (a', cast l)
step limit g a (trust id) = done (record a { leader = id }, [])
step limit g a (state_request after released) =
    state_reply a after >>= λ m. done (record a { id = released.id }, respond m ∷ [])
step limit g a slot_request = done (a, respond (slot_reply a) ∷ [])
step limit g a stop = done (record a { started = false }, [])
