-- ===== src/Multipaxos/Learner.antt =====
-- The MultiPaxos learner (multipaxos/learner.go), with the handlers that it has without live
-- replacement; Live has the counting of learns under it. The program keeps both in one struct, and
-- its constructor picks one set of handlers. A handler that writes to a slot returns the new
-- learner; an index out of range or a call of `panic` is the outcome `panic`.
pub mod CatchUp
pub mod Loop
pub mod Slots
pub mod Advance
pub mod Facts
pub mod Learning
pub mod Delivery
pub mod Runs
pub mod Quorum
pub mod Live
use goxos.Base.{
  ℕ, zero, suc, ◌+◌, ◌-◌, ◌≡◌, Bool, true, false, not, ◌&&◌, ◌||◌, Option, none, some, List, [],
  ◌∷◌, ◌++◌, Ordering, replicate, length, ltb, leb, ◌==◌, if◌then◌else◌, inc, sub_uint, for_range,
  ℤ, pos, negsuc, index, set,
}
use goxos.Base.Outcome.{Outcome, done, panic, diverge, ◌>>=◌, or_panic}
use goxos.Grp.Id.{GrpId, id_eq}
use goxos.Grp.NodeMap.{GrpMgr, quorum, nr_of_nodes}
use goxos.Paxos.Round.{ProposerRound, compare_round}
use goxos.Paxos.Value.{Value}
use goxos.Paxos.Msg.{Learn, RangeTuple, ResponseTuple, CatchUpRequest, CatchUpResponse}
use goxos.Paxos.Slots.{
  LearnerSlot, LearnerSlotMap, new_learner_slot_map, get_learner_slot, put_learner_slot,
}

-- `type MultiLearner struct`, less the slots of live replacement.
pub record MultiLearner : Type 0 where
  pub id : GrpId
  pub startable : Bool
  pub started : Bool
  pub leader : GrpId
  pub slots : LearnerSlotMap
  pub next : ℕ
  pub catch_up_in_progress : Bool

-- `NewMultiLearner`, of the pack's `ID`, `RunLrn`, Paxos leader and `NextExpectedDcd`.
unfoldable pub new_multi_learner : GrpId → Bool → GrpId → ℕ → MultiLearner
new_multi_learner id run_lrn leader next_expected_dcd = record {
  id = id;
  startable = run_lrn;
  started = false;
  leader = leader;
  slots = new_learner_slot_map;
  next = next_expected_dcd;
  catch_up_in_progress = false;
}

-- `slot.Learns[id] = msg`, the index being in range.
abbrev pub set_learn : List (Option Learn) → ℤ → Learn → List (Option Learn)
set_learn learns (pos i) msg = set learns i (some msg)
set_learn learns (negsuc i) msg = learns

-- The second case of the switch resets the slot for the message's round.
abbrev pub reset_slot : GrpMgr → LearnerSlot → Learn → LearnerSlot
reset_slot g slot msg = record slot {
  rnd = msg.rnd;
  learns = replicate (nr_of_nodes g) none;
  votes = 0;
}

-- The third case: count the learn, unless the replica's is there.
unfoldable pub count_learn :
    GrpMgr → LearnerSlot → Learn → Outcome (LearnerSlot × Option (Value × ℕ))
count_learn g slot msg = or_panic (index slot.learns msg.id.paxos_id) >>= λ old. elim old [
  | some _ ↦ done (slot, none)
  | none ↦
      let slot' = record slot {
        votes = inc slot.votes;
        learns = set_learn slot.learns msg.id.paxos_id msg;
      } in
      done (slot', if leb (quorum g) slot'.votes then some (msg.val, slot'.id) else none)
]

-- The switch of `handleLrn` on a slot that is not learned.
unfoldable pub learn_slot :
    GrpMgr → LearnerSlot → Learn → Outcome (LearnerSlot × Option (Value × ℕ))
learn_slot g slot msg = elim (compare_round slot.rnd msg.rnd) [
  | Ordering.gt ↦ done (slot, none)
  | Ordering.lt ↦ count_learn g (reset_slot g slot msg) msg
  | Ordering.eq ↦ count_learn g slot msg
]

-- `handleLrn`; a nil value is `none`.
unfoldable pub handle_lrn :
    GrpMgr → MultiLearner → Learn → Outcome (MultiLearner × Option (Value × ℕ))
unfolding get_learner_slot
handle_lrn g l msg =
    let (sm, slot) = get_learner_slot l.slots msg.slot in
    if slot.learned
    then done (record l { slots = sm }, none)
    else (learn_slot g slot msg >>= λ r.
        done (record l { slots = put_learner_slot sm msg.slot r.0 }, r.1))

-- What `learnVal` returns: `advance`, `startcu` with its slot, or neither.
pub data Verdict : Type 0 where
  wait advance : Verdict
  start_cu : ℕ → Verdict

-- `learnVal`
unfoldable pub learn_val : MultiLearner → Option (Value × ℕ) → Outcome (MultiLearner × Verdict)
unfolding get_learner_slot
learn_val l none = done (l, wait)
learn_val l (some (val, slot_id)) =
    let (sm, slot) = get_learner_slot l.slots slot_id in
    let slot' = record slot { learned = true; learned_val = val } in
    let l' = record l { slots = put_learner_slot sm slot_id slot' } in
    if slot'.id == l.next
    then done (l', advance)
    else if ltb l.next slot'.id
    then done (l', start_cu slot'.id)
    else panic

-- `adv`
unfoldable pub adv : MultiLearner → MultiLearner × Option (Value × ℕ)
unfolding get_learner_slot
adv l =
    let (sm, slot) = get_learner_slot l.slots l.next in
    if slot.learned && not slot.decided
    then (
      record l { slots = put_learner_slot sm l.next (record slot { decided = true }) },
      some (slot.learned_val, l.next),
    )
    else (record l { slots = sm }, none)

-- `for dcdVal, slotID := l.advance(); dcdVal != nil; … { l.dcdChan <- dcdVal; l.next = slotID + 1 }`
-- on fuel: the values that are sent, in order.
unfoldable pub advance_all : ℕ → MultiLearner → Outcome (MultiLearner × List Value)
advance_all zero l = diverge
advance_all (suc fuel) l =
    let (l', dcd) = adv l in
    elim dcd [
      | none ↦ done (l', [])
      | some (val, slot_id) ↦
          advance_all fuel (record l' { next = inc slot_id }) >>= λ r. done (r.0, val ∷ r.1)
    ]
