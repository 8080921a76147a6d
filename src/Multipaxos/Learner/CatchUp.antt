-- ===== src/Multipaxos/Learner/CatchUp.antt =====
-- The learner's catch-up (multipaxos/learner.go): a lagging replica asks its leader for the slots
-- that it has not decided, and fills them from the answer.
use goxos.Base.{
  ℕ, ◌-◌, Bool, true, false, List, [], ◌∷◌, ◌++◌, if◌then◌else◌, inc, sub_uint, for_range,
}
use goxos.Grp.Id.{GrpId}
use goxos.Paxos.Msg.{RangeTuple, ResponseTuple, CatchUpRequest, CatchUpResponse}
use goxos.Paxos.Slots.{LearnerSlotMap, get_learner_slot, put_learner_slot}
use goxos.Multipaxos.Learner.{MultiLearner}

-- The variables of the loop of `getUndecSlots`.
pub record Undecided : Type 0 where
  pub slots : LearnerSlotMap
  pub ts : List RangeTuple
  pub t : RangeTuple
  pub start : Bool

abbrev pub no_range : RangeTuple
no_range = record { from = 0; to = 0 }

-- What the body of the loop does with a slot that is decided, or not.
unfoldable pub note_slot : Bool → ℕ → Undecided → Undecided
note_slot false i u = if u.start then u else record u { start = true; t = record u.t { from = i } }
note_slot true i u =
    if u.start
    then record u {
      ts = u.ts ++ record u.t { to = sub_uint i 1 } ∷ [];
      t = no_range;
      start = false;
    }
    else u

unfoldable pub undecided_round : ℕ → Undecided → Undecided
unfolding get_learner_slot note_slot
undecided_round i u =
    let (sm, slot) = get_learner_slot u.slots i in
    note_slot slot.decided i (record u { slots = sm })

-- `getUndecSlots`: the new slot map, and the ranges.
unfoldable pub get_undec_slots : LearnerSlotMap → ℕ → ℕ → LearnerSlotMap × List RangeTuple
unfolding undecided_round for_range
get_undec_slots slots next slot =
    let u =
      for_range (slot - next) next undecided_round
        (record { slots = slots; ts = []; t = no_range; start = false }) in
    (u.slots, if u.start then u.ts ++ record u.t { to = sub_uint slot 1 } ∷ [] else u.ts)

-- `genCatchUpReq`
unfoldable pub gen_catch_up_req : MultiLearner → ℕ → MultiLearner × CatchUpRequest × GrpId
unfolding get_undec_slots
gen_catch_up_req l slot =
    let (sm, rngs) = get_undec_slots l.slots l.next slot in
    (record l { slots = sm }, record { id = l.id; ranges = rngs }, l.leader)

-- The variables of the loops of `handleCUReq`.
pub record Answers : Type 0 where
  pub slots : LearnerSlotMap
  pub ts : List ResponseTuple

unfoldable pub answer_round : ℕ → Answers → Answers
unfolding get_learner_slot
answer_round i b =
    let (sm, slot) = get_learner_slot b.slots i in
    record {
      slots = sm;
      ts = if slot.decided then b.ts ++ record { slot = i; val = slot.learned_val } ∷ [] else b.ts;
    }

-- `for _, rng := range msg.Ranges { for i := rng.From; i < rng.To+1; i++ { … } }`
unfoldable pub answer_ranges : List RangeTuple → Answers → Answers
unfolding answer_round for_range
answer_ranges [] b = b
answer_ranges (rng ∷ rngs) b =
    answer_ranges rngs (for_range (inc rng.to - rng.from) rng.from answer_round b)

-- `handleCUReq`
unfoldable pub handle_cu_req :
    MultiLearner → CatchUpRequest → MultiLearner × CatchUpResponse × GrpId
unfolding answer_ranges
handle_cu_req l msg =
    let b = answer_ranges msg.ranges (record { slots = l.slots; ts = [] }) in
    (record l { slots = b.slots }, record { id = l.id; vals = b.ts }, msg.id)

-- One round of the loop of `handleCUResp`.
unfoldable pub fill_slot : LearnerSlotMap → ResponseTuple → LearnerSlotMap
unfolding get_learner_slot
fill_slot slots dec =
    let (sm, slot) = get_learner_slot slots dec.slot in
    if slot.learned
    then sm
    else put_learner_slot sm dec.slot (record slot { learned = true; learned_val = dec.val })

unfoldable pub fill_slots : LearnerSlotMap → List ResponseTuple → LearnerSlotMap
unfolding fill_slot
fill_slots slots [] = slots
fill_slots slots (dec ∷ decs) = fill_slots (fill_slot slots dec) decs

-- `handleCUResp`; the early return on an empty response changes nothing.
unfoldable pub handle_cu_resp : MultiLearner → CatchUpResponse → MultiLearner
unfolding fill_slots
handle_cu_resp l msg = record l { slots = fill_slots l.slots msg.vals }
