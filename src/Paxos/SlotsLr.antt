-- ===== src/Paxos/SlotsLr.antt =====
-- The learner's slots under live replacement (paxos/lslots.go).
use goxos.Base.{
  ℕ, Bool, false, true, if◌then◌else◌, none, some, List, [], Table, no_entries, insert,
}
use goxos.Grp.Id.{GrpId, id_eq}
use goxos.Paxos.Round.{ProposerRound, zero_round}
use goxos.Paxos.Value.{Value, zero_value}
use goxos.Paxos.Msg.{Learn}
use goxos.Paxos.Slots.{raise_max}

-- `make(map[grp.ID]bool)`, and `voted[id] = true`
abbrev pub nobody : GrpId → Bool
nobody id = false

abbrev pub mark : (GrpId → Bool) → GrpId → GrpId → Bool
mark voted id j = if id_eq id j then true else voted j

-- `type LearnerLrSlot struct`
pub record LearnerLrSlot : Type 0 where
  pub id : ℕ
  pub learned : Bool
  pub rnd : ProposerRound
  pub learns : List Learn
  pub votes : ℕ
  pub voted : GrpId → Bool
  pub learned_val : Value
  pub decided : Bool
  pub check_vq : Bool

-- `type LearnerLrSlotMap struct`
pub record LearnerLrSlotMap : Type 0 where
  pub slots : Table LearnerLrSlot
  pub max_seen : ℕ

-- `NewLearnerLrSlotMap`
abbrev pub new_learner_lr_slot_map : LearnerLrSlotMap
new_learner_lr_slot_map = record { slots = no_entries; max_seen = 0 }

-- `LearnerLrSlot{ID: id, Voted: make(…)}`
abbrev pub new_learner_lr_slot : ℕ → LearnerLrSlot
new_learner_lr_slot id = record {
  id = id;
  learned = false;
  rnd = zero_round;
  learns = [];
  votes = 0;
  voted = nobody;
  learned_val = zero_value;
  decided = false;
  check_vq = false;
}

abbrev pub learner_lr_slot_of : Table LearnerLrSlot → ℕ → LearnerLrSlot
learner_lr_slot_of slots id = elim (slots id) [ none ↦ new_learner_lr_slot id | some s ↦ s ]

-- `LearnerLrSlotMap.GetSlot`
unfoldable pub get_learner_lr_slot : LearnerLrSlotMap → ℕ → LearnerLrSlotMap × LearnerLrSlot
get_learner_lr_slot sm id =
    let slot = learner_lr_slot_of sm.slots id in
    (record { slots = insert sm.slots id slot; max_seen = raise_max sm.max_seen id }, slot)

abbrev pub put_learner_lr_slot : LearnerLrSlotMap → ℕ → LearnerLrSlot → LearnerLrSlotMap
put_learner_lr_slot sm id slot = record sm { slots = insert sm.slots id slot }
