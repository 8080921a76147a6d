-- ===== src/Multipaxos/Learner/Slots.antt =====
-- The learner's slot map (multipaxos/learner.go and paxos/lslots.go): what every operation keeps.
use goxos.Base.{ℕ, ◌≡◌, inl, inr, true, some, ◌≤◌, arith, ◌==◌, if◌then◌else◌, Option-cases}
use goxos.Paxos.Slots.{
  LearnerSlot, LearnerSlotMap, get_learner_slot, put_learner_slot, learner_slot_of,
}

-- Slots are stored under their ids, at or below `max_seen`.
abbrev pub Keyed : LearnerSlotMap → Type 0
Keyed sm = (k : ℕ) (s : LearnerSlot) → sm.slots k ≡ some s → (s.id ≡ k) × (k ≤ sm.max_seen)

-- A slot that is read as learned is stored.
pub stored_of_learned :
    (sm : LearnerSlotMap) (k : ℕ)
    → (learner_slot_of sm.slots k).learned ≡ true
    → sm.slots k ≡ some (learner_slot_of sm.slots k)
stored_of_learned sm k h = ground arith

pub id-learner_slot_of :
    (sm : LearnerSlotMap) (k : ℕ) → Keyed sm → (learner_slot_of sm.slots k).id ≡ k
id-learner_slot_of sm k keyed = elim (Option-cases (sm.slots k)) [
  | inl e ↦ ground arith
  | inr (s, e) ↦ ground (arith, keyed k s e)
]

pub get-Keyed : (sm : LearnerSlotMap) (k : ℕ) → Keyed sm → Keyed (get_learner_slot sm k).0
unfolding get_learner_slot
get-Keyed sm k keyed j s e = ground (arith, keyed k s, keyed j s)

pub put-Keyed :
    (sm : LearnerSlotMap) (k : ℕ) (slot : LearnerSlot)
    → Keyed sm
    → slot.id ≡ k
    → Keyed (put_learner_slot (get_learner_slot sm k).0 k slot)
unfolding get_learner_slot
put-Keyed sm k slot keyed id j s e = ground (arith, keyed j s)

-- `GetSlot` changes no slot that can be read; a write changes one.
pub learner_slot_of-get :
    (sm : LearnerSlotMap) (k j : ℕ)
    → learner_slot_of (get_learner_slot sm k).0.slots j ≡ learner_slot_of sm.slots j
unfolding get_learner_slot
learner_slot_of-get sm k j = ground arith

pub learner_slot_of-put :
    (sm : LearnerSlotMap) (k j : ℕ) (slot : LearnerSlot)
    → learner_slot_of (put_learner_slot (get_learner_slot sm k).0 k slot).slots j
      ≡ (if k == j then slot else learner_slot_of sm.slots j)
unfolding get_learner_slot
learner_slot_of-put sm k j slot = ground arith
