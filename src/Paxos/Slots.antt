-- ===== src/Paxos/Slots.antt =====
-- The slot maps of the acceptor, the proposer and the learner (paxos/aslots.go, pslots.go,
-- lslots.go), and the copy of a range of acceptor slots (paxos/utils.go). A Go map of pointers
-- is a table of values: an actor is the only writer of its own slots. `get_…_slot` returns the
-- map, with the slot made if it was not there, and the slot; a write through the returned pointer
-- is `put_…_slot`.
use goxos.Base.{
  ℕ, ◌+◌, Bool, Option, none, some, List, [], ltb, if◌then◌else◌, Table, no_entries, insert, inc,
  for_upto, false,
}
use goxos.Base.Outcome.{Outcome, done}
use goxos.Paxos.Round.{ProposerRound, zero_round}
use goxos.Paxos.Value.{Value, zero_value}
use goxos.Paxos.Msg.{AcceptorSlot, new_acceptor_slot, Accept, Learn}

-- `type AcceptorSlotMap struct`
pub record AcceptorSlotMap : Type 0 where
  pub slots : Table AcceptorSlot
  pub rnd : ProposerRound
  pub max_seen : ℕ

-- `NewAcceptorSlotMap`
abbrev pub new_acceptor_slot_map : AcceptorSlotMap
new_acceptor_slot_map = record { slots = no_entries; rnd = zero_round; max_seen = 0 }

-- `if id > sm.MaxSeen { sm.MaxSeen = id }`
abbrev pub raise_max : ℕ → ℕ → ℕ
raise_max max_seen id = if ltb max_seen id then id else max_seen

-- The slot that is stored, or the one that is made.
abbrev pub acceptor_slot_of : Table AcceptorSlot → ℕ → AcceptorSlot
acceptor_slot_of slots id = elim (slots id) [ none ↦ new_acceptor_slot id | some s ↦ s ]

-- `AcceptorSlotMap.GetSlot`
unfoldable pub get_acceptor_slot : AcceptorSlotMap → ℕ → AcceptorSlotMap × AcceptorSlot
get_acceptor_slot sm id =
    let slot = acceptor_slot_of sm.slots id in
    (record sm { slots = insert sm.slots id slot; max_seen = raise_max sm.max_seen id }, slot)

abbrev pub put_acceptor_slot : AcceptorSlotMap → ℕ → AcceptorSlot → AcceptorSlotMap
put_acceptor_slot sm id slot = record sm { slots = insert sm.slots id slot }

-- One round of the loop of `CopyAccSlotMapRange`.
unfoldable pub copy_slot : AcceptorSlotMap → ℕ → AcceptorSlotMap → AcceptorSlotMap
copy_slot source counter sm = elim (source.slots counter) [
  | none ↦ sm
  | some slot ↦ record sm { slots = insert sm.slots counter slot; max_seen = counter }
]

-- `CopyAccSlotMapRange`; `none` is a nil source.
unfoldable pub copy_acc_slot_map_range : ℕ → Option AcceptorSlotMap → Outcome AcceptorSlotMap
unfolding copy_slot for_upto
copy_acc_slot_map_range after none = done new_acceptor_slot_map
copy_acc_slot_map_range after (some source) =
    for_upto (source.max_seen + 2) (inc after) source.max_seen (copy_slot source)
      (record new_acceptor_slot_map { rnd = source.rnd })

-- `type ProposerSlot struct`; a nil proposal is `none`.
pub record ProposerSlot : Type 0 where
  pub id : ℕ
  pub proposal : Option Accept
  pub sent_count : ℕ

-- `type ProposerSlotMap struct`
pub record ProposerSlotMap : Type 0 where
  pub slots : Table ProposerSlot
  pub max_seen : ℕ

-- `NewProposerSlotMap`
abbrev pub new_proposer_slot_map : ProposerSlotMap
new_proposer_slot_map = record { slots = no_entries; max_seen = 0 }

abbrev pub proposer_slot_of : Table ProposerSlot → ℕ → ProposerSlot
proposer_slot_of slots id = elim (slots id) [
  | none ↦ record { id = id; proposal = none; sent_count = 0 }
  | some s ↦ s
]

-- `ProposerSlotMap.GetSlot`
unfoldable pub get_proposer_slot : ProposerSlotMap → ℕ → ProposerSlotMap × ProposerSlot
get_proposer_slot sm id =
    let slot = proposer_slot_of sm.slots id in
    (record { slots = insert sm.slots id slot; max_seen = raise_max sm.max_seen id }, slot)

abbrev pub put_proposer_slot : ProposerSlotMap → ℕ → ProposerSlot → ProposerSlotMap
put_proposer_slot sm id slot = record sm { slots = insert sm.slots id slot }

-- `type LearnerSlot struct`; `learns` holds `none` for a nil pointer.
pub record LearnerSlot : Type 0 where
  pub id : ℕ
  pub learned : Bool
  pub rnd : ProposerRound
  pub learns : List (Option Learn)
  pub votes : ℕ
  pub learned_val : Value
  pub decided : Bool

-- `type LearnerSlotMap struct`
pub record LearnerSlotMap : Type 0 where
  pub slots : Table LearnerSlot
  pub max_seen : ℕ

-- `NewLearnerSlotMap`
abbrev pub new_learner_slot_map : LearnerSlotMap
new_learner_slot_map = record { slots = no_entries; max_seen = 0 }

-- `LearnerSlot{ID: id}`
abbrev pub new_learner_slot : ℕ → LearnerSlot
new_learner_slot id = record {
  id = id;
  learned = false;
  rnd = zero_round;
  learns = [];
  votes = 0;
  learned_val = zero_value;
  decided = false;
}

abbrev pub learner_slot_of : Table LearnerSlot → ℕ → LearnerSlot
learner_slot_of slots id = elim (slots id) [ none ↦ new_learner_slot id | some s ↦ s ]

-- `LearnerSlotMap.GetSlot`
unfoldable pub get_learner_slot : LearnerSlotMap → ℕ → LearnerSlotMap × LearnerSlot
get_learner_slot sm id =
    let slot = learner_slot_of sm.slots id in
    (record { slots = insert sm.slots id slot; max_seen = raise_max sm.max_seen id }, slot)

abbrev pub put_learner_slot : LearnerSlotMap → ℕ → LearnerSlot → LearnerSlotMap
put_learner_slot sm id slot = record sm { slots = insert sm.slots id slot }
