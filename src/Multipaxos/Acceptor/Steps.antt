-- ===== src/Multipaxos/Acceptor/Steps.antt =====
-- What one round of the acceptor's loop does (`Start` of multipaxos/acceptor.go), whatever it
-- receives.
use goxos.Base.{
  ℕ, ◌+◌, ◌-◌, ◌≡◌, ◌≢◌, inl, inr, refl, sym, ap, ◌∙◌, ◌≤◌, sub_uint, some, List, [], ◌∷◌, ◌<◌,
  arith, uint_mod, All, inc, for_upto-for_range, for_range,
}
use goxos.Base.Outcome.{Outcome, done, panic, diverge}
use goxos.Grp.NodeMap.{GrpMgr}
use goxos.Paxos.Round.{RoundLe, RoundLt, RoundLe-cases, RoundLe-of_lt, RoundLe-trans}
use goxos.Paxos.Msg.{AcceptorSlot, Prepare, Accept}
use goxos.Paxos.Slots.{
  AcceptorSlotMap, acceptor_slot_of, get_acceptor_slot, copy_slot, new_acceptor_slot_map,
}
use goxos.Multipaxos.Acceptor.{
  MultiAcceptor, Event, Output, send, broadcast, respond, prepare, accept, trust, state_request,
  slot_request, stop, state_reply, step,
}
use goxos.Multipaxos.Acceptor.Invariant.{
  SlotsValid, Extends, Extends-refl, Extends-trans, get-SlotsValid, get-Extends, voted_slots,
  voted_slots-SlotsValid, voted_slots-Extends, raise_round-SlotsValid, raise_round-Extends,
  get-slot_valid, learn_of,
}
use goxos.Multipaxos.Acceptor.Promises.{half_word, scan_end, scan_end-ScanKeeps}
use goxos.Multipaxos.Acceptor.Prepares.{prepare-cases}
use goxos.Multipaxos.Acceptor.Votes.{accept-cases, epoch_vector_of}

-- A valid slot map whose highest slot is below half of the words.
pub record IsValid (a : MultiAcceptor) : Type 0 where
  pub slots_valid : SlotsValid a.slots
  pub room : a.slots.max_seen < half_word

room-lt : (a : MultiAcceptor) → IsValid a → a.slots.max_seen + 1 < uint_mod
room-lt a v = omega (arith, v.room)

-- The slots that an event names: an accept's is below half of the words, and a prepare's is at most
-- the length of a slice of slots that the runtime can allocate.
abbrev pub InBounds : ℕ → Event → Type 0
InBounds limit (prepare msg) = msg.slot ≤ limit
InBounds limit (accept msg) = msg.slot < half_word
InBounds limit _ = Unit

-- Such a prepare's slice can be allocated.
not_too_far :
    (limit : ℕ) (a : MultiAcceptor) (msg : Prepare)
    → IsValid a
    → msg.slot ≤ limit
    → sub_uint msg.slot a.slots.max_seen < half_word
    → limit < sub_uint msg.slot a.slots.max_seen
    → ⊥
not_too_far limit a msg v fits ahead big = ground (arith, v.room)

-- What an output says of the step from slot map `sm` to `sm'`. A promise is of the new round. A
-- learn's round is at least the old round, and above the slot's vote; the slot now has that vote.
abbrev pub IsOutput : AcceptorSlotMap → AcceptorSlotMap → Output → Type 0
IsOutput sm sm' (send p dest) = p.rnd ≡ sm'.rnd
IsOutput sm sm' (broadcast l) =
    RoundLe sm.rnd l.rnd
    × ((s : AcceptorSlot) → sm.slots l.slot ≡ some s → RoundLt s.v_rnd l.rnd)
    × ((s : AcceptorSlot) × (sm'.slots l.slot ≡ some s) × (s.v_rnd ≡ l.rnd) × (s.v_val ≡ l.val))
IsOutput sm sm' (respond m) = Unit

-- Of two outputs: learns of one slot come in increasing rounds.
abbrev pub IsBefore : Output → Output → Type 0
IsBefore (broadcast l) (broadcast l') = l.slot ≡ l'.slot → RoundLt l.rnd l'.rnd
IsBefore _ _ = Unit

abbrev pub VotesIncrease : List Output → Type 0
VotesIncrease [] = Unit
VotesIncrease (o ∷ os) = All (IsBefore o) os × VotesIncrease os

abbrev pub IsStep : MultiAcceptor → Outcome (MultiAcceptor × List Output) → Type 0
IsStep a (done (a', outs)) =
    IsValid a'
    × Extends a.slots a'.slots
    × All (IsOutput a.slots a'.slots) outs
    × VotesIncrease outs
IsStep a panic = ⊥
IsStep a diverge = ⊥

step_prepare :
    (limit : ℕ) (g : GrpMgr) (a : MultiAcceptor) (msg : Prepare)
    → IsValid a
    → msg.slot ≤ limit
    → IsStep a (step limit g a (prepare msg))
unfolding step
step_prepare limit g a msg v fits = elim (prepare-cases limit a.variant g a msg (room-lt a v)) [
  | inl (_, e) ↦ rw (e, step) (v, Extends-refl a.slots, tt, tt)
  | inr (_, new, inr (ahead, big, _)) ↦ absurd (not_too_far limit a msg v fits ahead big)
  | inr (_, new, inl (_, e)) ↦
      let k = scan_end-ScanKeeps a msg in
      let le = RoundLe-of_lt a.slots.rnd msg.c_rnd new in
      rw (e, step)
        (
          record {
            slots_valid = k.keeps (raise_round-SlotsValid a.slots msg.c_rnd le v.slots_valid);
            room = rw (k.same_max) v.room;
          },
          Extends-trans a.slots (record a.slots { rnd = msg.c_rnd }) (scan_end a msg).slots
              (raise_round-Extends a.slots msg.c_rnd le) k.extends,
          (sym k.same_rnd, tt),
          (tt, tt),
        )
]

max_seen-get-lt :
    (sm : AcceptorSlotMap) (k : ℕ)
    → sm.max_seen < half_word
    → k < half_word
    → (get_acceptor_slot sm k).0.max_seen < half_word
unfolding get_acceptor_slot
max_seen-get-lt sm k h l = ground arith

-- The facts about a vote that its learn stands for.
learn-IsOutput :
    (a : MultiAcceptor) (ev : List ℕ) (msg : Accept)
    → SlotsValid a.slots
    → RoundLe a.slots.rnd msg.rnd
    → msg.rnd ≢ (acceptor_slot_of a.slots.slots msg.slot).v_rnd
    → IsOutput a.slots (voted_slots a.slots msg) (broadcast (learn_of ev a msg))
learn-IsOutput a ev msg v le ne =
    unfold get_acceptor_slot in
    let (id, _) = get-slot_valid a.slots msg.slot v in
    (
      le,
      λ s e.
          let here : a.slots.slots msg.slot ≡ some s = rw (← id) e in
          let same : (acceptor_slot_of a.slots.slots msg.slot) ≡ s = ground arith in
          elim (RoundLe-cases s.v_rnd msg.rnd
            (RoundLe-trans s.v_rnd a.slots.rnd msg.rnd (v.stored msg.slot s here).1 le)) [
              | inl eq ↦ absurd (ne (sym eq ∙ ap (λ t. t.v_rnd) (sym same)))
              | inr lt ↦ lt
            ],
      (
        record (acceptor_slot_of a.slots.slots msg.slot) { v_rnd = msg.rnd; v_val = msg.val },
        ground (arith, id),
        refl,
        refl,
      ),
    )

step_accept :
    (limit : ℕ) (g : GrpMgr) (a : MultiAcceptor) (msg : Accept)
    → IsValid a
    → msg.slot < half_word
    → IsStep a (step limit g a (accept msg))
unfolding step
step_accept limit g a msg v small = elim (accept-cases a.variant g a msg) [
  | inl (_, inl e) ↦
      rw (e, step)
        (record { slots_valid = v.slots_valid; room = v.room }, Extends-refl a.slots, tt, tt)
  | inl (_, inr e) ↦
      rw (e, step)
        (
          record {
            slots_valid = get-SlotsValid a.slots msg.slot v.slots_valid;
            room = max_seen-get-lt a.slots msg.slot v.room small;
          },
          get-Extends a.slots msg.slot,
          tt,
          tt,
        )
  | inr (_, le, ne, e) ↦
      rw (e, step)
        (
          record {
            slots_valid = voted_slots-SlotsValid a.slots msg le v.slots_valid;
            room = max_seen-get-lt a.slots msg.slot v.room small;
          },
          voted_slots-Extends a.slots msg le v.slots_valid,
          (learn-IsOutput a (epoch_vector_of a.variant g) msg v.slots_valid le ne, tt),
          (tt, tt),
        )
]

-- A state request is answered: the copy's loop ends.
state_reply_done :
    (a : MultiAcceptor) (after : ℕ)
    → a.slots.max_seen + 1 < uint_mod
    → (m : AcceptorSlotMap) × (state_reply a after ≡ done m)
unfolding state_reply
state_reply_done a after room =
    let n = (a.slots.max_seen + 1) - inc after in
    let start = record new_acceptor_slot_map { rnd = a.slots.rnd } in
    (
      for_range n (inc after) (copy_slot a.slots) start,
      for_upto-for_range n (a.slots.max_seen + 2) (inc after) a.slots.max_seen (copy_slot a.slots)
          start room refl (omega arith),
    )

pub step-IsStep :
    (limit : ℕ) (g : GrpMgr) (a : MultiAcceptor) (e : Event)
    → IsValid a
    → InBounds limit e
    → IsStep a (step limit g a e)
unfolding step
step-IsStep limit g a (prepare msg) v b = step_prepare limit g a msg v b
step-IsStep limit g a (accept msg) v b = step_accept limit g a msg v b
step-IsStep limit g a (trust id) v b =
    (record { slots_valid = v.slots_valid; room = v.room }, Extends-refl a.slots, tt, tt)
step-IsStep limit g a (state_request after released) v b =
    let (m, e) = state_reply_done a after (room-lt a v) in
    rw (e, step)
      (
        record { slots_valid = v.slots_valid; room = v.room },
        Extends-refl a.slots,
        (tt, tt),
        (tt, tt),
      )
step-IsStep limit g a slot_request v b = (v, Extends-refl a.slots, (tt, tt), (tt, tt))
step-IsStep limit g a stop v b =
    (record { slots_valid = v.slots_valid; room = v.room }, Extends-refl a.slots, tt, tt)
