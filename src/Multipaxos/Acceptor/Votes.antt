-- ===== src/Multipaxos/Acceptor/Votes.antt =====
-- The accept handlers (`handleAcc`, `handleAccAr` and `handleAccLr` of multipaxos/acceptor.go),
-- through `handleAccept`: when they vote, and what a vote leaves and tells the learners.
use goxos.Base.{
  ℕ, ◌≡◌, ◌≢◌, ◌⊎◌, inl, inr, refl, false, Option, none, some, List, [], ◌<◌, arith, ltb, ◌==◌,
  if◌then◌else◌, Bool-cases, ◌∙◌,
}
use goxos.Grp.NodeMap.{GrpMgr, epochs}
use goxos.Paxos.Round.{RoundLe, RoundLt, compare_round-flip}
use goxos.Paxos.Msg.{Accept, Learn}
use goxos.Paxos.Slots.{AcceptorSlotMap, acceptor_slot_of, get_acceptor_slot}
use goxos.Multipaxos.Acceptor.{
  MultiAcceptor, Variant, live_replacement, async_reconfig, regular, vote, mark_processing,
  handle_accept,
}
use goxos.Multipaxos.Acceptor.Invariant.{
  SlotsValid, Refuses, voted_slots, learn_of, vote-cases, get-slot_valid,
}

-- Why an accept is refused: its slot is below the low slot; it is from another epoch; its round is
-- below the acceptor's; or the slot has a vote in its round.
abbrev pub AcceptRefused : Variant → MultiAcceptor → Accept → Type 0
AcceptRefused v a msg =
    (msg.slot < a.low_slot)
    ⊎ ((v ≡ async_reconfig) × (msg.id.epoch ≢ a.id.epoch))
    ⊎ RoundLt msg.rnd a.slots.rnd
    ⊎ (msg.rnd ≡ (acceptor_slot_of a.slots.slots msg.slot).v_rnd)

abbrev pub epoch_vector_of : Variant → GrpMgr → List ℕ
epoch_vector_of live_replacement g = epochs g
epoch_vector_of async_reconfig g = []
epoch_vector_of regular g = []

-- What a vote leaves and sends.
abbrev Voted : Variant → GrpMgr → MultiAcceptor → Accept → Type 0
Voted v g a msg = handle_accept v g a msg ≡ (
  record (mark_processing a) { slots = voted_slots a.slots msg },
  some (learn_of (epoch_vector_of v g) a msg),
)

-- The slot map after a refusal: as before, or with the slot made.
abbrev Skipped : Variant → GrpMgr → MultiAcceptor → Accept → Type 0
Skipped v g a msg =
    (handle_accept v g a msg ≡ (mark_processing a, none))
    ⊎ (handle_accept v g a msg
        ≡ (record (mark_processing a) { slots = (get_acceptor_slot a.slots msg.slot).0 }, none))

slot_of_get :
    (sm : AcceptorSlotMap) (k : ℕ) → (get_acceptor_slot sm k).1 ≡ acceptor_slot_of sm.slots k
unfolding get_acceptor_slot
slot_of_get sm k = refl

not-AcceptRefused :
    (v : Variant) (a : MultiAcceptor) (msg : Accept)
    → ltb msg.slot a.low_slot ≡ false
    → ((v ≡ async_reconfig) → (msg.id.epoch ≡ a.id.epoch))
    → RoundLe a.slots.rnd msg.rnd
    → msg.rnd ≢ (get_acceptor_slot a.slots msg.slot).1.v_rnd
    → ¬ AcceptRefused v a msg
not-AcceptRefused v a msg low same le ne (inl h) = ground arith
not-AcceptRefused v a msg low same le ne (inr (inl (e, other))) = other (same e)
not-AcceptRefused v a msg low same le ne (inr (inr (inl lt))) =
    ground (arith, compare_round-flip msg.rnd a.slots.rnd)
not-AcceptRefused v a msg low same le ne (inr (inr (inr e))) =
    ne (rw (slot_of_get a.slots msg.slot) e)

refused_of_Refuses :
    (v : Variant) (a : MultiAcceptor) (msg : Accept) → Refuses a msg → AcceptRefused v a msg
refused_of_Refuses v a msg (inl lt) = inr (inr (inl lt))
refused_of_Refuses v a msg (inr e) = inr (inr (inr (rw (slot_of_get a.slots msg.slot) at e)))

abbrev Ways : Variant → GrpMgr → MultiAcceptor → Accept → Type 0
Ways v g a msg =
    (AcceptRefused v a msg × Skipped v g a msg)
    ⊎ ((¬ AcceptRefused v a msg)
        × RoundLe a.slots.rnd msg.rnd
        × (msg.rnd ≢ (acceptor_slot_of a.slots.slots msg.slot).v_rnd)
        × Voted v g a msg)

-- Past the guards that stand before the slot is read.
Ways-of_vote :
    (v : Variant) (g : GrpMgr) (a : MultiAcceptor) (msg : Accept)
    → ltb msg.slot a.low_slot ≡ false
    → ((v ≡ async_reconfig) → (msg.id.epoch ≡ a.id.epoch))
    → handle_accept v g a msg ≡ vote (epoch_vector_of v g) (mark_processing a) msg
    → Ways v g a msg
Ways-of_vote v g a msg low same run =
    elim (vote-cases (epoch_vector_of v g) (mark_processing a) msg) [
      | inl (refused, e) ↦ inl (refused_of_Refuses v a msg refused, inr (run ∙ e))
      | inr (le, ne, e) ↦ inr (
        not-AcceptRefused v a msg low same le ne,
        le,
        rw (slot_of_get a.slots msg.slot) at ne,
        run ∙ e,
      )
    ]

pub accept-cases : (v : Variant) (g : GrpMgr) (a : MultiAcceptor) (msg : Accept) → Ways v g a msg
unfolding handle_accept
accept-cases live_replacement g a msg = elim (Bool-cases (ltb msg.slot a.low_slot)) [
  | inl below ↦ inl (inl (ground arith), inl (ground arith))
  | inr low ↦ Ways-of_vote live_replacement g a msg low (λ e. cc) (ground arith)
]
accept-cases regular g a msg = elim (Bool-cases (ltb msg.slot a.low_slot)) [
  | inl below ↦ inl (inl (ground arith), inl (ground arith))
  | inr low ↦ Ways-of_vote regular g a msg low (λ e. cc) (ground arith)
]
accept-cases async_reconfig g a msg = elim (Bool-cases (ltb msg.slot a.low_slot)) [
  | inl below ↦ inl (inl (ground arith), inl (ground arith))
  | inr low ↦ elim (Bool-cases (msg.id.epoch == a.id.epoch)) [
    | inl same ↦ Ways-of_vote async_reconfig g a msg low (λ e. ground arith) (ground arith)
    | inr other ↦ inl (inr (inl (refl, ground arith)), inl (ground arith))
  ]
]

-- What an accept comes to, by the new state and the reply.
abbrev pub AcceptOutcome : Variant → MultiAcceptor → Accept → MultiAcceptor × Option Learn → Type 0
AcceptOutcome v a msg (a', reply) =
    (AcceptRefused v a msg
      × (reply ≡ none)
      × (a'.slots.rnd ≡ a.slots.rnd)
      × ((k : ℕ) → acceptor_slot_of a'.slots.slots k ≡ acceptor_slot_of a.slots.slots k))
    ⊎ ((¬ AcceptRefused v a msg)
        × ((l : Learn) × (reply ≡ some l)
            × (l.id ≡ a.id)
            × (l.slot ≡ msg.slot)
            × (l.rnd ≡ msg.rnd)
            × (l.val ≡ msg.val))
        × (a'.slots.rnd ≡ msg.rnd)
        × ((k : ℕ)
            → acceptor_slot_of a'.slots.slots k ≡ (
                if msg.slot == k
                then record { id = msg.slot; v_rnd = msg.rnd; v_val = msg.val }
                else acceptor_slot_of a.slots.slots k)))

-- An accept handler, on every variant, over a valid slot map. A refused accept sends nothing, keeps
-- the acceptor's round and every slot as it reads. Any other is a vote: the learn names the
-- acceptor, and the slot, the round and the value of the accept; the round is the acceptor's round
-- from then on, the slot holds the vote, and every other slot reads as before.
pub accept_outcome :
    (v : Variant) (g : GrpMgr) (a : MultiAcceptor) (msg : Accept)
    → SlotsValid a.slots
    → AcceptOutcome v a msg (handle_accept v g a msg)
accept_outcome v g a msg valid = elim (accept-cases v g a msg) [
  | inl (refused, inl e) ↦ inl (refused, rw e, rw e, λ k. rw e)
  | inl (refused, inr e) ↦
      unfold get_acceptor_slot in inl (refused, rw e, rw e, λ k. rw e (ground arith))
  | inr (votes, _, _, e) ↦
      unfold get_acceptor_slot in
      inr (
        votes,
        (
          learn_of (epoch_vector_of v g) a msg,
          rw e,
          refl,
          (get-slot_valid a.slots msg.slot valid).0,
          refl,
          refl,
        ),
        rw e,
        λ k. rw e (ground (arith, get-slot_valid a.slots msg.slot valid)),
      )
]
