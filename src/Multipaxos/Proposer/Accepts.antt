-- ===== src/Multipaxos/Proposer/Accepts.antt =====
-- What a call of `sendAccept` promises about the accepts that it sends, and what one accept adds
-- (multipaxos/proposer.go).
use goxos.Base.{
  ℕ, zero, suc, ◌+◌, ◌≡◌, ◌⊎◌, inl, inr, refl, subst, ◌∙◌, ap, Option, none, some, List, [], ◌∷◌,
  ◌++◌, ◌≤◌, ◌<◌, arith, length, get_elem?, Option-cases, inc,
}
use goxos.Paxos.Value.{Value}
use goxos.Paxos.Msg.{Accept}
use goxos.Paxos.Slots.{
  ProposerSlot, ProposerSlotMap, get_proposer_slot, put_proposer_slot, proposer_slot_of,
}
use goxos.Multipaxos.Proposer.{
  MultiProposer, Output, bcast_prepare, bcast_accept, reset_phase_one_timer, reset_phase_two_timer,
}
use goxos.Multipaxos.Proposer.PhaseTwo.{accept_for, pick_value, gen_accept}
use goxos.Multipaxos.Proposer.Proposals.{proposal_of}

-- The accepts among what is sent.
unfoldable pub accepts_of : List Output → List Accept
accepts_of [] = []
accepts_of (bcast_accept a ∷ outs) = a ∷ accepts_of outs
accepts_of (bcast_prepare m ∷ outs) = accepts_of outs
accepts_of (reset_phase_one_timer ∷ outs) = accepts_of outs
accepts_of (reset_phase_two_timer ∷ outs) = accepts_of outs

-- Slots are stored under their ids.
abbrev pub Keyed : ProposerSlotMap → Type 0
Keyed sm = (k : ℕ) (s : ProposerSlot) → sm.slots k ≡ some s → s.id ≡ k

-- An accept that the proposer may send for slot `k`: its own, in its round, within the window, and
-- with the value of the slot's proposal if it has one.
pub record IsAcceptFor (p : MultiProposer) (k : ℕ) (a : Accept) : Type 0 where
  pub from : a.id ≡ p.id
  pub in_round : a.rnd ≡ p.crnd
  pub for_slot : a.slot ≡ k
  pub in_window : k ≤ p.adu + p.alpha
  pub keeps_proposal : (b : Accept) → proposal_of p.slots k ≡ some b → a.val ≡ b.val

-- Of accepts for the slots from `k` on, the values of those whose slot has no proposal.
unfoldable pub new_values : ProposerSlotMap → ℕ → List Accept → List Value
new_values sm k [] = []
new_values sm k (a ∷ as') =
    let rest = new_values sm (k + 1) as' in
    elim (proposal_of sm k) [ none ↦ a.val ∷ rest | some b ↦ rest ]

-- What a call from `p` has sent when it ends in `q`.
pub record Sends (p q : MultiProposer) (outs : List Output) : Type 0 where
  pub moves_on : q.next_slot ≡ p.next_slot + length (accepts_of outs)
  pub each :
      (i : ℕ) (a : Accept)
      → get_elem? (accepts_of outs) i ≡ some a
      → IsAcceptFor p (p.next_slot + i) a
  pub taken : p.req_queue ≡ new_values p.slots p.next_slot (accepts_of outs) ++ q.req_queue
  pub stops :
      (p.adu + p.alpha < q.next_slot)
      ⊎ ((proposal_of q.slots q.next_slot ≡ none) × (q.req_queue ≡ []))
  pub keyed : Keyed q.slots

-- The proposer after `genAccept`, without and with an accept.
abbrev pub looked : MultiProposer → MultiProposer
looked p = record p { slots = (get_proposer_slot p.slots p.next_slot).0 }

abbrev pub accept_next : MultiProposer → Value → Accept
accept_next p val = accept_for p (proposer_slot_of p.slots.slots p.next_slot) val

abbrev pub proposed : MultiProposer → Value → List Value → MultiProposer
proposed p val queue = record p {
  slots =
      put_proposer_slot (get_proposer_slot p.slots p.next_slot).0 p.next_slot
        (record (proposer_slot_of p.slots.slots p.next_slot) {
          proposal = some (accept_next p val);
        });
  req_queue = queue;
}

-- The proposer that goes on with the next slot.
abbrev pub went_on : MultiProposer → Value → List Value → MultiProposer
went_on p val queue = record (proposed p val queue) { next_slot = inc p.next_slot }

-- The queue before a value was picked.
abbrev picked : Option Accept → Value → List Value → List Value
picked none val rest = val ∷ rest
picked (some b) val rest = rest

-- How a value is picked.
pick_value-cases :
    (o : Option Accept) (queue : List Value)
    → ((o ≡ none) × (queue ≡ []) × (pick_value o queue ≡ none))
      ⊎ ((val : Value) × (rest : List Value) × (pick_value o queue ≡ some (val, rest))
          × ((b : Accept) → o ≡ some b → val ≡ b.val)
          × (queue ≡ picked o val rest))
unfolding pick_value
pick_value-cases none [] = inl (refl, refl, refl)
pick_value-cases none (v ∷ queue) = inr (v, queue, refl, λ b e. cc, refl)
pick_value-cases (some a) queue = inr (a.val, queue, refl, λ b e. cc, refl)

pub gen_accept-cases :
    (p : MultiProposer)
    → ((proposal_of p.slots p.next_slot ≡ none)
        × (p.req_queue ≡ [])
        × (gen_accept p ≡ (looked p, none)))
      ⊎ ((val : Value) × (rest : List Value) × (gen_accept p
            ≡ (proposed p val rest, some (accept_next p val)))
          × ((b : Accept) → proposal_of p.slots p.next_slot ≡ some b → val ≡ b.val)
          × (p.req_queue ≡ picked (proposal_of p.slots p.next_slot) val rest))
unfolding gen_accept get_proposer_slot
gen_accept-cases p = elim (pick_value-cases (proposal_of p.slots p.next_slot) p.req_queue) [
  | inl (no_proposal, no_value, e) ↦ inl (no_proposal, no_value, rw (e, gen_accept) refl)
  | inr (val, rest, e, of_proposal, of_queue) ↦
      inr (val, rest, rw (e, gen_accept) refl, of_proposal, of_queue)
]

id-next_slot :
    (p : MultiProposer)
    → Keyed p.slots
    → (proposer_slot_of p.slots.slots p.next_slot).id ≡ p.next_slot
id-next_slot p keyed = elim (Option-cases (p.slots.slots p.next_slot)) [
  | inl e ↦ ground arith
  | inr (s, e) ↦ ground (arith, keyed p.next_slot s e)
]

pub looked-Keyed : (p : MultiProposer) → Keyed p.slots → Keyed (looked p).slots
unfolding get_proposer_slot
looked-Keyed p keyed k s e = ground (arith, keyed k s, keyed p.next_slot s)

pub went_on-Keyed :
    (p : MultiProposer) (val : Value) (queue : List Value)
    → Keyed p.slots
    → Keyed (went_on p val queue).slots
unfolding get_proposer_slot
went_on-Keyed p val queue keyed k s e =
    ground (arith, keyed k s, keyed p.next_slot s, id-next_slot p keyed)

-- A later slot has the proposal that it had.
proposal_of-went_on :
    (p : MultiProposer) (val : Value) (queue : List Value) (k : ℕ)
    → p.next_slot < k
    → proposal_of (went_on p val queue).slots k ≡ proposal_of p.slots k
unfolding get_proposer_slot
proposal_of-went_on p val queue k h = ground arith

pub proposal_of-looked :
    (p : MultiProposer) (k : ℕ) → proposal_of (looked p).slots k ≡ proposal_of p.slots k
unfolding get_proposer_slot
proposal_of-looked p k = ground arith

pub IsAcceptFor-next :
    (p : MultiProposer) (val : Value)
    → Keyed p.slots
    → p.next_slot ≤ p.adu + p.alpha
    → ((b : Accept) → proposal_of p.slots p.next_slot ≡ some b → val ≡ b.val)
    → IsAcceptFor p p.next_slot (accept_next p val)
IsAcceptFor-next p val keyed room of_proposal = record {
  from = refl;
  in_round = refl;
  for_slot = id-next_slot p keyed;
  in_window = room;
  keeps_proposal = of_proposal;
}

IsAcceptFor-later :
    (p : MultiProposer) (val : Value) (rest : List Value) (k : ℕ) (a : Accept)
    → p.next_slot < k
    → IsAcceptFor (went_on p val rest) k a
    → IsAcceptFor p k a
IsAcceptFor-later p val rest k a later h = record {
  from = h.from;
  in_round = h.in_round;
  for_slot = h.for_slot;
  in_window = h.in_window;
  keeps_proposal = λ b e. h.keeps_proposal b (proposal_of-went_on p val rest k later ∙ e);
}

-- The accepts of one slot and those of the slots after it.
each_of_next :
    (p : MultiProposer) (val : Value) (rest : List Value) (as' : List Accept)
    → inc p.next_slot ≡ p.next_slot + 1
    → IsAcceptFor p p.next_slot (accept_next p val)
    → ((i : ℕ) (a : Accept)
        → get_elem? as' i ≡ some a
        → IsAcceptFor (went_on p val rest) (inc p.next_slot + i) a)
    → (i : ℕ) (a : Accept) → get_elem? (accept_next p val ∷ as') i ≡ some a
    → IsAcceptFor p (p.next_slot + i) a
each_of_next p val rest as' up first later zero a e =
    let same : accept_next p val ≡ a = cc in
    let at : p.next_slot ≡ p.next_slot + 0 = omega arith in
    subst (λ k. IsAcceptFor p k a) at (subst (IsAcceptFor p p.next_slot) same first)
each_of_next p val rest as' up first later (suc i) a e =
    let at : inc p.next_slot + i ≡ p.next_slot + suc i = omega arith in
    subst (λ k. IsAcceptFor p k a) at
      (IsAcceptFor-later p val rest (inc p.next_slot + i) a (omega arith) (later i a e))

new_values-same :
    (sm sm' : ProposerSlotMap) (k : ℕ) (as' : List Accept)
    → ((j : ℕ) → k ≤ j → proposal_of sm' j ≡ proposal_of sm j)
    → new_values sm' k as' ≡ new_values sm k as'
unfolding new_values
new_values-same sm sm' k [] same = refl
new_values-same sm sm' k (a ∷ as') same =
    ground (
      arith,
      same k (omega arith),
      new_values-same sm sm' (k + 1) as' (λ j h. same j (omega arith)),
    )

new_values-next :
    (p : MultiProposer) (val : Value) (rest : List Value) (as' : List Accept) (queue : List Value)
    → rest ≡ new_values (went_on p val rest).slots (p.next_slot + 1) as' ++ queue
    → (o : Option Accept) → proposal_of p.slots p.next_slot ≡ o
    → p.req_queue ≡ picked o val rest
    → p.req_queue ≡ new_values p.slots p.next_slot (accept_next p val ∷ as') ++ queue
unfolding new_values
new_values-next p val rest as' queue later o e taken =
    let later' : rest ≡ new_values p.slots (p.next_slot + 1) as' ++ queue =
      later
      ∙ ap (λ vals. vals ++ queue)
          (new_values-same p.slots (went_on p val rest).slots (p.next_slot + 1) as'
            (λ j h. proposal_of-went_on p val rest j (omega arith))) in
    ground (arith, e, taken, later')

pub Sends-of_next :
    (p q : MultiProposer) (val : Value) (rest : List Value) (outs : List Output)
    → inc p.next_slot ≡ p.next_slot + 1
    → p.req_queue ≡ picked (proposal_of p.slots p.next_slot) val rest
    → IsAcceptFor p p.next_slot (accept_next p val)
    → Sends (went_on p val rest) q outs
    → Sends p q (bcast_accept (accept_next p val) ∷ reset_phase_two_timer ∷ outs)
unfolding accepts_of
Sends-of_next p q val rest outs up queue first h = record {
  moves_on = omega (arith, h.moves_on);
  each = each_of_next p val rest (accepts_of outs) up first h.each;
  taken =
      new_values-next p val rest (accepts_of outs) q.req_queue
        (subst
          (λ k. rest ≡ new_values (went_on p val rest).slots k (accepts_of outs) ++ q.req_queue) up
          h.taken)
        (proposal_of p.slots p.next_slot) refl queue;
  stops = h.stops;
  keyed = h.keyed;
}
