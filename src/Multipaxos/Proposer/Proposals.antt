-- ===== src/Multipaxos/Proposer/Proposals.antt =====
-- The value rule of phase one (`setStateFromPromises` of multipaxos/proposer.go): which proposal a
-- slot has after a quorum of promises.
use goxos.Base.{
  ℕ, ◌≡◌, ◌⊎◌, inl, inr, refl, sym, subst, ◌∙◌, ap, Option, none, some, List, [], ◌∷◌, ◌++◌, ◌≤◌,
  ◌<◌, arith, ◌==◌, if◌then◌else◌, Bool-cases, All,
}
use mathlib.Core.List.{Memᴰ}
use goxos.Paxos.Round.{
  ProposerRound, RoundLe, RoundLe-refl, RoundLe-trans, compare_round, is_ge, compare_round-flip,
}
use goxos.Paxos.Msg.{AcceptorSlot, Promise, Accept}
use goxos.Paxos.Slots.{ProposerSlotMap, proposer_slot_of, get_proposer_slot}
use goxos.Multipaxos.Proposer.{
  accept_of_slot, merge_proposal, set_state_from_slot, set_state_from_promise,
  set_state_from_promises,
}

-- The proposal that a slot has.
abbrev pub proposal_of : ProposerSlotMap → ℕ → Option Accept
proposal_of sm k = (proposer_slot_of sm.slots k).proposal

-- What a promise's slots, and a list of promises, report of slot `k`.
unfoldable pub reports : ℕ → List AcceptorSlot → List AcceptorSlot
reports k [] = []
reports k (s ∷ ss) = let rest = reports k ss in if s.id == k then s ∷ rest else rest

unfoldable pub all_reports : ℕ → List (Option Promise) → List AcceptorSlot
all_reports k [] = []
all_reports k (none ∷ ps) = all_reports k ps
all_reports k (some p ∷ ps) = reports k p.acc_slots ++ all_reports k ps

-- The new proposal, of the old one and the reports: no report is of a higher round, nor is the old
-- one; and it is the old one or a report's.
pub record IsHighest (old : Option Accept) (rs : List AcceptorSlot) (new : Option Accept)
    : Type 0 where
  pub above_reports :
      All (λ (s : AcceptorSlot). (a : Accept) × (new ≡ some a) × RoundLe s.v_rnd a.rnd) rs
  pub above_old : (b : Accept) → old ≡ some b → (a : Accept) × (new ≡ some a) × RoundLe b.rnd a.rnd
  pub source : (new ≡ old) ⊎ ((s : AcceptorSlot) × Memᴰ s rs × (new ≡ some (accept_of_slot s)))

-- The fold of `merge_proposal`.
merged : Option Accept → List AcceptorSlot → Option Accept
merged old [] = old
merged old (s ∷ rs) = merged (merge_proposal old s) rs

merged-append :
    (old : Option Accept) (xs ys : List AcceptorSlot)
    → merged old (xs ++ ys) ≡ merged (merged old xs) ys
unfolding merged
merged-append old [] ys = refl
merged-append old (x ∷ xs) ys = merged-append (merge_proposal old x) xs ys

RoundLe-of_same :
    (b b' : Accept) (r : ProposerRound) → some b ≡ some b' → RoundLe b.rnd r → RoundLe b'.rnd r
RoundLe-of_same b b' r e h = let same : b ≡ b' = cc in subst (λ t. RoundLe t.rnd r) same h

-- One merge is above both, and is one of them.
merge-above :
    (old : Option Accept) (s : AcceptorSlot)
    → (a : Accept) × (merge_proposal old s ≡ some a)
      × RoundLe s.v_rnd a.rnd
      × ((b : Accept) → old ≡ some b → RoundLe b.rnd a.rnd)
      × ((merge_proposal old s ≡ old) ⊎ (a ≡ accept_of_slot s))
unfolding merge_proposal
merge-above none s = (accept_of_slot s, refl, RoundLe-refl s.v_rnd, λ b e. cc, inr refl)
merge-above (some b) s = elim (Bool-cases (is_ge (compare_round b.rnd s.v_rnd))) [
  | inl ge ↦ (
    b,
    ground arith,
    λ g. ground (arith, compare_round-flip b.rnd s.v_rnd),
    λ b' e. RoundLe-of_same b b' b.rnd e (RoundLe-refl b.rnd),
    inl (ground arith),
  )
  | inr lt ↦ (
    accept_of_slot s,
    ground arith,
    RoundLe-refl s.v_rnd,
    λ b' e. RoundLe-of_same b b' s.v_rnd e (λ g. ground arith),
    inr refl,
  )
]

merged-IsHighest : (old : Option Accept) (rs : List AcceptorSlot) → IsHighest old rs (merged old rs)
unfolding merged
merged-IsHighest old [] = record {
  above_reports = tt;
  above_old = λ b e. (b, e, RoundLe-refl b.rnd);
  source = inl refl;
}
merged-IsHighest old (s ∷ rs) =
    let (m, is_m, above_s, above_b, which) = merge-above old s in
    let rest = merged-IsHighest (merge_proposal old s) rs in
    let (a, is_a, le) = rest.above_old m is_m in
    record {
      above_reports = ((a, is_a, RoundLe-trans s.v_rnd m.rnd a.rnd above_s le), rest.above_reports);
      above_old = λ b e. (a, is_a, RoundLe-trans b.rnd m.rnd a.rnd (above_b b e) le);
      source = elim rest.source [
        | inl kept ↦ elim which [
          | inl same ↦ inl (kept ∙ same)
          | inr is ↦ inr (s, Memᴰ.head refl, kept ∙ is_m ∙ ap some is)
        ]
        | inr (r, mem, is) ↦ inr (r, Memᴰ.tail mem, is)
      ];
    }

proposal_of-set_state_from_slot :
    (adu : ℕ) (sm : ProposerSlotMap) (s : AcceptorSlot) (k : ℕ)
    → adu < k
    → proposal_of (set_state_from_slot adu sm s) k ≡ merged (proposal_of sm k) (reports k (s ∷ []))
unfolding set_state_from_slot get_proposer_slot merged reports
proposal_of-set_state_from_slot adu sm s k h = ground arith

reports-cons :
    (k : ℕ) (s : AcceptorSlot) (ss : List AcceptorSlot)
    → reports k (s ∷ ss) ≡ reports k (s ∷ []) ++ reports k ss
unfolding reports
reports-cons k s ss = elim (Bool-cases (s.id == k)) [ inl e ↦ rw e | inr e ↦ rw e ]

proposal_of-set_state_from_promise :
    (adu : ℕ) (ss : List AcceptorSlot) (sm : ProposerSlotMap) (k : ℕ)
    → adu < k
    → proposal_of (set_state_from_promise adu sm ss) k ≡ merged (proposal_of sm k) (reports k ss)
unfolding set_state_from_promise merged reports
proposal_of-set_state_from_promise adu [] sm k h = refl
proposal_of-set_state_from_promise adu (s ∷ ss) sm k h =
    proposal_of-set_state_from_promise adu ss (set_state_from_slot adu sm s) k h
    ∙ ap (λ o. merged o (reports k ss)) (proposal_of-set_state_from_slot adu sm s k h)
    ∙ sym (merged-append (proposal_of sm k) (reports k (s ∷ [])) (reports k ss))
    ∙ ap (merged (proposal_of sm k)) (sym (reports-cons k s ss))

proposal_of-set_state_from_promises :
    (adu : ℕ) (ps : List (Option Promise)) (sm : ProposerSlotMap) (k : ℕ)
    → adu < k
    → proposal_of (set_state_from_promises adu sm ps) k
      ≡ merged (proposal_of sm k) (all_reports k ps)
unfolding set_state_from_promises merged all_reports
proposal_of-set_state_from_promises adu [] sm k h = refl
proposal_of-set_state_from_promises adu (none ∷ ps) sm k h =
    proposal_of-set_state_from_promises adu ps sm k h
proposal_of-set_state_from_promises adu (some p ∷ ps) sm k h =
    proposal_of-set_state_from_promises adu ps (set_state_from_promise adu sm p.acc_slots) k h
    ∙ ap (λ o. merged o (all_reports k ps))
        (proposal_of-set_state_from_promise adu p.acc_slots sm k h)
    ∙ sym (merged-append (proposal_of sm k) (reports k p.acc_slots) (all_reports k ps))

-- The value rule of Paxos: after any list of promises, each slot above `adu` has for its
-- proposal the one of the highest round among what the promises report of the slot and the
-- proposal that it had; there is a proposal if there is any of these, and it is one of them.
pub proposal-IsHighest :
    (adu : ℕ) (sm : ProposerSlotMap) (ps : List (Option Promise)) (k : ℕ)
    → adu < k
    → IsHighest
        (proposal_of sm k)
        (all_reports k ps)
        (proposal_of (set_state_from_promises adu sm ps) k)
proposal-IsHighest adu sm ps k h =
    subst (IsHighest (proposal_of sm k) (all_reports k ps))
      (sym (proposal_of-set_state_from_promises adu ps sm k h))
      (merged-IsHighest (proposal_of sm k) (all_reports k ps))

set_state_from_slot-decided :
    (adu : ℕ) (sm : ProposerSlotMap) (s : AcceptorSlot) (k : ℕ)
    → k ≤ adu
    → (set_state_from_slot adu sm s).slots k ≡ sm.slots k
unfolding set_state_from_slot get_proposer_slot
set_state_from_slot-decided adu sm s k h = ground arith

set_state_from_promise-decided :
    (adu : ℕ) (ss : List AcceptorSlot) (sm : ProposerSlotMap) (k : ℕ)
    → k ≤ adu
    → (set_state_from_promise adu sm ss).slots k ≡ sm.slots k
unfolding set_state_from_promise
set_state_from_promise-decided adu [] sm k h = refl
set_state_from_promise-decided adu (s ∷ ss) sm k h =
    set_state_from_promise-decided adu ss (set_state_from_slot adu sm s) k h
    ∙ set_state_from_slot-decided adu sm s k h

-- Promises change no slot up to `adu`: what they report of decided slots (and the zero slots that
-- an acceptor puts into a promise) is skipped.
pub set_state_from_promises-decided :
    (adu : ℕ) (ps : List (Option Promise)) (sm : ProposerSlotMap) (k : ℕ)
    → k ≤ adu
    → (set_state_from_promises adu sm ps).slots k ≡ sm.slots k
unfolding set_state_from_promises
set_state_from_promises-decided adu [] sm k h = refl
set_state_from_promises-decided adu (none ∷ ps) sm k h =
    set_state_from_promises-decided adu ps sm k h
set_state_from_promises-decided adu (some p ∷ ps) sm k h =
    set_state_from_promises-decided adu ps (set_state_from_promise adu sm p.acc_slots) k h
    ∙ set_state_from_promise-decided adu p.acc_slots sm k h
