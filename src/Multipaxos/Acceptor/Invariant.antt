-- ===== src/Multipaxos/Acceptor/Invariant.antt =====
-- What holds of the acceptor's slot map between two events (multipaxos/acceptor.go), and that every
-- handler keeps it and never lowers the acceptor's round.
use goxos.Base.{
  ℕ, ◌≡◌, ◌≢◌, ◌⊎◌, inl, inr, refl, none, some, List, ◌≤◌, arith, ◌==◌, Bool-cases, Option-cases,
}
use goxos.Paxos.Round.{
  ProposerRound, zero_round, compare_round, compare_round_refl, is_gt, is_eq, RoundLe, RoundLt,
  RoundLe-refl, RoundLe-trans, eq_of_compare_round, compare_round-flip,
}
use goxos.Paxos.Msg.{AcceptorSlot, Accept, Learn}
use goxos.Paxos.Slots.{AcceptorSlotMap, get_acceptor_slot, put_acceptor_slot}
use goxos.Multipaxos.Acceptor.{MultiAcceptor, vote}

-- A stored slot has its key for its id, a vote no higher than the acceptor's round, and a key
-- no higher than `max_seen`; the round is not below the zero round.
pub record SlotsValid (sm : AcceptorSlotMap) : Type 0 where
  pub stored :
      (k : ℕ) (s : AcceptorSlot)
      → sm.slots k ≡ some s
      → (s.id ≡ k) × RoundLe s.v_rnd sm.rnd × (k ≤ sm.max_seen)
  pub above_zero : RoundLe zero_round sm.rnd

pub get-SlotsValid :
    (sm : AcceptorSlotMap) (k : ℕ) → SlotsValid sm → SlotsValid (get_acceptor_slot sm k).0
unfolding get_acceptor_slot
get-SlotsValid sm k v = record {
  stored = λ j s e. ground (arith, v.stored k s, v.stored j s, v.above_zero);
  above_zero = v.above_zero;
}

-- The slot that `GetSlot` returns.
pub get-slot_valid :
    (sm : AcceptorSlotMap) (k : ℕ)
    → SlotsValid sm
    → let s = (get_acceptor_slot sm k).1 in (s.id ≡ k) × RoundLe s.v_rnd sm.rnd
unfolding get_acceptor_slot
get-slot_valid sm k v = elim (Option-cases (sm.slots k)) [
  | inl e ↦ (ground arith, ground (arith, v.above_zero))
  | inr (s, e) ↦ (ground (arith, v.stored k s e), ground (arith, v.stored k s e))
]

pub raise_round-SlotsValid :
    (sm : AcceptorSlotMap) (r : ProposerRound)
    → RoundLe sm.rnd r
    → SlotsValid sm
    → SlotsValid (record sm { rnd = r })
raise_round-SlotsValid sm r h v = record {
  stored = λ j s e.
      let (id, below, seen) = v.stored j s e in (id, RoundLe-trans s.v_rnd sm.rnd r below h, seen);
  above_zero = RoundLe-trans zero_round sm.rnd r v.above_zero h;
}

-- Whether `vote` votes: the acceptor's round is no higher than the message's, and the slot has no
-- vote in that round.
abbrev pub Refuses : MultiAcceptor → Accept → Type 0
Refuses a msg =
    RoundLt msg.rnd a.slots.rnd ⊎ (msg.rnd ≡ (get_acceptor_slot a.slots msg.slot).1.v_rnd)

-- The slot map after a vote.
abbrev pub voted_slots : AcceptorSlotMap → Accept → AcceptorSlotMap
voted_slots sm msg =
    let (sm', slot) = get_acceptor_slot sm msg.slot in
    record (put_acceptor_slot sm' msg.slot (record slot { v_rnd = msg.rnd; v_val = msg.val })) {
      rnd = msg.rnd;
    }

abbrev pub learn_of : List ℕ → MultiAcceptor → Accept → Learn
learn_of epoch_vector a msg = record {
  id = a.id;
  slot = (get_acceptor_slot a.slots msg.slot).1.id;
  rnd = msg.rnd;
  val = msg.val;
  epoch_vector = epoch_vector;
}

pub rnd-get : (sm : AcceptorSlotMap) (k : ℕ) → (get_acceptor_slot sm k).0.rnd ≡ sm.rnd
unfolding get_acceptor_slot
rnd-get sm k = refl

-- The two ways in which `vote` ends.
pub vote-cases :
    (ev : List ℕ) (a : MultiAcceptor) (msg : Accept)
    → (Refuses a msg
        × (vote ev a msg ≡ (record a { slots = (get_acceptor_slot a.slots msg.slot).0 }, none)))
      ⊎ (RoundLe a.slots.rnd msg.rnd
          × (msg.rnd ≢ (get_acceptor_slot a.slots msg.slot).1.v_rnd)
          × (vote ev a msg
              ≡ (record a { slots = voted_slots a.slots msg }, some (learn_of ev a msg))))
unfolding vote
vote-cases ev a msg =
    let r = a.slots.rnd in
    let v = (get_acceptor_slot a.slots msg.slot).1.v_rnd in
    elim (Bool-cases (is_gt (compare_round r msg.rnd))) [
      | inl low ↦ inl (inl (ground (arith, compare_round-flip r msg.rnd)), ground arith)
      | inr high ↦ elim (Bool-cases (is_eq (compare_round msg.rnd v))) [
        | inl same ↦ inl (inr (eq_of_compare_round msg.rnd v (ground arith)), ground arith)
        | inr other ↦ inr (
          ground arith,
          λ e. ground (arith, compare_round_refl v),
          ground (arith, eq_of_compare_round r msg.rnd),
        )
      ]
    ]

-- Nothing is forgotten: the round does not fall, no stored slot goes, and no vote falls back.
pub record Extends (sm sm' : AcceptorSlotMap) : Type 0 where
  pub round_grows : RoundLe sm.rnd sm'.rnd
  pub votes_grow :
      (k : ℕ) (s : AcceptorSlot)
      → sm.slots k ≡ some s
      → (s' : AcceptorSlot) × (sm'.slots k ≡ some s') × RoundLe s.v_rnd s'.v_rnd

pub Extends-refl : (sm : AcceptorSlotMap) → Extends sm sm
Extends-refl sm = record {
  round_grows = RoundLe-refl sm.rnd;
  votes_grow = λ k s e. (s, e, RoundLe-refl s.v_rnd);
}

pub Extends-trans : (a b c : AcceptorSlotMap) → Extends a b → Extends b c → Extends a c
Extends-trans a b c f g = record {
  round_grows = RoundLe-trans a.rnd b.rnd c.rnd f.round_grows g.round_grows;
  votes_grow = λ k s e.
      let (s', e', h) = f.votes_grow k s e in
      let (s'', e'', h') = g.votes_grow k s' e' in
      (s'', e'', RoundLe-trans s.v_rnd s'.v_rnd s''.v_rnd h h');
}

pub get-Extends : (sm : AcceptorSlotMap) (k : ℕ) → Extends sm (get_acceptor_slot sm k).0
unfolding get_acceptor_slot
get-Extends sm k = record {
  round_grows = RoundLe-refl sm.rnd;
  votes_grow = λ j s e. (s, ground arith, RoundLe-refl s.v_rnd);
}

pub raise_round-Extends :
    (sm : AcceptorSlotMap) (r : ProposerRound)
    → RoundLe sm.rnd r
    → Extends sm (record sm { rnd = r })
raise_round-Extends sm r h = record {
  round_grows = h;
  votes_grow = λ j s e. (s, e, RoundLe-refl s.v_rnd);
}

pub voted_slots-SlotsValid :
    (sm : AcceptorSlotMap) (msg : Accept)
    → RoundLe sm.rnd msg.rnd
    → SlotsValid sm
    → SlotsValid (voted_slots sm msg)
unfolding get_acceptor_slot
voted_slots-SlotsValid sm msg h v = record {
  stored = λ j s e. elim (Bool-cases (msg.slot == j)) [
    | inl here ↦ (
      ground (arith, get-slot_valid sm msg.slot v),
      ground (arith, compare_round_refl msg.rnd),
      ground arith,
    )
    | inr there ↦
        let old : sm.slots j ≡ some s = ground arith in
        let (id, below, seen) = v.stored j s old in
        (id, RoundLe-trans s.v_rnd sm.rnd msg.rnd below h, ground arith)
  ];
  above_zero = RoundLe-trans zero_round sm.rnd msg.rnd v.above_zero h;
}

pub voted_slots-Extends :
    (sm : AcceptorSlotMap) (msg : Accept)
    → RoundLe sm.rnd msg.rnd
    → SlotsValid sm
    → Extends sm (voted_slots sm msg)
unfolding get_acceptor_slot
voted_slots-Extends sm msg h v = record {
  round_grows = h;
  votes_grow = λ j s e. elim (Bool-cases (msg.slot == j)) [
    | inl here ↦ (
      record (get_acceptor_slot sm msg.slot).1 { v_rnd = msg.rnd; v_val = msg.val },
      ground arith,
      RoundLe-trans s.v_rnd sm.rnd msg.rnd (v.stored j s e).1 h,
    )
    | inr there ↦ (s, ground arith, RoundLe-refl s.v_rnd)
  ];
}
