-- ===== src/Multipaxos/Learner/Quorum.antt =====
-- The quorum that stands behind a learned value (`handleLrn` of multipaxos/learner.go).
use goxos.Base.{
  ℕ, ◌+◌, ◌≡◌, ◌⊎◌, inl, inr, refl, sym, subst, ◌∙◌, ap, Option, none, some, ◌≤◌, ◌<◌, arith, Bool,
  true, false, if◌then◌else◌, leb→le, leb, Ordering-cases, index, ℤ, pos, negsuc, length,
  length-set, length-replicate, get_elem?, set, replicate, uint_mod, inc,
}
use goxos.Base.Stored.{
  voters, voters-le-length, voters-set, voters-replicate, get-set, get-replicate,
}
use goxos.Base.Outcome.{Outcome, done, panic, diverge}
use goxos.Grp.Id.{flip}
use goxos.Grp.NodeMap.{GrpMgr, quorum, nr_of_nodes}
use goxos.Paxos.Round.{compare_round, eq_of_compare_round, RoundLt, compare_round-flip}
use goxos.Paxos.Value.{Value}
use goxos.Paxos.Msg.{Learn}
use goxos.Paxos.Slots.{LearnerSlot}
use goxos.Multipaxos.Learner.{count_learn, learn_slot, reset_slot}

-- The learns of a slot: each stands under its sender's id and is of the slot's round, and they are
-- as many as the votes.
pub record Ballot (slot : LearnerSlot) : Type 0 where
  pub counted : slot.votes ≡ voters slot.learns
  pub room : length slot.learns + 1 < uint_mod
  pub own :
      (i : ℕ) (l : Learn)
      → get_elem? slot.learns i ≡ some (some l)
      → (l.id.paxos_id ≡ pos i) × (l.rnd ≡ slot.rnd)

-- Why a slot ignores a learn: it is of a lower round, or its sender's learn is there.
abbrev pub Ignores : LearnerSlot → Learn → Type 0
Ignores slot msg =
    RoundLt msg.rnd slot.rnd
    ⊎ ((slot.rnd ≡ msg.rnd)
        × ((i : ℕ) × (l : Learn) × (msg.id.paxos_id ≡ pos i)
            × (get_elem? slot.learns i ≡ some (some l))))

-- The sender's id is no index of the slot's learns, or of those of a slot that is reset.
abbrev pub HasNoPlace : GrpMgr → LearnerSlot → Learn → Type 0
HasNoPlace g slot msg =
    (index slot.learns msg.id.paxos_id ≡ none)
    ⊎ (index (replicate {A = Option Learn} (nr_of_nodes g) none) msg.id.paxos_id ≡ none)

-- The result of counting a learn: a value at a quorum of learns in the slot's round, and none
-- before it.
abbrev pub IsBallot :
    Type 0 → Type 0 → GrpMgr → Learn → Outcome (LearnerSlot × Option (Value × ℕ)) → Type 0
IsBallot Ignored Outside g msg (done (slot, none)) =
    Ballot slot × (Ignored ⊎ (voters slot.learns < quorum g))
IsBallot Ignored Outside g msg (done (slot, some (v, k))) =
    Ballot slot × (slot.rnd ≡ msg.rnd) × (v ≡ msg.val) × (quorum g ≤ voters slot.learns)
IsBallot Ignored Outside g msg panic = Outside
IsBallot Ignored Outside g msg diverge = ⊥

-- The slot with the learn of replica `i` counted.
abbrev counted_slot : LearnerSlot → ℕ → Learn → LearnerSlot
counted_slot slot i msg = record slot {
  votes = inc slot.votes;
  learns = set slot.learns i (some msg);
}

counted_slot-Ballot :
    (slot : LearnerSlot) (i : ℕ) (msg : Learn)
    → msg.id.paxos_id ≡ pos i
    → get_elem? slot.learns i ≡ some none
    → slot.rnd ≡ msg.rnd
    → Ballot slot
    → Ballot (counted_slot slot i msg)
counted_slot-Ballot slot i msg id free same b = record {
  counted =
      omega
        (arith, b.counted, b.room, voters-set slot.learns i msg free, voters-le-length slot.learns);
  room = omega (arith, b.room, length-set slot.learns i (some msg));
  own = λ j l h. elim (get-set slot.learns i j msg l h) [
    | inl (e, f) ↦
        (ap (λ m. m.id.paxos_id) (sym f) ∙ id ∙ ap pos e, ap (λ m. m.rnd) (sym f) ∙ sym same)
    | inr old ↦ b.own j l old
  ];
}

count_learn_free :
    (g : GrpMgr) (slot : LearnerSlot) (msg : Learn) (i : ℕ)
    → msg.id.paxos_id ≡ pos i
    → get_elem? slot.learns i ≡ some none
    → count_learn g slot msg
      ≡ done (
        counted_slot slot i msg,
        if leb (quorum g) (inc slot.votes) then some (msg.val, slot.id) else none,
      )
unfolding count_learn
count_learn_free g slot msg i id e = ground arith

count_learn_taken :
    (g : GrpMgr) (slot : LearnerSlot) (msg : Learn) (i : ℕ) (l : Learn)
    → msg.id.paxos_id ≡ pos i
    → get_elem? slot.learns i ≡ some (some l)
    → count_learn g slot msg ≡ done (slot, none)
unfolding count_learn
count_learn_taken g slot msg i l id e = ground arith

count_learn_outside :
    (g : GrpMgr) (slot : LearnerSlot) (msg : Learn)
    → index slot.learns msg.id.paxos_id ≡ none
    → count_learn g slot msg ≡ panic
unfolding count_learn
count_learn_outside g slot msg e = ground arith

module _ (Ignored Outside : Type 0) where
  -- The value that counting returns, with the slot that it leaves.
  IsBallot-of_counted :
      (g : GrpMgr) (slot : LearnerSlot) (msg : Learn) (enough : Bool)
      → enough ≡ leb (quorum g) slot.votes
      → slot.rnd ≡ msg.rnd
      → Ballot slot
      → IsBallot Ignored Outside g msg
          (done (slot, if enough then some (msg.val, slot.id) else none))
  IsBallot-of_counted g slot msg true e same b =
      (b, same, refl, omega (arith, b.counted, leb→le (quorum g) slot.votes (sym e)))
  IsBallot-of_counted g slot msg false e same b = (b, inr (ground (arith, b.counted)))

  count_learn_pos :
      (g : GrpMgr) (slot : LearnerSlot) (msg : Learn) (i : ℕ) (o : Option (Option Learn))
      → msg.id.paxos_id ≡ pos i
      → get_elem? slot.learns i ≡ o
      → slot.rnd ≡ msg.rnd
      → Ballot slot
      → ((i : ℕ) (l : Learn)
          → msg.id.paxos_id ≡ pos i
          → get_elem? slot.learns i ≡ some (some l)
          → Ignored)
      → (index slot.learns msg.id.paxos_id ≡ none → Outside)
      → IsBallot Ignored Outside g msg (count_learn g slot msg)
  count_learn_pos g slot msg i none id e same b taken outside =
      subst (IsBallot Ignored Outside g msg) (sym (count_learn_outside g slot msg (ground arith)))
        (outside (ground arith))
  count_learn_pos g slot msg i (some (some l)) id e same b taken outside =
      subst (IsBallot Ignored Outside g msg) (sym (count_learn_taken g slot msg i l id e))
        (b, inl (taken i l id e))
  count_learn_pos g slot msg i (some none) id e same b taken outside =
      subst (IsBallot Ignored Outside g msg) (sym (count_learn_free g slot msg i id e)) (
        IsBallot-of_counted g (counted_slot slot i msg) msg (leb (quorum g) (inc slot.votes)) refl
          same (counted_slot-Ballot slot i msg id e same b))

  count_learn_at :
      (g : GrpMgr) (slot : LearnerSlot) (msg : Learn) (p : ℤ)
      → msg.id.paxos_id ≡ p
      → slot.rnd ≡ msg.rnd
      → Ballot slot
      → ((i : ℕ) (l : Learn)
          → msg.id.paxos_id ≡ pos i
          → get_elem? slot.learns i ≡ some (some l)
          → Ignored)
      → (index slot.learns msg.id.paxos_id ≡ none → Outside)
      → IsBallot Ignored Outside g msg (count_learn g slot msg)
  count_learn_at g slot msg (pos i) id same b taken outside =
      count_learn_pos g slot msg i (get_elem? slot.learns i) id refl same b taken outside
  count_learn_at g slot msg (negsuc i) id same b taken outside =
      subst (IsBallot Ignored Outside g msg) (sym (count_learn_outside g slot msg (ground arith)))
        (outside (ground arith))

reset_slot-Ballot :
    (g : GrpMgr) (slot : LearnerSlot) (msg : Learn)
    → nr_of_nodes g + 1 < uint_mod
    → Ballot (reset_slot g slot msg)
reset_slot-Ballot g slot msg h = record {
  counted = sym (voters-replicate Learn (nr_of_nodes g));
  room = omega (arith, length-replicate {A = Option Learn} (nr_of_nodes g) none);
  own = λ i l e. absurd (get-replicate (nr_of_nodes g) i l e);
}

-- A learn to a slot that is not learned keeps the slot's ballot in order: at most one learn of each
-- replica, each of the slot's round, as many as the votes (in a group of fewer than 2 ^ 64 - 1
-- nodes). It returns a value, which is the learn's own, if there is a quorum of such learns in its
-- round. It returns none if there is no quorum yet, or the learn is of a lower round or repeats its
-- sender's. It panics only if the sender's id is out of the range of the learns.
pub learn_slot-IsBallot :
    (g : GrpMgr) (slot : LearnerSlot) (msg : Learn)
    → nr_of_nodes g + 1 < uint_mod
    → Ballot slot
    → IsBallot (Ignores slot msg) (HasNoPlace g slot msg) g msg (learn_slot g slot msg)
unfolding learn_slot
learn_slot-IsBallot g slot msg h b = elim (Ordering-cases (compare_round slot.rnd msg.rnd)) [
  | inl lower ↦
      rw (lower, learn_slot)
        (count_learn_at (Ignores slot msg) (HasNoPlace g slot msg) g (reset_slot g slot msg) msg
          msg.id.paxos_id refl refl (reset_slot-Ballot g slot msg h)
          (λ i l id e. absurd (get-replicate (nr_of_nodes g) i l e)) (λ e. inr e))
  | inr (inl same) ↦
      let eq = eq_of_compare_round slot.rnd msg.rnd same in
      rw (same, learn_slot)
        (count_learn_at (Ignores slot msg) (HasNoPlace g slot msg) g slot msg msg.id.paxos_id refl
          eq b (λ i l id e. inr (eq, (i, l, id, e))) (λ e. inl e))
  | inr (inr higher) ↦
      rw (higher, learn_slot) (b, inl (inl (compare_round-flip slot.rnd msg.rnd ∙ ap flip higher)))
]
