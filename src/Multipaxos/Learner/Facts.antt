-- ===== src/Multipaxos/Learner/Facts.antt =====
-- Which operations of the learner leave what is learned and decided as it is
-- (multipaxos/learner.go): all but `learnVal`, `adv` and `handleCUResp`.
use goxos.Base.{
  ℕ, ◌+◌, ◌-◌, ◌≡◌, ◌≢◌, ◌⊎◌, inl, inr, refl, sym, subst, ◌∙◌, false, Option, none, some, List, [],
  ◌∷◌, ◌≤◌, ◌<◌, arith, ◌==◌, Bool-cases, if◌then◌else◌, for_range, for_range_inv, inc, uint_mod,
  All,
}
use goxos.Base.Outcome.{Outcome, done, panic, diverge, ◌>>=◌}
use goxos.Grp.NodeMap.{GrpMgr}
use goxos.Paxos.Value.{Value}
use goxos.Paxos.Msg.{Learn, RangeTuple}
use goxos.Paxos.Slots.{
  LearnerSlot, LearnerSlotMap, get_learner_slot, put_learner_slot, learner_slot_of,
}
use goxos.Multipaxos.Learner.{MultiLearner, count_learn, learn_slot, handle_lrn}
use goxos.Multipaxos.Learner.CatchUp.{
  Undecided, no_range, undecided_round, get_undec_slots, Answers, answer_round, answer_ranges,
}
use goxos.Multipaxos.Learner.Slots.{
  Keyed, id-learner_slot_of, get-Keyed, put-Keyed, learner_slot_of-get, learner_slot_of-put,
}
use goxos.Multipaxos.Learner.Advance.{Delivers}

-- Two slots that tell the server the same.
pub record SameFacts (s t : LearnerSlot) : Type 0 where
  pub learned : t.learned ≡ s.learned
  pub decided : t.decided ≡ s.decided
  pub value : t.learned_val ≡ s.learned_val

-- A map with the same facts at every slot.
pub record KeepsFacts (bound : ℕ) (sm sm' : LearnerSlotMap) : Type 0 where
  pub keyed : Keyed sm → Keyed sm'
  pub seen : sm.max_seen ≤ bound → sm'.max_seen ≤ bound
  pub facts : (k : ℕ) → SameFacts (learner_slot_of sm.slots k) (learner_slot_of sm'.slots k)

SameFacts-refl : (s : LearnerSlot) → SameFacts s s
SameFacts-refl s = record { learned = refl; decided = refl; value = refl }

SameFacts-trans : (s t u : LearnerSlot) → SameFacts s t → SameFacts t u → SameFacts s u
SameFacts-trans s t u f g = record {
  learned = g.learned ∙ f.learned;
  decided = g.decided ∙ f.decided;
  value = g.value ∙ f.value;
}

SameFacts-if :
    (sm : LearnerSlotMap) (k j : ℕ) (slot : LearnerSlot)
    → SameFacts (learner_slot_of sm.slots k) slot
    → SameFacts (learner_slot_of sm.slots j) (if k == j then slot else learner_slot_of sm.slots j)
SameFacts-if sm k j slot same = ground arith

module _ (bound : ℕ) where
  pub KeepsFacts-refl : (sm : LearnerSlotMap) → KeepsFacts bound sm sm
  KeepsFacts-refl sm = record {
    keyed = λ h. h;
    seen = λ h. h;
    facts = λ k. SameFacts-refl (learner_slot_of sm.slots k);
  }

  KeepsFacts-trans :
      (a b c : LearnerSlotMap) → KeepsFacts bound a b → KeepsFacts bound b c → KeepsFacts bound a c
  KeepsFacts-trans a b c f g = record {
    keyed = λ h. g.keyed (f.keyed h);
    seen = λ h. g.seen (f.seen h);
    facts = λ k.
        SameFacts-trans (learner_slot_of a.slots k) (learner_slot_of b.slots k)
          (learner_slot_of c.slots k) (f.facts k) (g.facts k);
  }

  max_seen-get :
      (sm : LearnerSlotMap) (k : ℕ)
      → k ≤ bound
      → sm.max_seen ≤ bound
      → (get_learner_slot sm k).0.max_seen ≤ bound
  unfolding get_learner_slot
  max_seen-get sm k h l = ground arith

  pub get-KeepsFacts :
      (sm : LearnerSlotMap) (k : ℕ) → k ≤ bound → KeepsFacts bound sm (get_learner_slot sm k).0
  get-KeepsFacts sm k h = record {
    keyed = get-Keyed sm k;
    seen = max_seen-get sm k h;
    facts = λ j.
        subst (SameFacts (learner_slot_of sm.slots j)) (sym (learner_slot_of-get sm k j))
          (SameFacts-refl (learner_slot_of sm.slots j));
  }

  -- A write of a slot with the same facts.
  put-KeepsFacts :
      (sm : LearnerSlotMap) (k : ℕ) (slot : LearnerSlot)
      → Keyed sm
      → k ≤ bound
      → slot.id ≡ k
      → SameFacts (learner_slot_of sm.slots k) slot
      → KeepsFacts bound sm (put_learner_slot (get_learner_slot sm k).0 k slot)
  put-KeepsFacts sm k slot keyed h id same = record {
    keyed = λ h. put-Keyed sm k slot keyed id;
    seen = max_seen-get sm k h;
    facts = λ j.
        subst (SameFacts (learner_slot_of sm.slots j)) (sym (learner_slot_of-put sm k j slot))
          (SameFacts-if sm k j slot same);
  }

  -- A learner whose slots have the same facts has delivered the same.
  pub KeepsFacts-Delivers :
      (first : ℕ) (l l' : MultiLearner) (vals : List Value)
      → l'.next ≡ l.next
      → KeepsFacts bound l.slots l'.slots
      → Delivers bound first l vals
      → Delivers bound first l' vals
  KeepsFacts-Delivers first l l' vals e k d = record {
    keyed = k.keyed d.keyed;
    seen = k.seen d.seen;
    learned_below = λ j h. d.learned_below j (sym (k.facts j).learned ∙ h);
    next_below = rw e d.next_below;
    at_next = e ∙ d.at_next;
    delivered = λ i v g.
        let s = d.delivered i v g in
        let f = k.facts (first + i) in
        record {
          learned = f.learned ∙ s.learned;
          decided = f.decided ∙ s.decided;
          value = f.value ∙ s.value;
        };
    fresh = λ j h. (k.facts j).decided ∙ d.fresh j (rw e at h);
    decided_learned =
        λ j h. (k.facts j).learned ∙ d.decided_learned j (sym (k.facts j).decided ∙ h);
  }

-- What `handleLrn` does to a slot that is not learned.
record Counted (slot slot' : LearnerSlot) (msg : Learn) (res : Option (Value × ℕ)) : Type 0 where
  same_id : slot'.id ≡ slot.id
  same : SameFacts slot slot'
  result : (res ≡ none) ⊎ (res ≡ some (msg.val, slot.id))

count_learn-Counted :
    (g : GrpMgr) (slot slot' : LearnerSlot) (msg : Learn) (res : Option (Value × ℕ))
    → count_learn g slot msg ≡ done (slot', res)
    → Counted slot slot' msg res
unfolding count_learn
count_learn-Counted g slot slot' msg res h = ground arith

learn_slot-Counted :
    (g : GrpMgr) (slot slot' : LearnerSlot) (msg : Learn) (res : Option (Value × ℕ))
    → learn_slot g slot msg ≡ done (slot', res)
    → Counted slot slot' msg res
unfolding learn_slot count_learn
learn_slot-Counted g slot slot' msg res h = ground arith

learn_slot-ne-diverge :
    (g : GrpMgr) (slot : LearnerSlot) (msg : Learn) → learn_slot g slot msg ≢ diverge
unfolding learn_slot count_learn
learn_slot-ne-diverge g slot msg h = ground arith

-- What a learn changes of what is learned and decided: nothing. What it returns, when it returns a
-- value, is the message's value and slot.
pub record Heard (bound : ℕ) (l l' : MultiLearner) (msg : Learn) (res : Option (Value × ℕ))
    : Type 0 where
  pub same_next : l'.next ≡ l.next
  pub keeps : KeepsFacts bound l.slots l'.slots
  pub result : (res ≡ none) ⊎ (res ≡ some (msg.val, msg.slot))

abbrev pub IsHeard : ℕ → MultiLearner → Learn → Outcome (MultiLearner × Option (Value × ℕ)) → Type 0
IsHeard bound l msg (done (l', res)) = Heard bound l l' msg res
IsHeard bound l msg panic = Unit
IsHeard bound l msg diverge = ⊥

IsHeard-of_Counted :
    (bound : ℕ) (l : MultiLearner) (msg : Learn) (o : Outcome (LearnerSlot × Option (Value × ℕ)))
    → Keyed l.slots
    → msg.slot ≤ bound
    → o ≢ diverge
    → ((slot' : LearnerSlot) (res : Option (Value × ℕ))
        → o ≡ done (slot', res)
        → Counted (learner_slot_of l.slots.slots msg.slot) slot' msg res)
    → IsHeard bound l msg (
        o >>= λ r. done (
          record l { slots = put_learner_slot (get_learner_slot l.slots msg.slot).0 msg.slot r.0 },
          r.1,
        ))
IsHeard-of_Counted bound l msg (done (slot', res)) keyed h live f =
    let id = id-learner_slot_of l.slots msg.slot keyed in
    let c = f slot' res refl in
    record {
      same_next = refl;
      keeps = put-KeepsFacts bound l.slots msg.slot slot' keyed h (c.same_id ∙ id) c.same;
      result = ground (arith, c.result, id);
    }
IsHeard-of_Counted bound l msg panic keyed h live f = tt
IsHeard-of_Counted bound l msg diverge keyed h live f = live refl

pub handle_lrn-IsHeard :
    (bound : ℕ) (g : GrpMgr) (l : MultiLearner) (msg : Learn)
    → Keyed l.slots
    → msg.slot ≤ bound
    → IsHeard bound l msg (handle_lrn g l msg)
unfolding handle_lrn
handle_lrn-IsHeard bound g l msg keyed h =
    elim (Bool-cases (learner_slot_of l.slots.slots msg.slot).learned) [
      | inl old ↦
          rw (old, handle_lrn)
            (record {
              same_next = refl;
              keeps = get-KeepsFacts bound l.slots msg.slot h;
              result = inl refl;
            })
      | inr new ↦
          rw (new, handle_lrn)
            (IsHeard-of_Counted bound l msg
              (learn_slot g (learner_slot_of l.slots.slots msg.slot) msg) keyed h
              (learn_slot-ne-diverge g (learner_slot_of l.slots.slots msg.slot) msg)
              (λ slot' res e.
                learn_slot-Counted g (learner_slot_of l.slots.slots msg.slot) slot' msg res e))
    ]

undecided_round-slots :
    (i : ℕ) (u : Undecided) → (undecided_round i u).slots ≡ (get_learner_slot u.slots i).0
unfolding undecided_round
undecided_round-slots i u = ground arith

answer_round-slots :
    (i : ℕ) (b : Answers) → (answer_round i b).slots ≡ (get_learner_slot b.slots i).0
unfolding answer_round
answer_round-slots i b = refl

-- A loop whose body reads the slot of its counter, below the bound.
scan-KeepsFacts :
    (bound : ℕ) (S : Type 0) (slots : S → LearnerSlotMap) (body : ℕ → S → S)
    → ((i : ℕ) (s : S) → slots (body i s) ≡ (get_learner_slot (slots s) i).0)
    → (n i : ℕ) (s : S) → ((k : ℕ) → i ≤ k → k < i + n → k ≤ bound)
    → KeepsFacts bound (slots s) (slots (for_range n i body s))
scan-KeepsFacts bound S slots body reads n i s h =
    for_range_inv (λ k t. KeepsFacts bound (slots s) (slots t)) body n i (i + n) s refl
      (λ k t lo hi p.
        KeepsFacts-trans bound (slots s) (slots t) (slots (body k t)) p
          (rw (reads k t) (get-KeepsFacts bound (slots t) k (h k lo hi))))
      (KeepsFacts-refl bound (slots s))

-- The catch-up requests read slots, and change none.
pub get_undec_slots-KeepsFacts :
    (bound : ℕ) (sm : LearnerSlotMap) (next slot : ℕ)
    → slot ≤ bound
    → KeepsFacts bound sm (get_undec_slots sm next slot).0
unfolding get_undec_slots
get_undec_slots-KeepsFacts bound sm next slot h =
    scan-KeepsFacts bound Undecided (λ u. u.slots) undecided_round undecided_round-slots
      (slot - next) next (record { slots = sm; ts = []; t = no_range; start = false })
      (λ k lo hi. omega arith)

pub answer_ranges-KeepsFacts :
    (bound : ℕ) (rngs : List RangeTuple) (b : Answers)
    → bound + 1 < uint_mod
    → All (λ r. r.to < bound) rngs
    → KeepsFacts bound b.slots (answer_ranges rngs b).slots
unfolding answer_ranges
answer_ranges-KeepsFacts bound [] b top h = KeepsFacts-refl bound b.slots
answer_ranges-KeepsFacts bound (r ∷ rngs) b top h =
    let b' = for_range (inc r.to - r.from) r.from answer_round b in
    KeepsFacts-trans bound b.slots b'.slots (answer_ranges rngs b').slots
      (scan-KeepsFacts bound Answers (λ c. c.slots) answer_round answer_round-slots
        (inc r.to - r.from) r.from b (λ k lo hi. omega (arith, h.0)))
      (answer_ranges-KeepsFacts bound rngs b' top h.1)
