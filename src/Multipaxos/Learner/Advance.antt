-- ===== src/Multipaxos/Learner/Advance.antt =====
-- What the learner has delivered, and that `advance` delivers the next slots in order
-- (`adv` and the loops that call it in multipaxos/learner.go).
use goxos.Base.{
  ℕ, zero, suc, ◌+◌, ◌-◌, ◌≡◌, ◌≢◌, ◌⊎◌, inl, inr, refl, sym, ap, subst, ◌∙◌, true, false, none,
  some, List, [], ◌∷◌, ◌++◌, ◌≤◌, ◌<◌, arith, ◌==◌, if◌then◌else◌, Bool-cases, get_elem?, length,
  length-append, get_elem?-append_last, lt_of_get_elem?, uint_mod, inc,
}
use goxos.Base.Outcome.{done}
use mathlib.Core.List.{append_assoc, append-nil}
use goxos.Paxos.Value.{Value}
use goxos.Paxos.Slots.{LearnerSlot, get_learner_slot, put_learner_slot, learner_slot_of}
use goxos.Multipaxos.Learner.{MultiLearner, adv, advance_all}
use goxos.Multipaxos.Learner.Slots.{
  Keyed, id-learner_slot_of, get-Keyed, put-Keyed, learner_slot_of-get, learner_slot_of-put,
}

-- The slot as it reads.
abbrev pub read : MultiLearner → ℕ → LearnerSlot
read l k = learner_slot_of l.slots.slots k

-- The slot has been sent to the server, with value `v`.
pub record IsSent (slot : LearnerSlot) (v : Value) : Type 0 where
  pub learned : slot.learned ≡ true
  pub decided : slot.decided ≡ true
  pub value : slot.learned_val ≡ v

-- A learner that started at slot `first` has sent exactly `vals`: those are the values of the slots
-- from `first` on, one by one, and no slot from `next` on is decided. The bound is above every
-- learned slot.
pub record Delivers (bound first : ℕ) (l : MultiLearner) (vals : List Value) : Type 0 where
  pub keyed : Keyed l.slots
  pub seen : l.slots.max_seen ≤ bound
  pub learned_below : (k : ℕ) → (read l k).learned ≡ true → k < bound
  pub next_below : l.next ≤ bound
  pub at_next : l.next ≡ first + length vals
  pub delivered : (i : ℕ) (v : Value) → get_elem? vals i ≡ some v → IsSent (read l (first + i)) v
  pub fresh : (k : ℕ) → l.next ≤ k → (read l k).decided ≡ false
  pub decided_learned : (k : ℕ) → (read l k).decided ≡ true → (read l k).learned ≡ true

-- The slot map when `adv` finds the next slot undecided, and when it sends it.
abbrev pub stopped : MultiLearner → MultiLearner
stopped l = record l { slots = (get_learner_slot l.slots l.next).0 }

abbrev pub sent_next : MultiLearner → MultiLearner
sent_next l = record l {
  slots =
      put_learner_slot (get_learner_slot l.slots l.next).0 l.next
        (record (read l l.next) { decided = true });
  next = inc l.next;
}

module _ (l : MultiLearner) where
  read-sent_next :
      (j : ℕ)
      → read (sent_next l) j
        ≡ (if l.next == j then record (read l l.next) { decided = true } else read l j)
  read-sent_next j =
      learner_slot_of-put l.slots l.next j (record (read l l.next) { decided = true })

  read-sent_next_ne : (j : ℕ) → l.next ≢ j → read (sent_next l) j ≡ read l j
  read-sent_next_ne j h = read-sent_next j ∙ ground arith

  read-sent_next_self : read (sent_next l) l.next ≡ record (read l l.next) { decided = true }
  read-sent_next_self = read-sent_next l.next ∙ ground arith

  learned-sent_next : (k : ℕ) → (read (sent_next l) k).learned ≡ (read l k).learned
  learned-sent_next k = elim (Bool-cases (l.next == k)) [
    | inl here ↦
        let e : l.next ≡ k = ground arith in
        subst (λ j. (read (sent_next l) j).learned ≡ (read l j).learned) e
          (ap (λ t. t.learned) read-sent_next_self)
    | inr other ↦ ap (λ t. t.learned) (read-sent_next_ne k (ground arith))
  ]

module _ (bound first : ℕ) (top : bound + 1 < uint_mod) (l : MultiLearner) (vals : List Value) where
  max_seen-get-le :
      (k : ℕ)
      → Delivers bound first l vals
      → k ≤ bound
      → (get_learner_slot l.slots k).0.max_seen ≤ bound
  unfolding get_learner_slot
  max_seen-get-le k d h = let s = d.seen in ground arith

  pub stopped-Delivers : Delivers bound first l vals → Delivers bound first (stopped l) vals
  stopped-Delivers d = record {
    keyed = get-Keyed l.slots l.next d.keyed;
    seen = max_seen-get-le l.next d d.next_below;
    learned_below = λ k h. d.learned_below k (rw (learner_slot_of-get l.slots l.next k) at h);
    next_below = d.next_below;
    at_next = d.at_next;
    delivered = λ i v e. rw (learner_slot_of-get l.slots l.next (first + i)) (d.delivered i v e);
    fresh = λ k h. rw (learner_slot_of-get l.slots l.next k) (d.fresh k h);
    decided_learned = λ k h.
        let same = learner_slot_of-get l.slots l.next k in
        ap (λ t. t.learned) same ∙ d.decided_learned k (ap (λ t. t.decided) (sym same) ∙ h);
  }

  sent_next-delivered :
      Delivers bound first l vals
      → (read l l.next).learned ≡ true
      → (i : ℕ) (v : Value) → get_elem? (vals ++ (read l l.next).learned_val ∷ []) i ≡ some v
      → IsSent (read (sent_next l) (first + i)) v
  sent_next-delivered d learned i v e = elim (get_elem?-append_last vals _ i e) [
    | inl old ↦
        subst (λ s. IsSent s v)
          (sym (
            read-sent_next_ne l (first + i) (omega (arith, d.at_next, lt_of_get_elem? vals i old))))
          (d.delivered i v old)
    | inr (last, same) ↦
        let here : l.next ≡ first + i = omega (arith, d.at_next) in
        subst (λ s. IsSent s v) (sym (ap (read (sent_next l)) (sym here) ∙ read-sent_next_self l))
          (record { learned = learned; decided = refl; value = same })
  ]

  pub sent_next-Delivers :
      Delivers bound first l vals
      → (read l l.next).learned ≡ true
      → Delivers bound first (sent_next l) (vals ++ (read l l.next).learned_val ∷ [])
  sent_next-Delivers d learned =
      let below = d.learned_below l.next learned in
      let step : inc l.next ≡ l.next + 1 = omega arith in
      record {
        keyed =
            put-Keyed l.slots l.next (record (read l l.next) { decided = true }) d.keyed
              (id-learner_slot_of l.slots l.next d.keyed);
        seen = max_seen-get-le l.next d d.next_below;
        learned_below = λ k h. d.learned_below k (sym (learned-sent_next l k) ∙ h);
        next_below = omega arith;
        at_next = omega (arith, d.at_next, length-append vals ((read l l.next).learned_val ∷ []));
        delivered = sent_next-delivered d learned;
        fresh = λ k h.
            ap (λ t. t.decided) (read-sent_next_ne l k (omega arith)) ∙ d.fresh k (omega arith);
        decided_learned = λ k h. learned-sent_next l k ∙ elim (Bool-cases (l.next == k)) [
          | inl here ↦ ap (λ j. (read l j).learned) (ground arith) ∙ learned
          | inr other ↦
              d.decided_learned k
                (ap (λ t. t.decided) (sym (read-sent_next_ne l k (ground arith))) ∙ h)
        ];
      }

-- How a call of `adv` ends.
pub adv-cases :
    (l : MultiLearner)
    → (read l l.next).decided ≡ false
    → (((read l l.next).learned ≡ false) × (adv l ≡ (stopped l, none)))
      ⊎ (((read l l.next).learned ≡ true)
          × (adv l ≡ (
            record l { slots = (sent_next l).slots },
            some ((read l l.next).learned_val, l.next),
          )))
unfolding adv
adv-cases l fresh = elim (Bool-cases (read l l.next).learned) [
  | inl learned ↦ inr (learned, ground arith)
  | inr not_yet ↦ inl (not_yet, ground arith)
]

-- With fuel for every slot up to the highest learned one, the loop over `adv` ends, and sends the
-- values of the next slots up to the first that is not learned.
pub advance_all-Delivers :
    (bound first : ℕ)
    → bound + 1 < uint_mod
    → (fuel m : ℕ) (l : MultiLearner) (vals : List Value)
    → ((k : ℕ) → (read l k).learned ≡ true → k ≤ m)
    → m + 1 - l.next < fuel
    → Delivers bound first l vals
    → (l' : MultiLearner) × (out : List Value) × (advance_all fuel l ≡ done (l', out))
      × Delivers bound first l' (vals ++ out)
      × ((read l' l'.next).learned ≡ false)
unfolding advance_all
advance_all-Delivers bound first top zero m l vals low f d = absurd (omega arith)
advance_all-Delivers bound first top (suc fuel) m l vals low f d =
    elim (adv-cases l (d.fresh l.next (omega arith))) [
      | inl (not_yet, e) ↦ (
        stopped l,
        [],
        rw (e, advance_all) (rw e),
        rw (append-nil vals) (stopped-Delivers bound first top l vals d),
        ap (λ t. t.learned) (learner_slot_of-get l.slots l.next l.next) ∙ not_yet,
      )
      | inr (learned, e) ↦
          let (l', out, run, d', stop) =
            advance_all-Delivers bound first top fuel m (sent_next l)
              (vals ++ (read l l.next).learned_val ∷ [])
              (λ k h. low k (sym (learned-sent_next l k) ∙ h))
              (omega (arith, d.learned_below l.next learned, low l.next learned))
              (sent_next-Delivers bound first top l vals d learned) in
          (
            l',
            (read l l.next).learned_val ∷ out,
            rw (e, advance_all) (rw e (rw run)),
            rw (← append_assoc vals ((read l l.next).learned_val ∷ []) out) d',
            stop,
          )
    ]
