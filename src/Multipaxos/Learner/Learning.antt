-- ===== src/Multipaxos/Learner/Learning.antt =====
-- What it is to learn the value of a slot (`learnVal` of multipaxos/learner.go).
use goxos.Base.{
  ◌∙◌, ℕ, ◌≡◌, ◌≢◌, ◌⊎◌, inl, inr, refl, ap, Bool, true, false, some, ◌<◌, arith, ltb, ◌==◌,
  Bool-cases, if◌then◌else◌,
}
use goxos.Base.Outcome.{done, panic}
use goxos.Paxos.Value.{Value}
use goxos.Paxos.Slots.{LearnerSlot, get_learner_slot, put_learner_slot}
use goxos.Multipaxos.Learner.{MultiLearner, advance, start_cu, learn_val}
use goxos.Multipaxos.Learner.Slots.{Keyed, id-learner_slot_of, learner_slot_of-put}
use goxos.Multipaxos.Learner.Advance.{IsSent, read}
use goxos.Multipaxos.Learner.Facts.{KeepsFacts}

-- The learner with slot `k` learned, at or after the next slot.
abbrev pub learned_at : MultiLearner → ℕ → Value → MultiLearner
learned_at l k v = record l {
  slots =
      put_learner_slot (get_learner_slot l.slots k).0 k
        (record (read l k) { learned = true; learned_val = v });
}

pub read-learned_at :
    (l : MultiLearner) (k : ℕ) (v : Value) (j : ℕ)
    → read (learned_at l k v) j
      ≡ (if k == j then record (read l k) { learned = true; learned_val = v } else read l j)
read-learned_at l k v j =
    learner_slot_of-put l.slots k j (record (read l k) { learned = true; learned_val = v })

pub IsSent-if :
    (b : Bool) (new old : LearnerSlot) (v : Value)
    → IsSent old v
    → b ≢ true
    → IsSent (if b then new else old) v
IsSent-if true new old v s h = absurd (h refl)
IsSent-if false new old v s h = s

-- How `learnVal` ends for a value of slot `k`.
abbrev pub LearnedValue : MultiLearner → Value → ℕ → Type 0
LearnedValue l v k =
    ((k < l.next) × (learn_val l (some (v, k)) ≡ panic))
    ⊎ ((k ≡ l.next) × (learn_val l (some (v, k)) ≡ done (learned_at l k v, advance)))
    ⊎ ((l.next < k) × (learn_val l (some (v, k)) ≡ done (learned_at l k v, start_cu k)))

-- For a value of a slot (in a slot map that stores slots under their ids), `learnVal` panics if the
-- slot is below the next one to deliver. Else it marks the slot as learned, with the value, and
-- asks to advance if the slot is the next one, or for a catch-up up to it if it is above.
pub learn_val-cases : (l : MultiLearner) (v : Value) (k : ℕ) → Keyed l.slots → LearnedValue l v k
unfolding learn_val
learn_val-cases l v k keyed =
    let id = id-learner_slot_of l.slots k keyed in
    elim (Bool-cases (k == l.next)) [
      | inl here ↦ inr (inl (ground arith, ground (arith, id)))
      | inr other ↦ elim (Bool-cases (ltb l.next k)) [
        | inl above ↦ inr (inr (ground arith, ground (arith, id)))
        | inr below ↦ inl (ground arith, ground (arith, id))
      ]
    ]

-- The next slot to deliver is not learned: nothing that could be sent is held back.
abbrev pub Settled : MultiLearner → Type 0
Settled l = (read l l.next).learned ≡ false

pub KeepsFacts-Settled :
    (bound : ℕ) (l l' : MultiLearner)
    → l'.next ≡ l.next
    → KeepsFacts bound l.slots l'.slots
    → Settled l
    → Settled l'
KeepsFacts-Settled bound l l' e k s = ap (λ n. (read l' n).learned) e ∙ (k.facts l.next).learned ∙ s

pub learned_at-Settled :
    (l : MultiLearner) (k : ℕ) (v : Value) → l.next < k → Settled l → Settled (learned_at l k v)
learned_at-Settled l k v above s = ground (arith, s, read-learned_at l k v l.next)
