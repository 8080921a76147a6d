-- ===== src/Multipaxos/Learner/Delivery.antt =====
-- Whole runs of the learner (the loop of `Start` in multipaxos/learner.go): what it sends to the
-- server, over any events.
use goxos.Base.{
  ℕ, ◌+◌, ◌≡◌, ◌≢◌, inl, inr, refl, sym, subst, ap, true, false, ◌||◌, Option, none, some, List, [],
  ◌∷◌, ◌++◌, map, ◌<◌, arith, ◌==◌, Bool-cases, uint_mod, All,
}
use mathlib.Core.List.{append-nil}
use goxos.Base.Outcome.{Outcome, done, panic, diverge, ◌>>=◌}
use goxos.Grp.Id.{id_eq}
use goxos.Grp.NodeMap.{GrpMgr}
use goxos.Paxos.Value.{Value}
use goxos.Paxos.Msg.{Learn, RangeTuple, ResponseTuple}
use goxos.Paxos.Slots.{get_learner_slot}
use goxos.Multipaxos.Learner.{MultiLearner, Verdict, wait, advance, start_cu, handle_lrn, learn_val}
use goxos.Multipaxos.Learner.CatchUp.{
  get_undec_slots, handle_cu_req, fill_slot, fill_slots, handle_cu_resp,
}
use goxos.Multipaxos.Learner.Loop.{
  Event, Output, learn, creq, cresp, trust, grp_hold, stop, decide, send_req, send_resp,
  advance_loop, act, step,
}
use goxos.Multipaxos.Learner.Slots.{stored_of_learned, id-learner_slot_of, put-Keyed}
use goxos.Multipaxos.Learner.Advance.{Delivers, IsSent, read, advance_all-Delivers}
use goxos.Multipaxos.Learner.Facts.{
  KeepsFacts, KeepsFacts-refl, KeepsFacts-Delivers, get-KeepsFacts, IsHeard, handle_lrn-IsHeard,
  get_undec_slots-KeepsFacts, answer_ranges-KeepsFacts,
}
use goxos.Multipaxos.Learner.Learning.{
  learned_at, read-learned_at, IsSent-if, learn_val-cases, Settled, KeepsFacts-Settled,
  learned_at-Settled,
}

-- The values among what is sent.
unfoldable pub decided : List Output → List Value
decided [] = []
decided (decide v ∷ outs) = v ∷ decided outs
decided (send_req r dest ∷ outs) = decided outs
decided (send_resp r dest ∷ outs) = decided outs

decided-map : (vals : List Value) → decided (map decide vals) ≡ vals
unfolding decided
decided-map [] = refl
decided-map (v ∷ vals) = ap (◌∷◌ v) (decided-map vals)

module _ (bound first : ℕ) (top : bound + 1 < uint_mod) where
  -- Learning a slot that is not decided keeps what was delivered.
  learned_at-Delivers :
      (l : MultiLearner) (vals : List Value) (k : ℕ) (v : Value)
      → k < bound
      → (read l k).decided ≡ false
      → Delivers bound first l vals
      → Delivers bound first (learned_at l k v) vals
  learned_at-Delivers l vals k v h open_slot d = record {
    keyed =
        put-Keyed l.slots k (record (read l k) { learned = true; learned_val = v }) d.keyed
          (id-learner_slot_of l.slots k d.keyed);
    seen = (get-KeepsFacts bound l.slots k (omega arith)).seen d.seen;
    learned_below = λ j e. ground (arith, read-learned_at l k v j, d.learned_below j);
    next_below = d.next_below;
    at_next = d.at_next;
    delivered = λ i u e.
        let s = d.delivered i u e in
        subst (λ t. IsSent t u) (sym (read-learned_at l k v (first + i)))
          (IsSent-if (k == first + i) (record (read l k) { learned = true; learned_val = v })
            (read l (first + i)) u s
            (λ b.
              let same : k ≡ first + i = ground arith in
              ground (arith, s.decided, ap (λ j. (read l j).decided) same)));
    fresh = λ j e. ground (arith, read-learned_at l k v j, d.fresh j e);
    decided_learned = λ j e. ground (arith, read-learned_at l k v j, d.decided_learned j);
  }

  -- `learnVal`
  abbrev IsLearned : MultiLearner → List Value → Outcome (MultiLearner × Verdict) → Type 0
  IsLearned l vals (done (l', verdict)) =
      Delivers bound first l' vals
      × ((k : ℕ) → verdict ≡ start_cu k → k < bound)
      × (verdict ≢ advance → Settled l')
  IsLearned l vals panic = Unit
  IsLearned l vals diverge = ⊥

  learn_val-IsLearned :
      (l : MultiLearner) (vals : List Value) (res : Option (Value × ℕ))
      → ((v : Value) (k : ℕ) → res ≡ some (v, k) → k < bound)
      → Delivers bound first l vals
      → Settled l
      → IsLearned l vals (learn_val l res)
  unfolding learn_val
  learn_val-IsLearned l vals none h d s = (d, λ k e. cc, λ _. s)
  learn_val-IsLearned l vals (some (v, k)) h d s = elim (learn_val-cases l v k d.keyed) [
    | inl (_, e) ↦ rw (e, learn_val) tt
    | inr (inl (at, e)) ↦
        rw (e, learn_val)
          (
            learned_at-Delivers l vals k v (h v k refl) (d.fresh k (omega arith)) d,
            λ j f. cc,
            λ other. absurd (other refl),
          )
    | inr (inr (above, e)) ↦
        rw (e, learn_val)
          (
            learned_at-Delivers l vals k v (h v k refl) (d.fresh k (omega arith)) d,
            λ j f. ground (arith, h v k refl),
            λ _. learned_at-Settled l k v above s,
          )
  ]

  -- `handleCUResp`: a slot that is not learned is filled.
  fill_slot-Delivers :
      (l : MultiLearner) (vals : List Value) (dec : ResponseTuple)
      → dec.slot < bound
      → Delivers bound first l vals
      → Delivers bound first (record l { slots = fill_slot l.slots dec }) vals
  unfolding fill_slot
  fill_slot-Delivers l vals dec h d = elim (Bool-cases (read l dec.slot).learned) [
    | inl old ↦
        rw (old, fill_slot)
          (KeepsFacts-Delivers bound first l
            (record l { slots = (get_learner_slot l.slots dec.slot).0 }) vals refl
            (get-KeepsFacts bound l.slots dec.slot (omega arith)) d)
    | inr new ↦
        rw (new, fill_slot)
          (learned_at-Delivers l vals dec.slot dec.val h
            (ground (arith, d.decided_learned dec.slot)) d)
  ]

  fill_slots-Delivers :
      (decs : List ResponseTuple) (l : MultiLearner) (vals : List Value)
      → All (λ (t : ResponseTuple). t.slot < bound) decs
      → Delivers bound first l vals
      → Delivers bound first (record l { slots = fill_slots l.slots decs }) vals
  unfolding fill_slots
  fill_slots-Delivers [] l vals h d = d
  fill_slots-Delivers (dec ∷ decs) l vals h d =
      fill_slots-Delivers decs (record l { slots = fill_slot l.slots dec }) vals h.1
        (fill_slot-Delivers l vals dec h.0 d)

  -- What a step sends, after the values sent before.
  abbrev pub StepDelivers : List Value → Outcome (MultiLearner × List Output) → Type 0
  StepDelivers vals (done (l', outs)) = Delivers bound first l' (vals ++ decided outs) × Settled l'
  StepDelivers vals panic = Unit
  StepDelivers vals diverge = ⊥

  advance_loop-StepDelivers :
      (l : MultiLearner) (vals : List Value)
      → Delivers bound first l vals
      → StepDelivers vals (advance_loop l)
  unfolding advance_loop
  advance_loop-StepDelivers l vals d =
      let (l', out, run, d', settled) =
        advance_all-Delivers bound first top (l.slots.max_seen + 2) l.slots.max_seen l vals
          (λ k h. (d.keyed k (read l k) (stored_of_learned l.slots k h)).1) (omega arith) d in
      rw (run, advance_loop) (rw (decided-map out) d', settled)

  -- A learner whose slots have the same facts, after nothing more was sent.
  asked_more :
      (l : MultiLearner) (vals : List Value) (l' : MultiLearner)
      → l'.next ≡ l.next
      → KeepsFacts bound l.slots l'.slots
      → Delivers bound first l vals
      → Settled l
      → Delivers bound first l' (vals ++ []) × Settled l'
  asked_more l vals l' e k d s = (
    rw (append-nil vals) (KeepsFacts-Delivers bound first l l' vals e k d),
    KeepsFacts-Settled bound l l' e k s,
  )

  act-StepDelivers :
      (l : MultiLearner) (vals : List Value) (verdict : Verdict)
      → ((k : ℕ) → verdict ≡ start_cu k → k < bound)
      → Delivers bound first l vals
      → (verdict ≢ advance → Settled l)
      → StepDelivers vals (act l verdict)
  unfolding act decided
  act-StepDelivers l vals wait h d s = (rw (append-nil vals) d, s (λ e. cc))
  act-StepDelivers l vals advance h d s = advance_loop-StepDelivers l vals d
  act-StepDelivers l vals (start_cu k) h d s =
      elim (Bool-cases (l.catch_up_in_progress || id_eq l.id l.leader)) [
        | inl skip ↦ rw (skip, act) (rw (append-nil vals) d, s (λ e. cc))
        | inr ask ↦
            rw (ask, act)
              (asked_more l vals
                (record l {
                  catch_up_in_progress = true;
                  slots = (get_undec_slots l.slots l.next k).0;
                })
                refl (get_undec_slots-KeepsFacts bound l.slots l.next k (omega (arith, h k refl))) d
                (s (λ e. cc)))
      ]

  step_of_learned :
      (l : MultiLearner) (vals : List Value) (o : Outcome (MultiLearner × Verdict))
      → IsLearned l vals o
      → StepDelivers vals (o >>= λ r. act r.0 r.1)
  step_of_learned l vals (done (l', verdict)) (d, h, s) = act-StepDelivers l' vals verdict h d s
  step_of_learned l vals panic h = tt
  step_of_learned l vals diverge h = h

  step_of_heard :
      (l : MultiLearner) (vals : List Value) (msg : Learn)
      (o : Outcome (MultiLearner × Option (Value × ℕ)))
      → msg.slot < bound
      → IsHeard bound l msg o
      → Delivers bound first l vals
      → Settled l
      → StepDelivers vals (o >>= λ r. learn_val r.0 r.1 >>= λ r'. act r'.0 r'.1)
  step_of_heard l vals msg (done (l', res)) below h d s =
      step_of_learned l' vals (learn_val l' res) (
        learn_val-IsLearned l' vals res (λ v k e. ground (arith, h.result))
          (KeepsFacts-Delivers bound first l l' vals h.same_next h.keeps d)
          (KeepsFacts-Settled bound l l' h.same_next h.keeps s))
  step_of_heard l vals msg panic below h d s = tt
  step_of_heard l vals msg diverge below h d s = h

  -- The slots that an event names are below the bound.
  abbrev pub InBounds : Event → Type 0
  InBounds (learn msg) = msg.slot < bound
  InBounds (creq msg) = All (λ (r : RangeTuple). r.to < bound) msg.ranges
  InBounds (cresp msg) = All (λ (t : ResponseTuple). t.slot < bound) msg.vals
  InBounds _ = Unit

  pub step-StepDelivers :
      (g : GrpMgr) (l : MultiLearner) (vals : List Value) (e : Event)
      → InBounds e
      → Delivers bound first l vals
      → Settled l
      → StepDelivers vals (step g l e)
  unfolding step decided
  step-StepDelivers g l vals (learn msg) b d s =
      step_of_heard l vals msg (handle_lrn g l msg) b
        (handle_lrn-IsHeard bound g l msg d.keyed (omega arith)) d s
  step-StepDelivers g l vals (creq msg) b d s =
      asked_more l vals (handle_cu_req l msg).0 refl
        (answer_ranges-KeepsFacts bound msg.ranges (record { slots = l.slots; ts = [] }) top b) d s
  step-StepDelivers g l vals (cresp msg) b d s =
      let l' = record (handle_cu_resp l msg) { catch_up_in_progress = false } in
      advance_loop-StepDelivers l' vals (
        KeepsFacts-Delivers bound first (record l { slots = fill_slots l.slots msg.vals }) l' vals
          refl (KeepsFacts-refl bound (fill_slots l.slots msg.vals))
          (fill_slots-Delivers msg.vals l vals b d))
  step-StepDelivers g l vals (trust id) b d s =
      asked_more l vals (record l { leader = id }) refl (KeepsFacts-refl bound l.slots) d s
  step-StepDelivers g l vals (grp_hold released) b d s =
      asked_more l vals (record l { id = released.id }) refl (KeepsFacts-refl bound l.slots) d s
  step-StepDelivers g l vals stop b d s =
      asked_more l vals (record l { started = false }) refl (KeepsFacts-refl bound l.slots) d s
