-- ===== src/Multipaxos/Learner/Runs.antt =====
-- Whole runs of the learner (the loop of `Start` in multipaxos/learner.go): any events, each with
-- the group manager as it is at that time.
use goxos.Base.{ℕ, ◌+◌, ◌≡◌, refl, Bool, List, [], ◌∷◌, ◌++◌, ◌≤◌, ◌<◌, arith, uint_mod, All}
use mathlib.Core.List.{append_assoc, append-nil}
use goxos.Base.Outcome.{Outcome, done, panic, diverge, ◌>>=◌}
use goxos.Grp.Id.{GrpId}
use goxos.Grp.NodeMap.{GrpMgr}
use goxos.Paxos.Value.{Value}
use goxos.Multipaxos.Learner.{MultiLearner, new_multi_learner}
use goxos.Multipaxos.Learner.Loop.{Event, Output, decide, send_req, send_resp, step}
use goxos.Multipaxos.Learner.Advance.{Delivers}
use goxos.Multipaxos.Learner.Learning.{Settled}
use goxos.Multipaxos.Learner.Delivery.{decided, StepDelivers, InBounds, step-StepDelivers}

-- The rounds of the loop for a list of events; what is sent, in order.
unfoldable pub run : MultiLearner → List (GrpMgr × Event) → Outcome (MultiLearner × List Output)
run l [] = done (l, [])
run l ((g, e) ∷ es) = step g l e >>= λ r. run r.0 es >>= λ r'. done (r'.0, r.1 ++ r'.1)

decided-append : (xs ys : List Output) → decided (xs ++ ys) ≡ decided xs ++ decided ys
unfolding decided
decided-append [] ys = refl
decided-append (decide v ∷ xs) ys = rw (decided-append xs ys)
decided-append (send_req r d ∷ xs) ys = decided-append xs ys
decided-append (send_resp r d ∷ xs) ys = decided-append xs ys

module _ (bound first : ℕ) (top : bound + 1 < uint_mod) where
  run_of_run :
      (vals : List Value) (outs : List Output) (o : Outcome (MultiLearner × List Output))
      → StepDelivers bound first top (vals ++ decided outs) o
      → StepDelivers bound first top vals (o >>= λ r'. done (r'.0, outs ++ r'.1))
  run_of_run vals outs (done (l, more)) h = (
    rw (decided-append outs more) (rw (← append_assoc vals (decided outs) (decided more)) h.0),
    h.1,
  )
  run_of_run vals outs panic h = tt
  run_of_run vals outs diverge h = h

  run_of_step :
      (vals : List Value) (o : Outcome (MultiLearner × List Output)) (es : List (GrpMgr × Event))
      → StepDelivers bound first top vals o
      → ((l : MultiLearner) (vals' : List Value)
          → Delivers bound first l vals'
          → Settled l
          → StepDelivers bound first top vals' (run l es))
      → StepDelivers bound first top vals (o >>= λ r. run r.0 es >>= λ r'. done (r'.0, r.1 ++ r'.1))
  run_of_step vals (done (l, outs)) es h f =
      run_of_run vals outs (run l es) (f l (vals ++ decided outs) h.0 h.1)
  run_of_step vals panic es h f = tt
  run_of_step vals diverge es h f = h

  pub run-StepDelivers :
      (es : List (GrpMgr × Event)) (l : MultiLearner) (vals : List Value)
      → All (λ (ge : GrpMgr × Event). InBounds bound first top ge.1) es
      → Delivers bound first l vals
      → Settled l
      → StepDelivers bound first top vals (run l es)
  unfolding run decided
  run-StepDelivers [] l vals b d s = (rw (append-nil vals) d, s)
  run-StepDelivers ((g, e) ∷ es) l vals b d s =
      run_of_step vals (step g l e) es (step-StepDelivers bound first top g l vals e b.0 d s)
        (λ l' vals' d' s'. run-StepDelivers es l' vals' b.1 d' s')

-- The run does not loop for ever, and if no step panics it has sent the values of the slots from
-- the first on, up to one that is not learned.
abbrev pub InOrder : ℕ → ℕ → Outcome (MultiLearner × List Output) → Type 0
InOrder bound first (done (l, outs)) = Delivers bound first l (decided outs) × Settled l
InOrder bound first panic = Unit
InOrder bound first diverge = ⊥

-- A new learner, under any events whose slots are below a bound (itself below the last word), never
-- loops for ever; and unless a step panics, the values that it has sent to the server are, one by
-- one, those that its slots from its first expected slot on have learned: in slot order, without a
-- gap, none twice, none changed later; and none is held back, since the slot after the last one sent
-- is not learned.
pub learner-InOrder :
    (bound : ℕ) (id : GrpId) (run_lrn : Bool) (leader : GrpId) (first : ℕ)
    (es : List (GrpMgr × Event))
    → (top : bound + 1 < uint_mod) → first ≤ bound
    → All (λ (ge : GrpMgr × Event). InBounds bound first top ge.1) es
    → InOrder bound first (run (new_multi_learner id run_lrn leader first) es)
learner-InOrder bound id run_lrn leader first es top low b = in_order (run start es) (
    run-StepDelivers bound first top es start [] b start-Delivers
      (unfold new_multi_learner in refl))
  where
    start : MultiLearner
    start = new_multi_learner id run_lrn leader first

    start-Delivers : Delivers bound first start []
    start-Delivers =
        unfold new_multi_learner in
        record {
          keyed = λ k s e. cc;
          seen = omega arith;
          learned_below = λ k h. cc;
          next_below = low;
          at_next = omega arith;
          delivered = λ i v h. cc;
          fresh = λ k h. refl;
          decided_learned = λ k h. h;
        }

    in_order :
        (o : Outcome (MultiLearner × List Output))
        → StepDelivers bound first top [] o
        → InOrder bound first o
    in_order (done (l, outs)) h = h
    in_order panic h = h
    in_order diverge h = h
