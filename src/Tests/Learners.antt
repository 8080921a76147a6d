-- ===== src/Tests/Learners.antt =====
-- The learner (multipaxos/learner.go) on concrete messages.
use goxos.Base.{
  ℕ, ◌≡◌, refl, true, none, some, List, [], ◌∷◌, arith, zero, suc, ap, sym, ◌∙◌, pos, get_elem?,
  for_range,
}
use goxos.Base.Outcome.{done, ◌>>=◌}
use goxos.Grp.Id.{compare_to}
use goxos.Grp.NodeMap.{GrpMgr}
use goxos.Paxos.Round.{compare_round}
use goxos.Paxos.Msg.{Learn}
use goxos.Paxos.Slots.{LearnerSlot, new_learner_slot, get_learner_slot}
use goxos.Multipaxos.Learner.{
  MultiLearner, new_multi_learner, count_learn, learn_slot, handle_lrn, learn_val, adv, advance_all,
}
use goxos.Multipaxos.Learner.CatchUp.{
  note_slot, undecided_round, get_undec_slots, gen_catch_up_req, answer_round, answer_ranges,
  handle_cu_req, fill_slot, fill_slots, handle_cu_resp,
}
use goxos.Multipaxos.Learner.Loop.{Event, learn, cresp, trust, stop, step, act, advance_loop}
use goxos.Multipaxos.Learner.Delivery.{decided}
use goxos.Base.Stored.{voters}
use goxos.Multipaxos.Learner.Runs.{run, InOrder, learner-InOrder}
use goxos.Multipaxos.Learner.Quorum.{Ballot, IsBallot, Ignores, HasNoPlace, learn_slot-IsBallot}
use goxos.Paxos.SlotsLr.{LearnerLrSlot, new_learner_lr_slot}
use goxos.Multipaxos.Learner.Live.{
  IsLiveBallot, IgnoresLr, note_epochs, learn_slot_lr, learn_slot_lr-IsLiveBallot,
}
use goxos.Tests.{replica, manager, round, value, learn_from}

program : Unit {0}
unfolding new_multi_learner get_learner_slot count_learn learn_slot handle_lrn learn_val adv
    advance_all note_slot undecided_round get_undec_slots gen_catch_up_req answer_round
    answer_ranges handle_cu_req fill_slot fill_slots handle_cu_resp step act advance_loop run
    decided for_range compare_round compare_to
program = tt

abbrev start : MultiLearner
start = new_multi_learner (replica 1) true (replica 0) 0

-- Two learns of slot 1, and then two of slot 0, which complete both; a repeated learn; a catch-up
-- answer for slots 2 and 4.
abbrev events : List (GrpMgr × Event)
events =
    (manager, learn (learn_from 0 1 2 8))
    ∷ (manager, learn (learn_from 2 1 2 8))
    ∷ (manager, learn (learn_from 0 0 2 7))
    ∷ (manager, learn (learn_from 0 0 2 7))
    ∷ (manager, learn (learn_from 1 0 2 7))
    ∷ (
      manager,
      cresp (record {
        id = replica 0;
        vals = record { slot = 2; val = value 9 } ∷ record { slot = 4; val = value 5 } ∷ [];
      }),
    )
    ∷ (manager, trust (replica 2))
    ∷ (manager, stop)
    ∷ []

-- Three values are sent, in slot order.
sent_in_order :
    run start events >>= (λ r. done (decided r.1)) ≡ done (value 7 ∷ value 8 ∷ value 9 ∷ [])
unfolding program
sent_in_order = refl

learner-InOrder_example : InOrder 10 0 (run start events)
learner-InOrder_example =
    learner-InOrder 10 (replica 1) true (replica 0) 0 events (omega arith) (omega arith) (
      omega arith,
      (
        omega arith,
        (
          omega arith,
          (omega arith, (omega arith, ((omega arith, (omega arith, tt)), (tt, (tt, tt))))),
        ),
      ),
    )

-- The slot 1 after one learn.
abbrev one_vote : LearnerSlot
one_vote = record (new_learner_slot 1) {
  rnd = round 2;
  learns = some (learn_from 0 1 2 8) ∷ none ∷ none ∷ [];
  votes = 1;
}

only_first :
    (m l : Learn) (i : ℕ)
    → get_elem? (some m ∷ none ∷ none ∷ []) i ≡ some (some l)
    → (0 ≡ i) × (m ≡ l)
only_first m l zero h = (refl, cc)
only_first m l (suc zero) h = cc
only_first m l (suc (suc zero)) h = cc
only_first m l (suc (suc (suc i))) h = cc

learn_slot-IsBallot_example :
    IsBallot
      (Ignores one_vote (learn_from 2 1 2 8))
      (HasNoPlace manager one_vote (learn_from 2 1 2 8))
      manager
      (learn_from 2 1 2 8)
      (learn_slot manager one_vote (learn_from 2 1 2 8))
learn_slot-IsBallot_example =
    learn_slot-IsBallot manager one_vote (learn_from 2 1 2 8) (omega arith) one_vote-Ballot
  where
    one_vote-Ballot : Ballot one_vote
    one_vote-Ballot =
        unfold voters in
        record {
          counted = refl;
          room = omega arith;
          own = λ i l e.
              let (at, is) = only_first (learn_from 0 1 2 8) l i e in
              (ap (λ m. m.id.paxos_id) (sym is) ∙ ap pos at, ap (λ m. m.rnd) (sym is));
        }

-- A slot under live replacement, without a learn.
abbrev fresh_lr : LearnerLrSlot
fresh_lr = new_learner_lr_slot 1

learn_slot_lr-IsLiveBallot_example :
    IsLiveBallot
      (IgnoresLr fresh_lr (learn_from 2 1 2 8))
      ((note_epochs manager fresh_lr (learn_from 2 1 2 8)).check_vq ≡ true)
      manager
      (learn_from 2 1 2 8)
      (learn_slot_lr manager fresh_lr (learn_from 2 1 2 8))
learn_slot_lr-IsLiveBallot_example =
    learn_slot_lr-IsLiveBallot manager fresh_lr (learn_from 2 1 2 8) (omega arith)
      (record { counted = refl; own = tt; apart = tt })
