-- ===== src/Tests/Acceptors.antt =====
-- The acceptor (multipaxos/acceptor.go) on concrete messages.
use goxos.Base.{
  ap, sym, ◌∙◌, subst, insert, no_entries, ◌⊎◌, All, ℕ, ◌≡◌, refl, true, some, List, [], ◌∷◌, arith,
  for_upto, for_range,
}
use mathlib.Core.List.{Memᴰ}
use goxos.Base.Outcome.{done}
use goxos.Grp.NodeMap.{GrpMgr}
use goxos.Paxos.Round.{compare_round, RoundLe, RoundLe-refl}
use goxos.Paxos.Msg.{AcceptorSlot, new_acceptor_slot, Prepare, Promise}
use goxos.Paxos.Slots.{get_acceptor_slot}
use goxos.Multipaxos.Acceptor.{
  MultiAcceptor, Event, Output, prepare, accept, trust, state_request, slot_request, stop, send,
  regular, new_multi_acceptor, collect_slot, make_slots, make_acc_slots, collect, answer_prepare,
  handle_prep, vote, handle_acc, handle_prepare, handle_accept, state_reply, slot_reply, step,
}
use goxos.Multipaxos.Acceptor.Invariant.{SlotsValid}
use goxos.Multipaxos.Acceptor.Reports.{IsVote}
use goxos.Multipaxos.Acceptor.Prepares.{
  PrepareOutcome, prepare_outcome, promise_complete, promise_sound,
}
use goxos.Multipaxos.Acceptor.Votes.{AcceptOutcome, accept_outcome}
use goxos.Multipaxos.Acceptor.Steps.{IsValid}
use goxos.Multipaxos.Acceptor.Runs.{
  run, IsRun, AtLeast, run-IsRun, new_multi_acceptor-IsValid, promise_kept,
}
use goxos.Tests.{replica, manager, round, value, accept_of}

program : Unit {0}
unfolding new_multi_acceptor collect_slot make_slots make_acc_slots collect answer_prepare
    handle_prep vote handle_acc handle_prepare handle_accept state_reply slot_reply step run
    get_acceptor_slot for_upto
program = tt

-- The length of a slice of slots that the runtime can allocate.
abbrev limit : ℕ
limit = 1000

abbrev start : MultiAcceptor
start = new_multi_acceptor (replica 1) true (replica 0) 0 manager

start-IsValid : IsValid start
start-IsValid = new_multi_acceptor-IsValid (replica 1) true (replica 0) 0 manager (omega arith)

abbrev prepare_of : ℕ → ℕ → Prepare
prepare_of rnd slot = record { id = replica 0; c_rnd = round rnd; slot = slot }

-- A prepare, two accepts, an old prepare, and a later prepare and accept of the same slot.
abbrev events : List (GrpMgr × Event)
events =
    (manager, prepare (prepare_of 2 0))
    ∷ (manager, accept (accept_of 1 2 7))
    ∷ (manager, accept (accept_of 2 2 8))
    ∷ (manager, prepare (prepare_of 1 0))
    ∷ (manager, prepare (prepare_of 3 1))
    ∷ (manager, accept (accept_of 1 3 7))
    ∷ (manager, state_request 0 manager)
    ∷ (manager, trust (replica 2))
    ∷ (manager, slot_request)
    ∷ (manager, stop)
    ∷ []

-- The acceptor that has voted for 8 in slot 1.
abbrev vote_of_slot : AcceptorSlot
vote_of_slot = record { id = 1; v_rnd = round 2; v_val = value 8 }

abbrev voted : MultiAcceptor
voted = record start {
  processing = true;
  slots = record { slots = insert no_entries 1 vote_of_slot; rnd = round 2; max_seen = 1 };
}

stored_voted : (v s : AcceptorSlot) (k : ℕ) → insert no_entries 1 v k ≡ some s → (k ≡ 1) × (v ≡ s)
stored_voted v s k h = ground arith

voted-SlotsValid : SlotsValid voted.slots
unfolding new_multi_acceptor compare_round
voted-SlotsValid = record {
  stored = λ k s e.
      let (at, is) = stored_voted vote_of_slot s k e in
      (
        ap (λ t. t.id) (sym is) ∙ sym at,
        subst (λ t. RoundLe t.v_rnd (round 2)) is (RoundLe-refl (round 2)),
        omega arith,
      );
  above_zero = ground arith;
}

voted-IsValid : IsValid voted
unfolding new_multi_acceptor
voted-IsValid = record { slots_valid = voted-SlotsValid; room = omega arith }

run-IsRun_example : IsRun start (run limit start events)
run-IsRun_example = run-IsRun limit events start start-IsValid (
  omega arith,
  (
    omega arith,
    (omega arith, (omega arith, (omega arith, (omega arith, (tt, (tt, (tt, (tt, tt)))))))),
  ),
)

-- What `voted` promises to a prepare of round 3.
abbrev promise_three : Promise
promise_three = record {
  id = replica 1;
  rnd = round 3;
  acc_slots = vote_of_slot ∷ [];
  epoch_vector = [];
}

abbrev promised : MultiAcceptor
promised = record voted {
  slots = record voted.slots { slots = insert voted.slots.slots 1 vote_of_slot; rnd = round 3 };
}

promised_three :
    handle_prepare limit regular manager voted (prepare_of 3 1)
    ≡ done (promised, some (promise_three, replica 0))
unfolding program compare_round for_range
promised_three = refl

step-promised :
    step limit manager voted (prepare (prepare_of 3 1))
    ≡ done (promised, send promise_three (replica 0) ∷ [])
unfolding program compare_round for_range
step-promised = refl

promise_complete_example : Memᴰ vote_of_slot promise_three.acc_slots
promise_complete_example =
    promise_complete limit regular manager voted promised (prepare_of 3 1) promise_three (replica 0)
      voted-SlotsValid (omega arith) promised_three 1 vote_of_slot (omega arith) refl
      (unfold compare_round in refl)

promise_sound_example :
    All (λ s. (s ≡ new_acceptor_slot 0) ⊎ IsVote voted.slots 1 s) promise_three.acc_slots
promise_sound_example =
    promise_sound limit regular manager voted promised (prepare_of 3 1) promise_three (replica 0)
      (omega arith) promised_three

promise_kept_example :
    (b : MultiAcceptor) × (outs : List Output) × (run limit promised events ≡ done (b, outs))
    × All (AtLeast (round 3)) outs
promise_kept_example =
    promise_kept limit manager voted promised (prepare_of 3 1) promise_three (replica 0) events
      voted-IsValid (omega arith)
      (
        omega arith,
        (
          omega arith,
          (omega arith, (omega arith, (omega arith, (omega arith, (tt, (tt, (tt, (tt, tt)))))))),
        ),
      )
      (step-promised)

prepare_outcome_example : PrepareOutcome limit regular manager voted (prepare_of 3 1)
prepare_outcome_example = prepare_outcome limit regular manager voted (prepare_of 3 1) (omega arith)

accept_outcome_example :
    AcceptOutcome regular voted
      (accept_of 1 3 9)
      (handle_accept regular manager voted (accept_of 1 3 9))
accept_outcome_example = accept_outcome regular manager voted (accept_of 1 3 9) voted-SlotsValid
