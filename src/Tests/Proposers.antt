-- ===== src/Tests/Proposers.antt =====
-- The proposer (multipaxos/proposer.go) on concrete messages.
use goxos.Base.{ℕ, ◌≡◌, refl, true, false, Option, none, some, List, [], ◌∷◌, arith}
use goxos.Base.Outcome.{done}
use goxos.Grp.NodeMap.{GrpMgr, epoch_slices_equal, epochs_match}
use goxos.Paxos.Msg.{AcceptorSlot, Promise}
use goxos.Multipaxos.Proposer.{
  MultiProposer, Output, new_multi_proposer, set_state_from_promises, start_phase_one, handle_prom,
  handle_prom_lr, reset_phase_one_data,
}
use goxos.Multipaxos.Proposer.PhaseTwo.{send_accepts}
use goxos.Multipaxos.Proposer.Proposals.{
  proposal_of, all_reports, IsHighest, proposal-IsHighest, set_state_from_promises-decided,
}
use goxos.Multipaxos.Proposer.Accepts.{Sends}
use goxos.Multipaxos.Proposer.Sending.{send_accepts-Sends}
use goxos.Multipaxos.Proposer.Tally.{
  EmptyTally, IsTally, handle_prom-IsTally, start_phase_one-EmptyTally,
}
use goxos.Multipaxos.Proposer.Repeats.{one_promise_is_a_quorum}
use goxos.Tests.{replica, manager, round, value}

-- The leader, with slot 4 the first that is not decided, and two values to propose.
abbrev leader : MultiProposer
leader = record (new_multi_proposer (replica 0) true (replica 0) manager 3 4) {
  req_queue = value 1 ∷ value 2 ∷ [];
}

abbrev vote_of : ℕ → ℕ → ℕ → AcceptorSlot
vote_of slot rnd b = record { id = slot; v_rnd = round rnd; v_val = value b }

abbrev promise_of : ℕ → List AcceptorSlot → Promise
promise_of sender slots = record {
  id = replica sender;
  rnd = round 1;
  acc_slots = slots;
  epoch_vector = 0 ∷ 0 ∷ 0 ∷ [];
}

-- A promise for the phase one that `leader` starts.
abbrev answer : Promise
answer = record (promise_of 2 []) { rnd = round 2 }

-- Two promises that report votes of different rounds for slot 5, and one of a decided slot.
abbrev promises : List (Option Promise)
promises =
    some (promise_of 0 (vote_of 5 2 8 ∷ vote_of 2 1 4 ∷ []))
    ∷ none
    ∷ some (promise_of 2 (vote_of 5 3 9 ∷ []))
    ∷ []

proposal-IsHighest_example :
    IsHighest
      (proposal_of leader.slots 5)
      (all_reports 5 promises)
      (proposal_of (set_state_from_promises 3 leader.slots promises) 5)
proposal-IsHighest_example = proposal-IsHighest 3 leader.slots promises 5 (omega arith)

set_state_from_promises-decided_example :
    (set_state_from_promises 3 leader.slots promises).slots 2 ≡ leader.slots.slots 2
set_state_from_promises-decided_example =
    set_state_from_promises-decided 3 promises leader.slots 2 (omega arith)

send_accepts-Sends_example :
    (q : MultiProposer) × (outs : List Output) × (send_accepts leader ≡ done (q, outs))
    × Sends leader q outs
send_accepts-Sends_example =
    send_accepts-Sends leader (unfold new_multi_proposer in omega arith)
      (unfold new_multi_proposer in λ k s e. ground arith)

start_phase_one-EmptyTally_example : EmptyTally manager (start_phase_one manager true leader).0
start_phase_one-EmptyTally_example =
    start_phase_one-EmptyTally manager true leader refl (omega arith)

handle_prom-IsTally_example :
    IsTally manager
      (start_phase_one manager true leader).0
      answer
      (handle_prom manager (start_phase_one manager true leader).0 answer)
handle_prom-IsTally_example =
    handle_prom-IsTally manager (start_phase_one manager true leader).0 answer
      (start_phase_one-EmptyTally manager true leader refl (omega arith)).tally

abbrev replacing : GrpMgr
replacing = record manager { lr_enabled = true }

one_promise_is_a_quorum_example :
    (q : MultiProposer) × (q' : MultiProposer) × (handle_prom_lr replacing
        (reset_phase_one_data replacing leader)
        (promise_of 2 [])
      ≡ done (q, false))
    × (handle_prom_lr replacing q (promise_of 2 []) ≡ done (q', true))
    × (q'.phase_one_promises ≡ some (promise_of 2 []) ∷ some (promise_of 2 []) ∷ [])
one_promise_is_a_quorum_example =
    one_promise_is_a_quorum replacing leader (promise_of 2 []) refl refl
      (unfold new_multi_proposer in refl) (unfold epoch_slices_equal epochs_match in refl)
