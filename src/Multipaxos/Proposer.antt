-- ===== src/Multipaxos/Proposer.antt =====
-- The MultiPaxos proposer (multipaxos/proposer.go): its state and phase one. Broadcasts and resets
-- of the two timers are outputs, in order. The request queue is a list of values.
pub mod PhaseTwo
pub mod Loop
pub mod Proposals
pub mod Accepts
pub mod Sending
pub mod Tally
pub mod Repeats
use goxos.Base.{
  ℕ, zero, suc, ◌+◌, ◌-◌, ◌≡◌, Bool, true, false, not, ◌&&◌, ◌||◌, Option, none, some, List, [],
  ◌∷◌, ◌++◌, Ordering, replicate, length, ltb, leb, ◌==◌, if◌then◌else◌, inc, sub_uint, for_range,
  ℤ, pos, negsuc, index, set, get_elem?, map,
}
use goxos.Base.Outcome.{Outcome, done, panic, diverge, ◌>>=◌, or_panic}
use goxos.Grp.Id.{GrpId, id_eq}
use goxos.Grp.NodeMap.{GrpMgr, quorum, nr_of_nodes, epochs, epoch_slices_equal}
use goxos.Paxos.Round.{
  ProposerRound, new_proposer_round, next_round, set_owner, compare_round, is_eq, is_ge,
}
use goxos.Paxos.Value.{Value}
use goxos.Paxos.Msg.{AcceptorSlot, Prepare, Promise, Accept}
use goxos.Paxos.Slots.{
  ProposerSlot, ProposerSlotMap, new_proposer_slot_map, get_proposer_slot, put_proposer_slot,
}
use goxos.Paxos.SlotsLr.{nobody, mark}
use goxos.Lr.ValidQuorum.{extract_vq}

-- `type MultiProposer struct`; `lr` tells which promise handler the constructor chose.
pub record MultiProposer : Type 0 where
  pub id : GrpId
  pub startable : Bool
  pub started : Bool
  pub leader : GrpId
  pub alpha : ℕ
  pub crnd : ProposerRound
  pub next_slot : ℕ
  pub adu : ℕ
  pub slots : ProposerSlotMap
  pub req_queue : List Value
  pub phase_one_vq_check : Bool
  pub phase_one_promises : List (Option Promise)
  pub phase_one_recv_from : GrpId → Bool
  pub phase_one_count : ℕ
  pub phase_one_done : Bool
  pub lr : Bool

-- `NewMultiProposer`, of the pack's `ID`, `RunProp`, Paxos leader, `Gm`, alpha and `FirstSlot`.
unfoldable pub new_multi_proposer : GrpId → Bool → GrpId → GrpMgr → ℕ → ℕ → MultiProposer
new_multi_proposer id run_prop leader g alpha first_slot = record {
  id = id;
  startable = run_prop;
  started = false;
  leader = leader;
  alpha = alpha;
  crnd = new_proposer_round id;
  next_slot = first_slot;
  adu = sub_uint first_slot 1;
  slots = new_proposer_slot_map;
  req_queue = [];
  phase_one_vq_check = false;
  phase_one_promises = [];
  phase_one_recv_from = nobody;
  phase_one_count = 0;
  phase_one_done = false;
  lr = g.lr_enabled;
}

-- What the proposer sends, and the timers that it resets.
pub data Output : Type 0 where
  bcast_prepare : Prepare → Output
  bcast_accept : Accept → Output
  reset_phase_one_timer reset_phase_two_timer : Output

-- `resetPhaseOneData`
unfoldable pub reset_phase_one_data : GrpMgr → MultiProposer → MultiProposer
reset_phase_one_data g p =
    let q = record p { phase_one_done = false; phase_one_count = 0 } in
    if g.lr_enabled
    then record q {
      phase_one_vq_check = false;
      phase_one_promises = [];
      phase_one_recv_from = nobody;
    }
    else record q { phase_one_promises = replicate (nr_of_nodes g) none }

-- The body of `resetSentCountersInAlphaWindow`.
unfoldable pub reset_sent_count : ℕ → ProposerSlotMap → ProposerSlotMap
unfolding get_proposer_slot
reset_sent_count i sm =
    let (sm', slot) = get_proposer_slot sm i in
    put_proposer_slot sm' i (record slot { sent_count = 0 })

-- `resetSentCountersInAlphaWindow`
unfoldable pub reset_sent_counters_in_alpha_window : MultiProposer → MultiProposer
unfolding reset_sent_count for_range
reset_sent_counters_in_alpha_window p = record p {
  slots = for_range (p.next_slot - inc p.adu) (inc p.adu) reset_sent_count p.slots;
}

-- `updateStatePrePhaseOne`
unfoldable pub update_state_pre_phase_one : GrpMgr → Bool → MultiProposer → MultiProposer
unfolding reset_phase_one_data reset_sent_counters_in_alpha_window
update_state_pre_phase_one g clear_request_queue p =
    let q = reset_sent_counters_in_alpha_window (reset_phase_one_data g p) in
    record q {
      crnd = next_round q.crnd;
      req_queue = if clear_request_queue then [] else q.req_queue;
    }

-- `startPhaseOne`
unfoldable pub start_phase_one : GrpMgr → Bool → MultiProposer → MultiProposer × List Output
unfolding update_state_pre_phase_one
start_phase_one g clear_request_queue p =
    let q = update_state_pre_phase_one g clear_request_queue p in
    (
      q,
      bcast_prepare (record { id = q.id; c_rnd = q.crnd; slot = q.adu })
          ∷ reset_phase_one_timer
          ∷ [],
    )

-- `&px.Accept{Rnd: accSlot.VRnd, Val: accSlot.VVal}`; the other fields are zero.
abbrev pub accept_of_slot : AcceptorSlot → Accept
accept_of_slot acc_slot = record {
  id = record { paxos_id = pos 0; epoch = 0 };
  slot = 0;
  rnd = acc_slot.v_rnd;
  val = acc_slot.v_val;
}

-- The proposal of a slot after a promise's acceptor slot.
unfoldable pub merge_proposal : Option Accept → AcceptorSlot → Option Accept
merge_proposal none acc_slot = some (accept_of_slot acc_slot)
merge_proposal (some a) acc_slot =
    if is_ge (compare_round a.rnd acc_slot.v_rnd) then some a else some (accept_of_slot acc_slot)

-- One round of the loop of `setStateFromPromise`.
unfoldable pub set_state_from_slot : ℕ → ProposerSlotMap → AcceptorSlot → ProposerSlotMap
unfolding get_proposer_slot merge_proposal
set_state_from_slot adu sm acc_slot =
    if leb acc_slot.id adu
    then sm
    else let (sm', slot) = get_proposer_slot sm acc_slot.id in
      put_proposer_slot sm' acc_slot.id
        (record slot { proposal = merge_proposal slot.proposal acc_slot })

-- `setStateFromPromise`
unfoldable pub set_state_from_promise : ℕ → ProposerSlotMap → List AcceptorSlot → ProposerSlotMap
unfolding set_state_from_slot
set_state_from_promise adu sm [] = sm
set_state_from_promise adu sm (s ∷ ss) =
    set_state_from_promise adu (set_state_from_slot adu sm s) ss

-- `setStateFromPromises`
unfoldable pub set_state_from_promises :
    ℕ → ProposerSlotMap → List (Option Promise) → ProposerSlotMap
unfolding set_state_from_promise
set_state_from_promises adu sm [] = sm
set_state_from_promises adu sm (none ∷ ps) = set_state_from_promises adu sm ps
set_state_from_promises adu sm (some p ∷ ps) =
    set_state_from_promises adu (set_state_from_promise adu sm p.acc_slots) ps

-- `p.phaseOnePromises[id] = msg`, the index being in range.
abbrev pub set_promise : List (Option Promise) → ℤ → Promise → List (Option Promise)
set_promise ps (pos i) msg = set ps i (some msg)
set_promise ps (negsuc i) msg = ps

-- `handleProm`; the Boolean tells whether there is a quorum.
unfoldable pub handle_prom : GrpMgr → MultiProposer → Promise → Outcome (MultiProposer × Bool)
handle_prom g p msg =
    if p.phase_one_done || not (is_eq (compare_round p.crnd msg.rnd))
    then done (p, false)
    else (or_panic (index p.phase_one_promises msg.id.paxos_id) >>= λ old. elim old [
      | some _ ↦ done (p, false)
      | none ↦
          let q = record p {
            phase_one_promises = set_promise p.phase_one_promises msg.id.paxos_id msg;
            phase_one_count = inc p.phase_one_count;
          } in
          done (q, leb (quorum g) q.phase_one_count)
    ])

-- The stored promises; under live replacement none is nil.
unfoldable pub stored_promises : List (Option Promise) → List Promise
stored_promises [] = []
stored_promises (none ∷ ps) = stored_promises ps
stored_promises (some p ∷ ps) = p ∷ stored_promises ps

-- `onlyValidPromises[i] = p.phaseOnePromises[j]`
unfoldable pub only_valid : List (Option Promise) → List ℕ → Outcome (List (Option Promise))
only_valid ps [] = done []
only_valid ps (j ∷ js) = do p ← or_panic (get_elem? ps j); rest ← only_valid ps js; done (p ∷ rest)

-- `handlePromLr`, from the check of the quorum on.
unfoldable pub check_promises_lr : GrpMgr → MultiProposer → Outcome (MultiProposer × Bool)
unfolding stored_promises only_valid
check_promises_lr g q =
    if ltb q.phase_one_count (quorum g)
    then done (q, false)
    else if not q.phase_one_vq_check
    then done (q, true)
    else (extract_vq (λ (m : Promise). m.id) (λ m. m.epoch_vector)
          (stored_promises q.phase_one_promises) (quorum g)
        >>= λ r.
            if not r.0
            then done (q, false)
            else if length r.1 == length q.phase_one_promises
            then done (q, true)
            else (only_valid q.phase_one_promises r.1 >>= λ valid.
                done (record q { phase_one_promises = valid }, true)))

-- `handlePromLr`. The source never writes `phaseOneRecvFrom`.
unfoldable pub handle_prom_lr : GrpMgr → MultiProposer → Promise → Outcome (MultiProposer × Bool)
unfolding check_promises_lr
handle_prom_lr g p msg =
    if p.phase_one_done || not (is_eq (compare_round p.crnd msg.rnd))
    then done (p, false)
    else if p.phase_one_recv_from msg.id
    then done (p, false)
    else check_promises_lr g (record p {
      phase_one_promises = p.phase_one_promises ++ some msg ∷ [];
      phase_one_count = inc p.phase_one_count;
      phase_one_vq_check =
          p.phase_one_vq_check || not (epoch_slices_equal msg.epoch_vector (epochs g));
    })

-- The call through the field `handlePromise`.
unfoldable pub handle_promise : GrpMgr → MultiProposer → Promise → Outcome (MultiProposer × Bool)
unfolding handle_prom handle_prom_lr
handle_promise g p msg = if p.lr then handle_prom_lr g p msg else handle_prom g p msg
