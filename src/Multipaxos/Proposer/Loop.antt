-- ===== src/Multipaxos/Proposer/Loop.antt =====
-- The loop of `Start` of the proposer (multipaxos/proposer.go): what it receives is an `Event`.
use goxos.Base.{true, false, not, ◌||◌, List, [], ◌∷◌, ◌++◌, if◌then◌else◌, inc}
use goxos.Base.Outcome.{Outcome, done, ◌>>=◌}
use goxos.Grp.Id.{GrpId, id_eq}
use goxos.Grp.NodeMap.{GrpMgr}
use goxos.Paxos.Round.{set_owner}
use goxos.Paxos.Value.{Value}
use goxos.Paxos.Msg.{Promise}
use goxos.Multipaxos.Proposer.{
  MultiProposer, Output, reset_phase_two_timer, start_phase_one, set_state_from_promises,
  handle_promise,
}
use goxos.Multipaxos.Proposer.PhaseTwo.{
  is_leader_and_phase_one_complete, send_accepts, advance_adu, resend_accepts_if_necessary,
}

pub data Event : Type 0 where
  new_dcd : Event
  prop : Value → Event
  trust : GrpId → Event
  promise : Promise → Event
  phase_one_timeout phase_two_timeout : Event
  grp_hold : GrpMgr → Event
  stop : Event

-- The case of `p.newDcdChan`; the timer is reset first.
unfoldable pub on_new_dcd : MultiProposer → Outcome (MultiProposer × List Output)
unfolding send_accepts
on_new_dcd p =
    let q = advance_adu p in
    if is_leader_and_phase_one_complete q
    then (send_accepts q >>= λ r. done (r.0, reset_phase_two_timer ∷ r.1))
    else done (q, reset_phase_two_timer ∷ [])

-- The case of `p.propChan`
unfoldable pub on_prop : MultiProposer → Value → Outcome (MultiProposer × List Output)
unfolding send_accepts
on_prop p val =
    let q = record p { req_queue = p.req_queue ++ val ∷ [] } in
    if not (id_eq p.leader p.id)
    then done (p, [])
    else if q.phase_one_done
    then send_accepts q
    else done (q, [])

-- The case of `p.trust`
unfoldable pub on_trust : GrpMgr → MultiProposer → GrpId → MultiProposer × List Output
unfolding start_phase_one
on_trust g p trust_id =
    let q = record p { leader = trust_id } in
    if id_eq p.leader trust_id
    then (p, [])
    else if not (id_eq q.leader q.id)
    then (q, [])
    else start_phase_one g true q

-- What follows a quorum of promises.
unfoldable pub complete_phase_one : MultiProposer → MultiProposer
unfolding set_state_from_promises
complete_phase_one p = record p {
  slots = set_state_from_promises p.adu p.slots p.phase_one_promises;
  phase_one_done = true;
  next_slot = inc p.adu;
}

-- The case of `p.promiseChan`
unfoldable pub on_promise : GrpMgr → MultiProposer → Promise → Outcome (MultiProposer × List Output)
unfolding handle_promise complete_phase_one send_accepts
on_promise g p msg = handle_promise g p msg >>= λ r.
    if r.1 then send_accepts (complete_phase_one r.0) else done (r.0, [])

-- The case of `p.phaseOneTimer.C`
unfoldable pub on_phase_one_timeout : GrpMgr → MultiProposer → MultiProposer × List Output
unfolding start_phase_one
on_phase_one_timeout g p =
    if not (id_eq p.leader p.id) || p.phase_one_done then (p, []) else start_phase_one g true p

-- `handleGrpHold`, with the group manager as it is at the release.
unfoldable pub handle_grp_hold : GrpMgr → MultiProposer → MultiProposer
handle_grp_hold released p = record p {
  id = released.id;
  leader = if id_eq p.leader p.id then released.id else p.leader;
  crnd = set_owner p.crnd released.id;
}

-- One round of the `select` of `Start`.
unfoldable pub step : GrpMgr → MultiProposer → Event → Outcome (MultiProposer × List Output)
unfolding on_new_dcd on_prop on_trust on_promise on_phase_one_timeout resend_accepts_if_necessary
    handle_grp_hold
step g p new_dcd = on_new_dcd p
step g p (prop val) = on_prop p val
step g p (trust id) = done (on_trust g p id)
step g p (promise msg) = on_promise g p msg
step g p phase_one_timeout = done (on_phase_one_timeout g p)
step g p phase_two_timeout = done (resend_accepts_if_necessary g p)
step g p (grp_hold released) = done (handle_grp_hold released p, [])
step g p stop = done (record p { started = false }, [])
