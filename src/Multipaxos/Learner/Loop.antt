-- ===== src/Multipaxos/Learner/Loop.antt =====
-- The loop of `Start` of the learner (multipaxos/learner.go): what it receives is an `Event`, what
-- it sends an `Output`.
use goxos.Base.{◌+◌, true, false, ◌||◌, List, [], ◌∷◌, map, if◌then◌else◌}
use goxos.Base.Outcome.{Outcome, done, ◌>>=◌}
use goxos.Grp.Id.{GrpId, id_eq}
use goxos.Grp.NodeMap.{GrpMgr}
use goxos.Paxos.Value.{Value}
use goxos.Paxos.Msg.{Learn, CatchUpRequest, CatchUpResponse}
use goxos.Multipaxos.Learner.{
  MultiLearner, Verdict, wait, advance, start_cu, handle_lrn, learn_val, advance_all,
}
use goxos.Multipaxos.Learner.CatchUp.{gen_catch_up_req, handle_cu_req, handle_cu_resp}

pub data Event : Type 0 where
  learn : Learn → Event
  creq : CatchUpRequest → Event
  cresp : CatchUpResponse → Event
  trust : GrpId → Event
  grp_hold : GrpMgr → Event
  stop : Event

pub data Output : Type 0 where
  decide : Value → Output
  send_req : CatchUpRequest → GrpId → Output
  send_resp : CatchUpResponse → GrpId → Output

-- The fuel covers every slot up to the highest seen, and the one after it.
unfoldable pub advance_loop : MultiLearner → Outcome (MultiLearner × List Output)
unfolding advance_all
advance_loop l = advance_all (l.slots.max_seen + 2) l >>= λ r. done (r.0, map decide r.1)

-- The switch on what `learnValue` returned.
unfoldable pub act : MultiLearner → Verdict → Outcome (MultiLearner × List Output)
unfolding advance_loop gen_catch_up_req
act l wait = done (l, [])
act l advance = advance_loop l
act l (start_cu slot) =
    if l.catch_up_in_progress || id_eq l.id l.leader
    then done (l, [])
    else (let (l', req, dest) = gen_catch_up_req (record l { catch_up_in_progress = true }) slot in
        done (l', send_req req dest ∷ []))

-- One round of the `select` of `Start`. A group hold carries the manager as it is at the release.
unfoldable pub step : GrpMgr → MultiLearner → Event → Outcome (MultiLearner × List Output)
unfolding handle_lrn learn_val act handle_cu_req handle_cu_resp
step g l (learn msg) = handle_lrn g l msg >>= λ r. learn_val r.0 r.1 >>= λ r'. act r'.0 r'.1
step g l (creq msg) =
    let (l', resp, dest) = handle_cu_req l msg in done (l', send_resp resp dest ∷ [])
step g l (cresp msg) = advance_loop (record (handle_cu_resp l msg) { catch_up_in_progress = false })
step g l (trust id) = done (record l { leader = id }, [])
step g l (grp_hold released) = done (record l { id = released.id }, [])
step g l stop = done (record l { started = false }, [])
