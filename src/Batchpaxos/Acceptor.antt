-- ===== src/Batchpaxos/Acceptor.antt =====
-- The batch acceptor (batchpaxos/batchacceptor.go). The maps of receive and execution times, which
-- only log lines read, are left out.
use goxos.Base.{
  ℕ, zero, suc, ◌+◌, ◌%◌, ◌/◌, Bool, true, false, not, ◌&&◌, Option, none, some, List, [], ◌∷◌,
  ◌++◌, map, length, ◌==◌, ltb, if◌then◌else◌, inc,
}
use goxos.Base.Outcome.{Outcome, done, panic, diverge, ◌>>=◌}
use goxos.Grp.Id.{GrpId}
use goxos.Paxos.Value.{Request, Value, ValueType, app, noop, reconfig}
use goxos.Batchpaxos.Batcher.{
  RangeMap, Batch, Batcher, new_batcher, log_request, get_incomplete_ranges, get_batch,
  get_client_commands, set_client_commands, for_each,
}
use goxos.Batchpaxos.Point.{BatchPointer, new_batch_pointer, try_batch_point}
use goxos.Batchpaxos.Quorum.{
  BatchLearnMsg, BatchCommitMsg, UpdateRequestMsg, UpdateReplyMsg, BatchQuorumChecker,
  new_batch_quorum_checker, get_state, state_at, set_state, put_state, add_learn,
  learn_quorum_exists, intersect,
}

-- `type BatchAcceptor struct`
pub record BatchAcceptor : Type 0 where
  pub id : GrpId
  pub leader : GrpId
  pub batcher : Batcher
  pub batchpter : BatchPointer
  pub batchqc : BatchQuorumChecker
  pub batch_aru : ℕ
  pub batch_max_req : ℕ
  pub curr_num_req : ℕ

-- `NewBatchAcceptor`, of the id, the leader, the number of acceptors and the two settings of the
-- configuration.
unfoldable pub new_batch_acceptor : GrpId → GrpId → ℕ → ℕ → ℕ → Outcome BatchAcceptor
new_batch_acceptor id leader nr_of_acceptors batch_max_size max_req =
    if ltb 1 batch_max_size
    then panic
    else done (record {
      id = id;
      leader = leader;
      batcher = new_batcher;
      batchpter = new_batch_pointer;
      batchqc = new_batch_quorum_checker (nr_of_acceptors / 2 + 1);
      batch_aru = 0;
      batch_max_req = max_req;
      curr_num_req = 0;
    })

-- What is sent: to one node, to all, or to the server; and the new timer.
pub data Output : Type 0 where
  send_learn : GrpId → BatchLearnMsg → Output
  send_reply : GrpId → UpdateReplyMsg → Output
  broadcast_commit : BatchCommitMsg → Output
  broadcast_update : UpdateRequestMsg → Output
  decide : Value → Output
  reset_timer : Output

-- `execute`, of one request
abbrev pub execute : Request → Output
execute req = decide (record { vt = app; cr = req ∷ []; rc = none })

-- The loop of `tryToAdvance`, on fuel.
unfoldable pub advance : ℕ → BatchAcceptor → Outcome (BatchAcceptor × List Output)
unfolding state_at set_state for_each
advance zero ba = diverge
advance (suc fuel) ba =
    let state = get_state ba.batchqc ba.batch_aru in
    elim (state.execute && not state.executed) [
      | false ↦ done (ba, [])
      | true ↦ for_each ba.batcher state.execute_ranges >>= λ reqs.
          advance fuel (record ba {
            batchqc = put_state ba.batchqc ba.batch_aru (record state { executed = true });
            batch_aru = inc ba.batch_aru;
          })
          >>= λ r. done (r.0, map execute reqs ++ r.1)
    ]

-- `tryToAdvance`, with fuel for every state there is.
unfoldable pub try_to_advance : BatchAcceptor → Outcome (BatchAcceptor × List Output)
unfolding advance
try_to_advance ba = advance (length ba.batchqc.states + 1) ba

-- The learn for a batch, sent to the leader.
abbrev pub learn_of : BatchAcceptor → Option Batch → List Output
learn_of ba none = []
learn_of ba (some batch) =
    send_learn ba.leader (record { id = ba.id; batch_id = batch.id; hss = batch.hss }) ∷ []

-- `handleBatchTimeout`
unfoldable pub handle_batch_timeout : BatchAcceptor → Outcome (BatchAcceptor × List Output)
unfolding get_batch
handle_batch_timeout ba = get_batch ba.batcher >>= λ r.
    done (record ba { batcher = r.0 }, learn_of ba r.1 ++ (reset_timer ∷ []))

-- `handleRequest`; a remainder by zero is a panic, and so is a value without a request.
unfoldable pub handle_request : BatchAcceptor → Value → Outcome (BatchAcceptor × List Output)
unfolding log_request handle_batch_timeout
handle_request ba val = elim val.cr [
  | [] ↦ panic
  | req ∷ reqs ↦
      let logged = log_request ba.batcher req in
      let num = inc ba.curr_num_req % ba.batch_max_req in
      let ba' = record ba { batcher = logged; curr_num_req = num } in
      if ba.batch_max_req == 0
      then panic
      else if num == 0
      then handle_batch_timeout ba'
      else done (ba', [])
]

-- `handleUpdateRequestMsg`
unfoldable pub handle_update_request_msg :
    BatchAcceptor → UpdateRequestMsg → Outcome (BatchAcceptor × List Output)
unfolding get_incomplete_ranges get_client_commands
handle_update_request_msg ba msg = get_incomplete_ranges ba.batcher msg.ranges >>= λ r.
    let ba' = record ba { batcher = r.0 } in
    if length r.1 == 0
    then (get_client_commands r.0 msg.ranges >>= λ cmds. done (
      ba',
      send_reply msg.id
            (record { id = ba.id; batch_id = msg.batch_id; ranges = msg.ranges; values = cmds })
          ∷ [],
    ))
    else done (ba', [])

-- `handleUpdateReplyMsg`; the call of `glog.Fatal` ends the process.
unfoldable pub handle_update_reply_msg :
    BatchAcceptor → UpdateReplyMsg → Outcome (BatchAcceptor × List Output)
unfolding set_client_commands get_incomplete_ranges try_to_advance state_at set_state
handle_update_reply_msg ba msg =
    let state = get_state ba.batchqc msg.batch_id in
    if state.execute
    then done (ba, [])
    else get_incomplete_ranges (set_client_commands ba.batcher msg.values) state.execute_ranges
      >>= λ r.
          if length r.1 == 0
          then try_to_advance (record ba {
            batcher = r.0;
            batchqc = put_state ba.batchqc msg.batch_id (record state { execute = true });
          })
          else panic

-- A range map that may be nil.
abbrev pub ranges_of : Option RangeMap → RangeMap
ranges_of none = []
ranges_of (some ranges) = ranges

-- `handleLearnMsg`
unfoldable pub handle_learn_msg : BatchAcceptor → BatchLearnMsg → BatchAcceptor × List Output
unfolding add_learn learn_quorum_exists intersect try_batch_point
handle_learn_msg ba msg =
    let (bqc, quorum) = learn_quorum_exists (add_learn ba.batchqc msg) msg.batch_id in
    let (bp, ranges) = try_batch_point ba.batchpter (intersect bqc msg.batch_id) in
    if quorum
    then (
      record ba { batchqc = bqc; batchpter = bp },
      broadcast_commit (record { id = ba.id; batch_id = msg.batch_id; ranges = ranges_of ranges })
          ∷ [],
    )
    else (record ba { batchqc = bqc }, [])

-- `handleCommitMsg`
unfoldable pub handle_commit_msg :
    BatchAcceptor → BatchCommitMsg → Outcome (BatchAcceptor × List Output)
unfolding get_incomplete_ranges try_to_advance state_at set_state
handle_commit_msg ba msg =
    let state = record (get_state ba.batchqc msg.batch_id) { execute_ranges = msg.ranges } in
    get_incomplete_ranges ba.batcher msg.ranges >>= λ r.
    if length r.1 == 0
    then try_to_advance (record ba {
      batcher = r.0;
      batchqc = put_state ba.batchqc msg.batch_id (record state { execute = true });
    })
    else done (
      record ba { batcher = r.0; batchqc = put_state ba.batchqc msg.batch_id state },
      broadcast_update (record { id = ba.id; batch_id = msg.batch_id; ranges = r.1 }) ∷ [],
    )

-- What the loop of `Start` receives.
pub data Event : Type 0 where
  propose : Value → Event
  learn : BatchLearnMsg → Event
  commit : BatchCommitMsg → Event
  update_request : UpdateRequestMsg → Event
  update_reply : UpdateReplyMsg → Event
  timeout : Event
  trust : GrpId → Event

abbrev is_app : ValueType → Bool
is_app app = true
is_app noop = false
is_app reconfig = false

-- One round of the `select` of `Start`.
unfoldable pub step : BatchAcceptor → Event → Outcome (BatchAcceptor × List Output)
unfolding handle_request handle_learn_msg handle_commit_msg handle_update_request_msg
    handle_update_reply_msg handle_batch_timeout
step ba (propose val) = if is_app val.vt then handle_request ba val else panic
step ba (learn msg) = done (handle_learn_msg ba msg)
step ba (commit msg) = handle_commit_msg ba msg
step ba (update_request msg) = handle_update_request_msg ba msg
step ba (update_reply msg) = handle_update_reply_msg ba msg
step ba timeout = handle_batch_timeout ba
step ba (trust id) = done (record ba { leader = id }, [])
