-- ===== src/Batchpaxos/Quorum.antt =====
-- The state of a batch and its quorum of learns (batchpaxos/quorum.go, batchpaxos/msg.go).
use goxos.Base.{
  ℕ, ◌+◌, Bool, true, false, not, ◌&&◌, List, [], ◌∷◌, ◌++◌, length, ◌==◌, ltb, if◌then◌else◌,
  ltb_ℤ, pos, to_int,
}
use goxos.Base.Dict.{lookup, store}
use Prim.Native.String.{String}
use goxos.Grp.Id.{GrpId}
use goxos.Liveness.IdSet.{put}
use goxos.Batchpaxos.Batcher.{BatchPoint, RangeMap, UpdateValueMap, seq_of}

-- `BatchLearnMsg`, `BatchCommitMsg`, `UpdateRequestMsg`, `UpdateReplyMsg`
pub record BatchLearnMsg : Type 0 where
  pub id : GrpId
  pub batch_id : ℕ
  pub hss : BatchPoint

pub record BatchCommitMsg : Type 0 where
  pub id : GrpId
  pub batch_id : ℕ
  pub ranges : RangeMap

pub record UpdateRequestMsg : Type 0 where
  pub id : GrpId
  pub batch_id : ℕ
  pub ranges : RangeMap

pub record UpdateReplyMsg : Type 0 where
  pub id : GrpId
  pub batch_id : ℕ
  pub ranges : RangeMap
  pub values : UpdateValueMap

-- `BatchState`
pub record BatchState : Type 0 where
  pub execute : Bool
  pub executed : Bool
  pub execute_ranges : RangeMap
  pub learns : List BatchLearnMsg
  pub learns_notified : Bool

abbrev pub new_state : BatchState
new_state = record {
  execute = false;
  executed = false;
  execute_ranges = [];
  learns = [];
  learns_notified = false;
}

-- `BatchQuorumChecker`
pub record BatchQuorumChecker : Type 0 where
  pub states : List (ℕ × BatchState)
  pub quorum_size : ℕ

-- `NewBatchQuorumChecker`
abbrev pub new_batch_quorum_checker : ℕ → BatchQuorumChecker
new_batch_quorum_checker qsize = record { states = []; quorum_size = qsize }

-- What `GetState` returns; the new state that it stores for a missing one reads the same.
unfoldable pub state_at : List (ℕ × BatchState) → ℕ → BatchState
state_at [] k = new_state
state_at ((j, state) ∷ states) k = let rest = state_at states k in if j == k then state else rest

abbrev pub get_state : BatchQuorumChecker → ℕ → BatchState
get_state bqc batch_id = state_at bqc.states batch_id

-- A change of the state that `GetState` returns.
unfoldable pub set_state : List (ℕ × BatchState) → ℕ → BatchState → List (ℕ × BatchState)
set_state [] k new = (k, new) ∷ []
set_state ((j, state) ∷ states) k new =
    let rest = set_state states k new in if j == k then (k, new) ∷ states else (j, state) ∷ rest

abbrev pub put_state : BatchQuorumChecker → ℕ → BatchState → BatchQuorumChecker
put_state bqc batch_id state = record bqc { states = set_state bqc.states batch_id state }

-- `AddLearn`
unfoldable pub add_learn : BatchQuorumChecker → BatchLearnMsg → BatchQuorumChecker
unfolding state_at set_state
add_learn bqc msg =
    let state = get_state bqc msg.batch_id in
    put_state bqc msg.batch_id (record state { learns = state.learns ++ (msg ∷ []) })

-- The loop that collects the senders.
unfoldable pub uniques : List BatchLearnMsg → List GrpId → List GrpId
unfolding put
uniques [] seen = seen
uniques (msg ∷ msgs) seen = uniques msgs (put seen msg.id)

-- `LearnQuorumExists`
unfoldable pub learn_quorum_exists : BatchQuorumChecker → ℕ → BatchQuorumChecker × Bool
unfolding uniques state_at set_state
learn_quorum_exists bqc batch_id =
    let state = get_state bqc batch_id in
    let quorum = not (ltb_ℤ (pos (length (uniques state.learns []))) (to_int bqc.quorum_size)) in
    if quorum && not state.learns_notified
    then (put_state bqc batch_id (record state { learns_notified = true }), true)
    else (bqc, false)

-- `findMin`: the messages after the first one.
unfoldable pub min_of : ℕ → List BatchLearnMsg → String → ℕ
unfolding lookup
min_of min [] cid = min
min_of min (msg ∷ msgs) cid =
    min_of (if ltb (seq_of (lookup msg.hss cid)) min then seq_of (lookup msg.hss cid) else min) msgs
      cid

unfoldable pub find_min : List BatchLearnMsg → String → ℕ
unfolding min_of lookup
find_min [] cid = 0
find_min (msg ∷ msgs) cid = min_of (seq_of (lookup msg.hss cid)) msgs cid

-- `count[cid]++` for the clients of a message, and for the messages.
unfoldable pub count_clients : BatchPoint → List (String × ℕ) → List (String × ℕ)
unfolding lookup store
count_clients [] count = count
count_clients ((cid, hs) ∷ hss) count =
    count_clients hss (store count cid (seq_of (lookup count cid) + 1))

unfoldable pub count_learns : List BatchLearnMsg → List (String × ℕ) → List (String × ℕ)
unfolding count_clients
count_learns [] count = count
count_learns (msg ∷ msgs) count = count_learns msgs (count_clients msg.hss count)

-- The loop over the counts.
unfoldable pub mins_of : List BatchLearnMsg → List (String × ℕ) → BatchPoint
unfolding find_min
mins_of learns [] = []
mins_of learns ((cid, ct) ∷ count) =
    let rest = mins_of learns count in
    if ct == length learns then (cid, find_min learns cid) ∷ rest else rest

-- `Intersect`
unfoldable pub intersect : BatchQuorumChecker → ℕ → BatchPoint
unfolding count_learns mins_of state_at
intersect bqc batch_id =
    let state = get_state bqc batch_id in mins_of state.learns (count_learns state.learns [])
