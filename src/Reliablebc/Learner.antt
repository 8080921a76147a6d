-- ===== src/Reliablebc/Learner.antt =====
-- The learner of reliable broadcast (reliablebc/relbclearner.go, reliablebc/msg.go), up to where it
-- sends the decided values on. The map of a round's commits is the list of them, each under its
-- sender's id.
use goxos.Base.{
  ℕ, ◌+◌, ◌*◌, ◌/◌, Bool, true, false, not, ◌&&◌, ◌||◌, List, [], ◌∷◌, ◌==◌, ltb, length,
  if◌then◌else◌, sub_uint, uint_mod, ◌%◌,
}
use goxos.Base.Outcome.{Outcome, done, ◌>>=◌}
use goxos.Grp.Id.{GrpId, id_eq}
use goxos.Paxos.Value.{Value, zero_value}
use goxos.Reliablebc.Auth.{Bytes, Crypto, AuthManager, check_mac, hash_to_bytes}
use goxos.Reliablebc.Storage.{Storage, new_storage, get, put, is_valid}

-- `Commit`, `ValReq`, `ValResp`
pub record Commit : Type 0 where
  pub id : GrpId
  pub rnd : ℕ
  pub hash : ℕ
  pub hmac : Bytes

pub record ValReq : Type 0 where
  pub rnd : ℕ

pub record ValResp : Type 0 where
  pub rnd : ℕ
  pub val : Value

-- `LearnerRound`
pub record LearnerRound : Type 0 where
  pub rnd_id : ℕ
  pub commits : List Commit
  pub decided : Bool
  pub snt_req : Bool
  pub learned : Bool
  pub val : Value

abbrev pub new_round : LearnerRound
new_round = record {
  rnd_id = 0;
  commits = [];
  decided = false;
  snt_req = false;
  learned = false;
  val = zero_value;
}

-- `type RelLearner struct`
pub record RelLearner : Type 0 where
  pub id : GrpId
  pub n_acceptors : ℕ
  pub n_faulty : ℕ
  pub rounds : Storage LearnerRound
  pub max_learned : ℕ
  pub alpha : ℕ
  pub actors : List GrpId
  pub auth_mgr : AuthManager

-- `NewRelLearner`, of the pack's id, number of acceptors and acceptor ids, `alpha`, and the keys.
unfoldable pub new_rel_learner : GrpId → ℕ → List GrpId → ℕ → AuthManager → RelLearner
unfolding new_storage
new_rel_learner id n_acceptors actors alpha auth_mgr = record {
  id = id;
  n_acceptors = n_acceptors;
  n_faulty = sub_uint n_acceptors 1 / 3;
  rounds = new_storage new_round (((alpha + 10) * 3) % uint_mod);
  max_learned = 0;
  alpha = alpha;
  actors = actors;
  auth_mgr = auth_mgr;
}

-- `_, ok := rnd.Commits[msg.ID]`
unfoldable pub has_commit : List Commit → GrpId → Bool
has_commit [] id = false
has_commit (c ∷ cs) id = id_eq c.id id || has_commit cs id

-- `commitcount[hash]`, and whether some count is above twice the number of faulty ones.
unfoldable pub commit_count : ℕ → List Commit → ℕ
commit_count hash [] = 0
commit_count hash (c ∷ cs) =
    let rest = commit_count hash cs in if c.hash == hash then rest + 1 else rest

unfoldable pub any_above : ℕ → List Commit → List Commit → Bool
unfolding commit_count
any_above bound commits [] = false
any_above bound commits (c ∷ cs) =
    ltb bound (commit_count c.hash commits) || any_above bound commits cs

-- `compareCommits`
unfoldable pub compare_commits : ℕ → List Commit → Bool
unfolding any_above
compare_commits n_faulty commits = any_above ((2 * n_faulty) % uint_mod) commits commits

-- The round with the commit, if the commit is new and the round not decided.
unfoldable pub start_round : LearnerRound → ℕ → LearnerRound
start_round r rnd =
    if length r.commits == 0
    then record r { rnd_id = rnd; commits = []; decided = false; snt_req = false; learned = false }
    else r

unfoldable pub add_commit : ℕ → LearnerRound → Commit → LearnerRound
unfolding compare_commits
add_commit n_faulty r msg = record r {
  commits = msg ∷ r.commits;
  decided = compare_commits n_faulty (msg ∷ r.commits);
}

-- The request for the value of a round that is decided: the round, the requests, and `true`.
unfoldable pub request_value : LearnerRound → ℕ → (LearnerRound × List ValReq) × Bool
request_value r rnd =
    if r.decided && not r.snt_req
    then ((record r { snt_req = true }, record { rnd = rnd } ∷ []), true)
    else ((r, []), true)

-- What the handler does to the round: the round, the requests for the value, and what it returns.
unfoldable pub commit_to_started : ℕ → LearnerRound → Commit → (LearnerRound × List ValReq) × Bool
unfolding has_commit add_commit request_value
commit_to_started n_faulty r msg =
    if r.decided
    then ((r, []), false)
    else if has_commit r.commits msg.id
    then ((r, []), false)
    else request_value (add_commit n_faulty r msg) msg.rnd

unfoldable pub commit_to_round : ℕ → LearnerRound → Commit → (LearnerRound × List ValReq) × Bool
unfolding start_round commit_to_started
commit_to_round n_faulty old msg = commit_to_started n_faulty (start_round old msg.rnd) msg

-- `handleCommit`
unfoldable pub handle_commit :
    Crypto → RelLearner → Commit → Outcome ((RelLearner × List ValReq) × Bool)
unfolding check_mac is_valid get put commit_to_round
handle_commit c l msg =
    if not (check_mac c l.auth_mgr msg.id msg.hmac (hash_to_bytes msg.hash) msg.rnd)
    then done ((l, []), false)
    else if not (is_valid new_round l.rounds msg.rnd)
    then done ((l, []), false)
    else get new_round l.rounds msg.rnd >>= λ sr.
        let ((r, reqs), learned) = commit_to_round l.n_faulty sr.1 msg in
        done ((record l { rounds = put new_round sr.0 msg.rnd r }, reqs), learned)

-- `storeVal`
unfoldable pub store_val : RelLearner → ValResp → Outcome RelLearner
unfolding is_valid get put
store_val l resp =
    if not (is_valid new_round l.rounds resp.rnd)
    then done l
    else get new_round l.rounds resp.rnd >>= λ sr. done (record l {
      rounds = put new_round sr.0 resp.rnd (record sr.1 { val = resp.val; learned = true });
    })
