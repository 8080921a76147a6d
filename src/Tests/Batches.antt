-- ===== src/Tests/Batches.antt =====
-- Batches of two clients (package batchpaxos), and the theorems at them.
use goxos.Base.{ℕ, ◌+◌, ◌≡◌, ◌<◌, ◌≤◌, refl, true, none, some, [], ◌∷◌, All, length, arith}
use goxos.Base.Dict.{lookup}
use goxos.Batchpaxos.Batcher.{BatchPoint, new_batcher}
use goxos.Batchpaxos.Point.{new_batch_pointer, last_point, any_greater}
use goxos.Batchpaxos.Quorum.{
  BatchLearnMsg, BatchState, BatchQuorumChecker, new_state, get_state, state_at, intersect,
  add_learn,
}
use goxos.Batchpaxos.Acceptor.{BatchAcceptor, handle_learn_msg}
use goxos.Batchpaxos.Keys.{Keyed}
use goxos.Batchpaxos.Between.{between}
use goxos.Batchpaxos.Points.{Covers, HasClient, covered, points-Covers, returning_client}
use goxos.Batchpaxos.Commits.{notified, commits, handle_learn_msgs, commits_once}
use goxos.Batchpaxos.Senders.{HasQuorum, commit-HasQuorum}
use goxos.Batchpaxos.Common.{IsCommon, intersect-IsCommon}
use Prim.Native.String.{String}
use goxos.Tests.{replica}

abbrev point : ℕ → ℕ → BatchPoint
point a b = ("anna", a) ∷ ("bert", b) ∷ []

point-Keyed : (a b : ℕ) → Keyed (point a b)
unfolding lookup
point-Keyed a b = Keyed.entry refl (Keyed.entry refl Keyed.empty)

point-HasClient : (a b : ℕ) → a < 4294967296 → HasClient "anna" (point a b)
unfolding lookup
point-HasClient a b h = record { keyed = point-Keyed a b; hs = a; word = h; at_cid = refl }

points-Covers_example :
    Covers "anna"
      (covered "anna" new_batch_pointer (point 2 0 ∷ point 1 1 ∷ point 4 1 ∷ [])).0
      (covered "anna" new_batch_pointer (point 2 0 ∷ point 1 1 ∷ point 4 1 ∷ [])).1
points-Covers_example = points-Covers "anna" (point 2 0 ∷ point 1 1 ∷ point 4 1 ∷ []) (
  point-HasClient 2 0 (omega arith),
  (point-HasClient 1 1 (omega arith), (point-HasClient 4 1 (omega arith), tt)),
)

-- A batch point without one of the clients.
abbrev only_bert : ℕ → BatchPoint
only_bert b = ("bert", b) ∷ []

only_bert-Keyed : (b : ℕ) → Keyed (only_bert b)
unfolding lookup
only_bert-Keyed b = Keyed.entry refl Keyed.empty

at_four : last_point (point 4 1 ∷ []) ≡ some (point 4 1)
unfolding last_point
at_four = refl

bert_grows : any_greater (point 4 1) (only_bert 2) ≡ true
unfolding any_greater lookup
bert_grows = refl

no_anna : lookup (only_bert 2) "anna" ≡ none
unfolding lookup
no_anna = refl

anna_is_back : lookup (point 5 2) "anna" ≡ some 5
unfolding lookup
anna_is_back = refl

returning_client_example :
    (covered "anna" (record { batch_points = point 4 1 ∷ [] }) (only_bert 2 ∷ point 5 2 ∷ [])).1
    ≡ between 6 0
returning_client_example =
    returning_client "anna" (record { batch_points = point 4 1 ∷ [] }) (point 4 1) (only_bert 2)
      (point 5 2) 5 at_four bert_grows no_anna (only_bert-Keyed 2) (point-Keyed 5 2) anna_is_back

abbrev learn_of : ℕ → BatchPoint → BatchLearnMsg
learn_of i hss = record { id = replica i; batch_id = 0; hss = hss }

abbrev two_learns : BatchQuorumChecker
two_learns = record {
  states =
      (0, record new_state { learns = learn_of 0 (point 3 1) ∷ learn_of 1 (point 2 4) ∷ [] }) ∷ [];
  quorum_size = 2;
}

one_learn : 0 < length (get_state two_learns 0).learns
unfolding state_at
one_learn = omega arith

learns-Keyed : All (λ m. Keyed m.hss) (get_state two_learns 0).learns
unfolding state_at
learns-Keyed = (point-Keyed 3 1, (point-Keyed 2 4, tt))

intersect-IsCommon_example :
    IsCommon (get_state two_learns 0).learns "anna" (lookup (intersect two_learns 0) "anna")
intersect-IsCommon_example = intersect-IsCommon two_learns 0 "anna" one_learn learns-Keyed

-- An acceptor that may execute its first batch.
abbrev ready : BatchState
ready = record new_state {
  execute = true;
  execute_ranges = ("anna", record { start = 0; stop = 1 }) ∷ [];
}

abbrev acceptor : BatchAcceptor
acceptor = record {
  id = replica 0;
  leader = replica 2;
  batcher = new_batcher;
  batchpter = new_batch_pointer;
  batchqc = record { states = (0, ready) ∷ []; quorum_size = 2 };
  batch_aru = 0;
  batch_max_req = 10;
  curr_num_req = 0;
}

-- A leader that gets two learns.
commits_once_example :
    notified acceptor.batchqc 0
      + commits 0
          (handle_learn_msgs acceptor (learn_of 0 (point 3 1) ∷ learn_of 1 (point 2 4) ∷ [])).1
    ≤ 1
commits_once_example =
    commits_once acceptor (learn_of 0 (point 3 1) ∷ learn_of 1 (point 2 4) ∷ []) 0

-- One learn is there, and the second one makes the quorum.
abbrev waiting : BatchAcceptor
waiting = record acceptor {
  batchqc = record {
    states = (0, record new_state { learns = learn_of 0 (point 3 1) ∷ [] }) ∷ [];
    quorum_size = 2;
  };
}

one_commit : 0 < commits 0 (handle_learn_msg waiting (learn_of 1 (point 2 4))).1
unfolding handle_learn_msg
one_commit = omega arith

commit-HasQuorum_example :
    ((learn_of 1 (point 2 4)).batch_id ≡ 0)
    × HasQuorum
        (add_learn waiting.batchqc (learn_of 1 (point 2 4)))
        (get_state (add_learn waiting.batchqc (learn_of 1 (point 2 4))) 0).learns
commit-HasQuorum_example = commit-HasQuorum waiting (learn_of 1 (point 2 4)) 0 one_commit
