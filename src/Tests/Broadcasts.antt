-- ===== src/Tests/Broadcasts.antt =====
-- A learner of reliable broadcast (package reliablebc) in a group of four, and the theorems at it.
use goxos.Base.{false, some, true, ℕ, ◌≡◌, refl, Bool, none, List, [], ◌∷◌, arith}
use goxos.Base.Outcome.{done, panic}
use goxos.Reliablebc.Auth.{Crypto}
use goxos.Reliablebc.Learner.{Commit, LearnerRound, RelLearner, ValReq, new_round, handle_commit}
use goxos.Reliablebc.Rounds.{InOrder, Handled, handle_commit-Handled, new_round-IsTallied}
use goxos.Reliablebc.Acceptor.{
  Prepare, AcceptorRound, RelAcceptor, new_acceptor_round, has_prepare, compare_prepares,
  prepare_to_round, create_commit,
}
use goxos.Reliablebc.Dropped.{wrong_commit}
use goxos.Reliablebc.Crash.{handle_commit-crash}
use goxos.Tests.{replica}

-- A code that is the key and the message.
abbrev plain : Crypto
plain = record { sum = λ key. λ msg. 1 ∷ msg; append_int = λ bytes. λ n. bytes }

abbrev four : List LearnerRound
four = new_round ∷ new_round ∷ new_round ∷ new_round ∷ []

abbrev learner : RelLearner
learner = record {
  id = replica 0;
  n_acceptors = 4;
  n_faulty = 1;
  rounds = record { rounds = four; min = 0; length = 4 };
  max_learned = 0;
  alpha = 1;
  actors = replica 0 ∷ replica 1 ∷ replica 2 ∷ replica 3 ∷ [];
  auth_mgr = record { id = replica 0; keys = λ i. none };
}

abbrev commit : ℕ → Commit
commit rnd = record { id = replica 0; rnd = rnd; hash = 7; hmac = [] }

four-InOrder : InOrder 1 learner.rounds
four-InOrder = record {
  full = refl;
  all = (
    new_round-IsTallied 1,
    (new_round-IsTallied 1, (new_round-IsTallied 1, (new_round-IsTallied 1, tt))),
  );
}

handle_commit-Handled_example :
    (r : (RelLearner × List ValReq) × Bool) × ((handle_commit plain learner (commit 4) ≡ done r)
      × Handled learner (commit 4) r)
handle_commit-Handled_example =
    handle_commit-Handled plain learner (commit 4) (omega arith) four-InOrder (omega arith)
      (omega arith)

handle_commit-crash_example : handle_commit plain learner (commit 5) ≡ panic
handle_commit-crash_example =
    handle_commit-crash plain learner (commit 5) refl refl refl (omega arith) (omega arith)

-- An acceptor with the prepares of two replicas; its own is the third, and the fourth replica is
-- faulty.
abbrev relay : RelAcceptor
relay = record {
  id = replica 0;
  n_acceptors = 4;
  n_faulty = 1;
  rounds = record { rounds = []; min = 0; length = 0 };
  actors = learner.actors;
  auth_mgr = learner.auth_mgr;
}

abbrev prepare_of : ℕ → ℕ → Prepare
prepare_of i hash = record { id = replica i; rnd = 0; hash = hash; hmac = [] }

abbrev two_prepares : AcceptorRound
two_prepares = record new_acceptor_round { prepares = prepare_of 1 7 ∷ prepare_of 2 7 ∷ [] }

own_is_new : has_prepare two_prepares.prepares (prepare_of 0 7).id ≡ false
unfolding has_prepare
own_is_new = refl

own_makes_quorum : compare_prepares 1 (prepare_of 0 7 ∷ two_prepares.prepares) ≡ true
unfolding compare_prepares
own_makes_quorum = refl

fourth_is_new : has_prepare (prepare_of 0 7 ∷ two_prepares.prepares) (prepare_of 3 9).id ≡ false
unfolding has_prepare
fourth_is_new = refl

wrong_commit_example :
    (prepare_to_round relay
      (prepare_to_round relay two_prepares (prepare_of 0 7)).0
      (prepare_of 3 9)).1.1
    ≡ some (create_commit relay 0 9)
wrong_commit_example =
    wrong_commit relay two_prepares (prepare_of 1 7) (prepare_of 2 7 ∷ []) (prepare_of 0 7)
      (prepare_of 3 9) refl refl own_is_new own_makes_quorum fourth_is_new
