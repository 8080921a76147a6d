-- ===== src/Batchpaxos/Advance.antt =====
-- `tryToAdvance` (batchpaxos/batchacceptor.go) ends, and executes the batches that are ready in the
-- order of their ids.
use goxos.Base.{ℕ, ◌+◌, ◌≤◌, ◌≡◌, List}
use Prim.Native.String.{String}
use goxos.Batchpaxos.Batcher.{sorted_keys_range}
use goxos.Batchpaxos.Quorum.{BatchState, state_at, get_state, put_state}
use goxos.Batchpaxos.Acceptor.{BatchAcceptor}
use goxos.Batchpaxos.Pending.{done_state}
use goxos.Batchpaxos.Requests.{IsBounded}

module _ (states : ℕ → BatchState) (bounded : (k : ℕ) → IsBounded (states k).execute_ranges) where
  abbrev clients : ℕ → List String
  clients k = sorted_keys_range (states k).execute_ranges

  abbrev Agrees : BatchAcceptor → Type 0
  Agrees ba = (k : ℕ) → ba.batch_aru ≤ k → state_at ba.batchqc.states k ≡ states k

  abbrev executed_next : BatchAcceptor → BatchAcceptor
  executed_next ba = record ba {
    batchqc = put_state ba.batchqc ba.batch_aru (done_state (get_state ba.batchqc ba.batch_aru));
    batch_aru = ba.batch_aru + 1;
  }
