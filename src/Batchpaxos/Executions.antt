-- ===== src/Batchpaxos/Executions.antt =====
-- What it is to execute the next ready batches (`tryToAdvance` of batchpaxos/batchacceptor.go).
use goxos.Base.{
  ℕ, zero, suc, ◌+◌, ◌<◌, ◌≡◌, Bool, true, false, ◌&&◌, List, [], ◌++◌, ◌==◌, leb, ltb,
  if◌then◌else◌, arith, map,
}
use Prim.Native.String.{String}
use goxos.Batchpaxos.Batcher.{Batcher}
use goxos.Batchpaxos.Quorum.{BatchState, state_at}
use goxos.Batchpaxos.Acceptor.{BatchAcceptor, Output, execute}
use goxos.Batchpaxos.Pending.{is_ready, done_state}
use goxos.Batchpaxos.Requests.{requests_of}

-- What the execution of `n` batches from `aru` on sends to the server, where the clients of each
-- batch are in the given order.
unfoldable pub executions : Batcher → (ℕ → BatchState) → (ℕ → List String) → ℕ → ℕ → List Output
unfolding requests_of
executions br states clients zero aru = []
executions br states clients (suc n) aru =
    map execute (requests_of br (states aru).execute_ranges (clients aru))
    ++ executions br states clients n (aru + 1)

pub done_state_not : (state : BatchState) → is_ready (done_state state) ≡ false
done_state_not state = ground arith

-- The `n` batches from `a` on, and the mark.
abbrev pub window : ℕ → ℕ → ℕ → Bool
window a n k = leb a k && ltb k (a + n)

pub window-empty : (a k : ℕ) → window a 0 k ≡ false
window-empty a k = ground arith

pub window-before : (a n : ℕ) → window (a + 1) n a ≡ false
window-before a n = ground arith

pub window-first : (a n : ℕ) → window a (suc n) a ≡ true
window-first a n = ground arith

pub window-later : (a n k : ℕ) → (a == k) ≡ false → window (a + 1) n k ≡ window a (suc n) k
window-later a n k h = ground arith

abbrev pub mark : Bool → BatchState → BatchState
mark b state = if b then done_state state else state

-- One executes `n` batches: exactly those ready ones that follow each other from the first batch
-- that is not executed; they are marked, nothing else of the acceptor changes.
pub record Advanced (ba : BatchAcceptor) (states : ℕ → BatchState) (clients : ℕ → List String)
    (r : BatchAcceptor × List Output) : Type 0 where
  pub n : ℕ
  pub ready : (i : ℕ) → i < n → is_ready (states (ba.batch_aru + i)) ≡ true
  pub stops : is_ready (states (ba.batch_aru + n)) ≡ false
  pub sent : r.1 ≡ executions ba.batcher states clients n ba.batch_aru
  pub aru : r.0.batch_aru ≡ ba.batch_aru + n
  pub batcher : r.0.batcher ≡ ba.batcher
  pub marked :
      (k : ℕ)
      → state_at r.0.batchqc.states k
        ≡ mark (window ba.batch_aru n k) (state_at ba.batchqc.states k)
