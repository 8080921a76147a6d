-- ===== src/Batchpaxos.antt =====
-- Package batchpaxos: replicas agree on batches of client requests by the highest sequence numbers
-- that they have seen.
pub mod Batcher
pub mod Point
pub mod Quorum
pub mod Acceptor
pub mod Keys
pub mod Between
pub mod Order
pub mod Pending
pub mod Requests
pub mod Executions
pub mod Advance
pub mod Counts
pub mod Common
pub mod Commits
pub mod Senders
pub mod Points
