-- ===== src/Multipaxos.antt =====
-- Package multipaxos: the acceptor, the learner and the proposer of MultiPaxos.
pub mod Acceptor
pub mod Learner
pub mod Proposer
