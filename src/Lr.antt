-- ===== src/Lr.antt =====
-- Package lr: combinations of messages, and valid quorums among them.
pub mod Comb
pub mod ValidQuorum
pub mod Sound
