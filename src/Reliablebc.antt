-- ===== src/Reliablebc.antt =====
-- Package reliablebc: reliable broadcast by prepares and commits, with message authentication codes.
pub mod Auth
pub mod Storage
pub mod Learner
pub mod Tally
pub mod Crash
pub mod Rounds
pub mod Acceptor
pub mod Dropped
