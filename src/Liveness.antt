-- ===== src/Liveness.antt =====
-- Package liveness: the failure detector, the leader detector, and how they work together.
pub mod IdSet
pub mod Fd
pub mod Ld
pub mod Rank
pub mod Election
pub mod Nodes
pub mod Timeout
pub mod Detection
