-- ===== src/Grp.antt =====
-- Package grp: replica identities, the table of replicas, the group manager's view of it.
pub mod Id
pub mod NodeMap
pub mod Adding
