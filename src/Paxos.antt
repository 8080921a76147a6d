-- ===== src/Paxos.antt =====
-- Package paxos: what the actors share. Rounds, values, messages and the three kinds of slot maps.
pub mod Round
pub mod Value
pub mod Msg
pub mod Slots
pub mod SlotsLr
