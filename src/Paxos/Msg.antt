-- ===== src/Paxos/Msg.antt =====
-- The messages between replicas (paxos/msg.go), and the acceptor's slot, which promises carry.
use goxos.Base.{ℕ, List}
use goxos.Grp.Id.{GrpId}
use goxos.Paxos.Round.{ProposerRound, zero_round}
use goxos.Paxos.Value.{Value, zero_value}

-- `type AcceptorSlot struct` (paxos/aslots.go)
pub record AcceptorSlot : Type 0 where
  pub id : ℕ
  pub v_rnd : ProposerRound
  pub v_val : Value

-- `AcceptorSlot{ID: id}`
abbrev pub new_acceptor_slot : ℕ → AcceptorSlot
new_acceptor_slot id = record { id = id; v_rnd = zero_round; v_val = zero_value }

pub record Prepare : Type 0 where
  pub id : GrpId
  pub c_rnd : ProposerRound
  pub slot : ℕ

pub record Promise : Type 0 where
  pub id : GrpId
  pub rnd : ProposerRound
  pub acc_slots : List AcceptorSlot
  pub epoch_vector : List ℕ

pub record Accept : Type 0 where
  pub id : GrpId
  pub slot : ℕ
  pub rnd : ProposerRound
  pub val : Value

pub record Learn : Type 0 where
  pub id : GrpId
  pub slot : ℕ
  pub rnd : ProposerRound
  pub val : Value
  pub epoch_vector : List ℕ

pub record RangeTuple : Type 0 where
  pub from : ℕ
  pub to : ℕ

pub record ResponseTuple : Type 0 where
  pub slot : ℕ
  pub val : Value

pub record CatchUpRequest : Type 0 where
  pub id : GrpId
  pub ranges : List RangeTuple

pub record CatchUpResponse : Type 0 where
  pub id : GrpId
  pub vals : List ResponseTuple
