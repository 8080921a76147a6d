-- ===== src/Tests.antt =====
-- Concrete runs of the actors of a group of three replicas, and the theorems at them.
pub mod Acceptors
pub mod Batches
pub mod Broadcasts
pub mod Detectors
pub mod Groups
pub mod Learners
pub mod Proposers
pub mod Quorums
pub mod Stores
use goxos.Base.{ℕ, Bool, true, false, Option, none, some, List, [], ◌∷◌, pos}
use goxos.Grp.Id.{GrpId, new_id}
use goxos.Grp.NodeMap.{Node, NodeMap, GrpMgr}
use goxos.Paxos.Round.{ProposerRound}
use goxos.Paxos.Value.{Value, Request, app}
use goxos.Paxos.Msg.{Accept, Learn}

abbrev pub replica : ℕ → GrpId
replica i = new_id (pos i) 0

abbrev pub node : Node
node = record {
  ip = "localhost";
  paxos_port = "8080";
  client_port = "8081";
  proposer = true;
  acceptor = true;
  learner = true;
}

abbrev pub three : List (GrpId × Node)
three = (replica 0, node) ∷ (replica 1, node) ∷ (replica 2, node) ∷ []

abbrev pub ids : List GrpId
ids = replica 0 ∷ replica 1 ∷ replica 2 ∷ []

abbrev pub node_map : NodeMap
node_map = record {
  nodes = three;
  epochs = 0 ∷ 0 ∷ 0 ∷ [];
  nr_of_nodes = 3;
  nr_of_acceptors = 3;
  quorum = 2;
  ids_memoized = ids;
  proposer_ids_memoized = ids;
  acceptor_ids_memoized = ids;
  learner_ids_memoized = ids;
}

abbrev pub manager : GrpMgr
manager = record { id = replica 1; node_map = node_map; ar_enabled = false; lr_enabled = false }

abbrev pub round : ℕ → ProposerRound
round n = record { rnd = n; id = replica 0 }

-- A value of one request, whose bytes tell the values apart.
abbrev pub value : ℕ → Value
value b = record {
  vt = app;
  cr = record { type = some 2; id = some "client"; seq = some b; val = b ∷ [] } ∷ [];
  rc = none;
}

abbrev pub accept_of : ℕ → ℕ → ℕ → Accept
accept_of slot rnd b = record { id = replica 0; slot = slot; rnd = round rnd; val = value b }

abbrev pub learn_from : ℕ → ℕ → ℕ → ℕ → Learn
learn_from sender slot rnd b = record {
  id = replica sender;
  slot = slot;
  rnd = round rnd;
  val = value b;
  epoch_vector = [];
}
