-- ===== src/Grp/NodeMap.antt =====
-- The table of replicas (grp/node.go), and what the actors read of the group manager
-- (grp/grpmgr_imp.go). The entries of the Go map stand in a list; Go fixes no order for a range
-- over a map, and no theorem rests on the list's.
use Prim.Native.String.{String}
use goxos.Base.{
  ℕ, suc, ◌+◌, ◌-◌, ◌/◌, ◌%◌, Bool, true, false, ◌&&◌, ◌||◌, Option, none, some, List, [], ◌∷◌,
  length, get_elem?, set, replicate, ℤ, pos, negsuc, ltb, ◌==◌, ltb_ℤ, eqb_ℤ, to_int, to_uint,
  sub_uint, inc, if◌then◌else◌,
}
use goxos.Base.Outcome.{Outcome, done, panic, ◌>>=◌, or_panic}
use goxos.Grp.Id.{GrpId, new_id, id_eq}

-- `type Node struct`
pub record Node : Type 0 where
  pub ip : String
  pub paxos_port : String
  pub client_port : String
  pub proposer : Bool
  pub acceptor : Bool
  pub learner : Bool

-- `type NodeMap struct`
pub record NodeMap : Type 0 where
  pub nodes : List (GrpId × Node)
  pub epochs : List ℕ
  pub nr_of_nodes : ℕ
  pub nr_of_acceptors : ℕ
  pub quorum : ℕ
  pub ids_memoized : List GrpId
  pub proposer_ids_memoized : List GrpId
  pub acceptor_ids_memoized : List GrpId
  pub learner_ids_memoized : List GrpId

pub data NodeError : Type 0 where
  node_already_present old_node_not_found equal_paxos_id_already_present : NodeError
  node_id_out_of_bounds : NodeError

-- The loop of `memoizeIDs`.
unfoldable pub ids_of : List (GrpId × Node) → List GrpId
ids_of [] = []
ids_of ((id, _) ∷ nodes) = id ∷ ids_of nodes

-- The loop of `memoizeActorIDs`, for the role that `has` reads.
unfoldable pub role_ids_of : (Node → Bool) → List (GrpId × Node) → List GrpId
role_ids_of has [] = []
role_ids_of has ((id, n) ∷ nodes) =
    let rest = role_ids_of has nodes in if has n then id ∷ rest else rest

-- `memoize`
unfoldable pub memoize : NodeMap → NodeMap
unfolding ids_of role_ids_of
memoize nm = record nm {
  ids_memoized = ids_of nm.nodes;
  proposer_ids_memoized = role_ids_of (λ n. n.proposer) nm.nodes;
  acceptor_ids_memoized = role_ids_of (λ n. n.acceptor) nm.nodes;
  learner_ids_memoized = role_ids_of (λ n. n.learner) nm.nodes;
}

-- `xs[id] = e`: out of range is a panic.
unfoldable pub write_epoch : List ℕ → ℤ → ℕ → Outcome (List ℕ)
write_epoch xs (pos i) e = if ltb i (length xs) then done (set xs i e) else panic
write_epoch xs (negsuc i) e = panic

-- `for id := range nodes { nm.epochs[id.PaxosID] = id.Epoch }`
unfoldable pub fill_epochs : List (GrpId × Node) → List ℕ → Outcome (List ℕ)
unfolding write_epoch
fill_epochs [] epochs = done epochs
fill_epochs ((id, _) ∷ nodes) epochs = write_epoch epochs id.paxos_id id.epoch >>= fill_epochs nodes

-- `NewNodeMapWithCount`
unfoldable pub new_node_map_with_count : List (GrpId × Node) → ℕ → ℕ → Outcome NodeMap
unfolding fill_epochs memoize
new_node_map_with_count nodes nr_of_nodes nr_of_acceptors = do
  epochs ← fill_epochs nodes (replicate nr_of_nodes 0)
  done (
      memoize (record {
        nodes = nodes;
        epochs = epochs;
        nr_of_nodes = nr_of_nodes;
        nr_of_acceptors = nr_of_acceptors;
        quorum = nr_of_acceptors / 2 + 1;
        ids_memoized = [];
        proposer_ids_memoized = [];
        acceptor_ids_memoized = [];
        learner_ids_memoized = [];
      }))

-- The counting loop of `NewNodeMap`.
unfoldable pub count_acceptors : List (GrpId × Node) → ℕ
count_acceptors [] = 0
count_acceptors ((_, n) ∷ nodes) =
    let rest = count_acceptors nodes in if n.acceptor then suc rest else rest

-- `NewNodeMap`
unfoldable pub new_node_map : List (GrpId × Node) → Outcome NodeMap
unfolding new_node_map_with_count count_acceptors
new_node_map nodes = new_node_map_with_count nodes (length nodes) (count_acceptors nodes)

-- `NewNodeMapFromSingleNode`
unfoldable pub new_node_map_from_single_node : GrpId → Node → ℕ → ℕ → Outcome NodeMap
unfolding new_node_map_with_count
new_node_map_from_single_node id node nr_of_nodes nr_of_acceptors =
    new_node_map_with_count ((id, node) ∷ []) nr_of_nodes nr_of_acceptors

-- `nm.nodes[id]`
unfoldable pub lookup_node : List (GrpId × Node) → GrpId → Option Node
lookup_node [] id = none
lookup_node ((j, n) ∷ nodes) id = if id_eq j id then some n else lookup_node nodes id

-- `LookupNodeWithPaxosID`
unfoldable pub lookup_node_with_paxos_id : List (GrpId × Node) → ℤ → Option (GrpId × Node)
lookup_node_with_paxos_id [] px_id = none
lookup_node_with_paxos_id ((j, n) ∷ nodes) px_id =
    if eqb_ℤ j.paxos_id px_id then some (j, n) else lookup_node_with_paxos_id nodes px_id

-- `delete(nm.nodes, id)`
unfoldable pub delete_node : List (GrpId × Node) → GrpId → List (GrpId × Node)
delete_node [] id = []
delete_node ((j, n) ∷ nodes) id =
    let rest = delete_node nodes id in if id_eq j id then rest else (j, n) ∷ rest

-- The bounds test of `Add`.
unfoldable pub out_of_bounds : NodeMap → GrpId → Bool
out_of_bounds nm id =
    ltb_ℤ id.paxos_id (pos 0) || ltb_ℤ (to_int (sub_uint nm.nr_of_nodes 1)) id.paxos_id

-- What `Add` and `Replace` store.
unfoldable pub store_node : NodeMap → List (GrpId × Node) → GrpId → Node → Outcome NodeMap
unfolding write_epoch memoize
store_node nm others id node = do
  epochs ← write_epoch nm.epochs id.paxos_id id.epoch
  done (memoize (record nm { nodes = (id, node) ∷ others; epochs = epochs }))

-- `Add`
unfoldable pub add : NodeMap → GrpId → Node → Outcome (NodeMap × Option NodeError)
unfolding out_of_bounds lookup_node lookup_node_with_paxos_id store_node
add nm id node =
    if out_of_bounds nm id
    then done (nm, some node_id_out_of_bounds)
    else elim (lookup_node nm.nodes id) [
      | some _ ↦ done (nm, some node_already_present)
      | none ↦ elim (lookup_node_with_paxos_id nm.nodes id.paxos_id) [
        | some _ ↦ done (nm, some equal_paxos_id_already_present)
        | none ↦ store_node nm nm.nodes id node >>= λ nm'. done (nm', none)
      ]
    ]

-- `Replace`
unfoldable pub replace : NodeMap → GrpId → Node → Outcome (NodeMap × Option NodeError)
unfolding lookup_node_with_paxos_id delete_node store_node
replace nm new_id node = elim (lookup_node_with_paxos_id nm.nodes new_id.paxos_id) [
  | none ↦ done (nm, some old_node_not_found)
  | some (old_id, _) ↦
      store_node nm (delete_node nm.nodes old_id) new_id node >>= λ nm'. done (nm', none)
]

-- The loop of `EpochSlicesEqual`, over slices of one length.
unfoldable pub epochs_match : List ℕ → List ℕ → Bool
epochs_match [] _ = true
epochs_match (a ∷ as') [] = true
epochs_match (a ∷ as') (b ∷ bs) = let rest = epochs_match as' bs in if a == b then rest else false

-- `EpochSlicesEqual`
unfoldable pub epoch_slices_equal : List ℕ → List ℕ → Bool
unfolding epochs_match
epoch_slices_equal a b = if length a == length b then epochs_match a b else false

-- `PaxosID(x)` of a `uint`: the low byte, signed.
abbrev pub to_paxos_id : ℕ → ℤ
to_paxos_id x = let b = x % 256 in if ltb b 128 then pos b else negsuc (255 - b)

-- `GetNext`; a division by zero is a panic.
unfoldable pub get_next : NodeMap → GrpId → Outcome GrpId
get_next nm id =
    let intid = inc (to_uint id.paxos_id) % nm.nr_of_nodes in
    if ltb 0 nm.nr_of_nodes
    then (or_panic (get_elem? nm.epochs intid) >>= λ e. done (new_id (to_paxos_id intid) e))
    else panic

-- `type GrpMgr struct`: the fields that the actors read.
pub record GrpMgr : Type 0 where
  pub id : GrpId
  pub node_map : NodeMap
  pub ar_enabled : Bool
  pub lr_enabled : Bool

-- `NrOfNodes`, `NrOfAcceptors`, `Quorum`, `Epochs`
abbrev pub nr_of_nodes : GrpMgr → ℕ
nr_of_nodes g = g.node_map.nr_of_nodes

abbrev pub nr_of_acceptors : GrpMgr → ℕ
nr_of_acceptors g = g.node_map.nr_of_acceptors

abbrev pub quorum : GrpMgr → ℕ
quorum g = g.node_map.quorum

abbrev pub epochs : GrpMgr → List ℕ
epochs g = g.node_map.epochs

-- `SetNewNodeMap`
unfoldable pub set_new_node_map : GrpMgr → List (GrpId × Node) → Outcome GrpMgr
unfolding new_node_map
set_new_node_map g nodes = new_node_map nodes >>= λ nm. done (record g { node_map = nm })

-- `SetID`; the second part tells whether the call returned no error.
unfoldable pub set_id : GrpMgr → GrpId → GrpMgr × Bool
set_id g new_id =
    if eqb_ℤ new_id.paxos_id g.id.paxos_id && ltb g.id.epoch new_id.epoch
    then (record g { id = new_id }, true)
    else (g, false)
