-- ===== src/Grp/Adding.antt =====
-- What `Add` does to a node map (grp/node.go).
use goxos.Base.{
  ℕ, ◌≡◌, ◌⊎◌, inl, inr, refl, ◌∙◌, true, false, none, some, ◌∷◌, ◌≤◌, ◌<◌, arith, length,
  get_elem?, set, length-set, ℤ, pos, negsuc, Bool-cases, Option-cases, get_elem?-set_self,
}
use goxos.Base.Outcome.{done}
use goxos.Grp.Id.{GrpId, id_eq, id_eq_refl}
use goxos.Grp.NodeMap.{
  Node, NodeMap, NodeError, node_already_present, old_node_not_found,
  equal_paxos_id_already_present, node_id_out_of_bounds, memoize, write_epoch, lookup_node,
  lookup_node_with_paxos_id, out_of_bounds, store_node, add, ids_of,
}

-- The epochs have one entry for each node of the group, which has at least one and at most 128
-- nodes, the `int8` ids from 0 on.
pub record IsSized (nm : NodeMap) : Type 0 where
  pub one_each : length nm.epochs ≡ nm.nr_of_nodes
  pub some_node : 0 < nm.nr_of_nodes
  pub few : nm.nr_of_nodes ≤ 128

-- Why a node is not added.
abbrev pub Rejects : NodeMap → GrpId → NodeError → Type 0
Rejects nm id node_id_out_of_bounds = ((i : ℕ) → id.paxos_id ≡ pos i → nm.nr_of_nodes ≤ i)
Rejects nm id node_already_present = (n : Node) × (lookup_node nm.nodes id ≡ some n)
Rejects nm id equal_paxos_id_already_present =
    (j : GrpId) × (n : Node) × (lookup_node_with_paxos_id nm.nodes id.paxos_id ≡ some (j, n))
Rejects nm id old_node_not_found = ⊥

-- What the node map is after a node was added.
pub record IsAdded (nm : NodeMap) (id : GrpId) (node : Node) (nm' : NodeMap) : Type 0 where
  pub sized : IsSized nm'
  pub found : lookup_node nm'.nodes id ≡ some node
  pub others : (j : GrpId) → id_eq id j ≡ false → lookup_node nm'.nodes j ≡ lookup_node nm.nodes j
  pub was_free : lookup_node_with_paxos_id nm.nodes id.paxos_id ≡ none
  pub epoch : (i : ℕ) × (id.paxos_id ≡ pos i) × (get_elem? nm'.epochs i ≡ some id.epoch)
  pub same_quorum : nm'.quorum ≡ nm.quorum
  pub memoized : nm'.ids_memoized ≡ id ∷ ids_of nm.nodes

in_bounds :
    (nm : NodeMap) (id : GrpId)
    → IsSized nm
    → out_of_bounds nm id ≡ false
    → (i : ℕ) × (id.paxos_id ≡ pos i) × (i < nm.nr_of_nodes)
unfolding out_of_bounds
in_bounds nm id s h = go id.paxos_id refl
  where
    go : (k : ℤ) → id.paxos_id ≡ k → (i : ℕ) × (k ≡ pos i) × (i < nm.nr_of_nodes)
    go (pos i) e = (i, refl, ground arith)
    go (negsuc i) e = ground arith

not_in_bounds :
    (nm : NodeMap) (id : GrpId)
    → IsSized nm
    → out_of_bounds nm id ≡ true
    → (i : ℕ) → id.paxos_id ≡ pos i
    → nm.nr_of_nodes ≤ i
unfolding out_of_bounds
not_in_bounds nm id s h i e = ground arith

-- The node map with one node more.
abbrev pub added : NodeMap → GrpId → Node → ℕ → NodeMap
added nm id node i =
    memoize (record nm { nodes = (id, node) ∷ nm.nodes; epochs = set nm.epochs i id.epoch })

store_node-done :
    (nm : NodeMap) (id : GrpId) (node : Node) (i : ℕ)
    → id.paxos_id ≡ pos i
    → i < length nm.epochs
    → store_node nm nm.nodes id node ≡ done (added nm id node i)
unfolding store_node write_epoch
store_node-done nm id node i e h = ground arith

added-IsAdded :
    (nm : NodeMap) (id : GrpId) (node : Node) (i : ℕ)
    → IsSized nm
    → id.paxos_id ≡ pos i
    → i < length nm.epochs
    → lookup_node_with_paxos_id nm.nodes id.paxos_id ≡ none
    → IsAdded nm id node (added nm id node i)
unfolding lookup_node memoize ids_of
added-IsAdded nm id node i s e h free = record {
  sized = record {
    one_each = length-set nm.epochs i id.epoch ∙ s.one_each;
    some_node = s.some_node;
    few = s.few;
  };
  found = rw (id_eq_refl id, lookup_node) refl;
  others = λ j ne. rw (ne, lookup_node) refl;
  was_free = free;
  epoch = (i, e, get_elem?-set_self nm.epochs i id.epoch h);
  same_quorum = refl;
  memoized = refl;
}

-- What `Add` comes to.
abbrev pub AddOutcome : NodeMap → GrpId → Node → Type 0
AddOutcome nm id node =
    ((nm' : NodeMap) × (add nm id node ≡ done (nm', none)) × IsAdded nm id node nm')
    ⊎ ((err : NodeError) × (add nm id node ≡ done (nm, some err)) × Rejects nm id err)

-- `Add` never panics on a node map of 1 to 128 nodes with an epoch for each. It returns an error and
-- leaves the node map as it is if the id is out of the group's range, is in the map, or has the
-- Paxos id of a node in the map. Else the map finds the node under the id, finds every other node as
-- before, has the id's epoch at its Paxos id, and lists the id.
pub add-AddOutcome : (nm : NodeMap) (id : GrpId) (node : Node) → IsSized nm → AddOutcome nm id node
unfolding add
add-AddOutcome nm id node s = elim (Bool-cases (out_of_bounds nm id)) [
  | inl out ↦ inr (node_id_out_of_bounds, rw (out, add) refl, not_in_bounds nm id s out)
  | inr within ↦ elim (Option-cases (lookup_node nm.nodes id)) [
    | inr (n, there) ↦ inr (node_already_present, rw (within, add) (rw there refl), (n, there))
    | inl absent ↦ elim (Option-cases (lookup_node_with_paxos_id nm.nodes id.paxos_id)) [
      | inr ((j, n), taken) ↦ inr (
        equal_paxos_id_already_present,
        rw (within, add) (rw absent (rw taken refl)),
        (j, n, taken),
      )
      | inl free ↦
          let (i, e, low) = in_bounds nm id s within in
          let room : i < length nm.epochs = omega (arith, s.one_each) in
          inl (
            added nm id node i,
            rw (within, add) (rw absent (rw free (rw (store_node-done nm id node i e room) refl))),
            added-IsAdded nm id node i s e room free,
          )
    ]
  ]
]
