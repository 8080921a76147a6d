-- ===== src/Tests/Groups.antt =====
-- The node map (grp/node.go) on concrete nodes.
use goxos.Base.{◌≡◌, refl, some, [], ◌∷◌, arith}
use goxos.Base.Outcome.{done}
use goxos.Grp.NodeMap.{
  NodeMap, node_already_present, equal_paxos_id_already_present, add, out_of_bounds, lookup_node,
  lookup_node_with_paxos_id,
}
use goxos.Grp.Adding.{AddOutcome, add-AddOutcome}
use goxos.Tests.{replica, node, node_map}

-- A group of four of which three nodes are known.
abbrev partly_known : NodeMap
partly_known = record node_map { nr_of_nodes = 4; epochs = 0 ∷ 0 ∷ 0 ∷ 0 ∷ [] }

add-AddOutcome_example : AddOutcome partly_known (replica 3) node
add-AddOutcome_example =
    add-AddOutcome partly_known (replica 3) node
      (record { one_each = refl; some_node = omega arith; few = omega arith })

-- A node that is there, and a later epoch of one.
add_twice :
    (add partly_known (replica 2) node ≡ done (partly_known, some node_already_present))
    × (add partly_known (record (replica 2) { epoch = 1 }) node
        ≡ done (partly_known, some equal_paxos_id_already_present))
unfolding add out_of_bounds lookup_node lookup_node_with_paxos_id
add_twice = (refl, refl)
