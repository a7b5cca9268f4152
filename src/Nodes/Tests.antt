-- ===== src/Nodes/Tests.antt =====
-- The registry of crates/gateway/src/nodes/registry.rs on small examples.
use serial_agent.Prelude.{
  ◌≡◌, refl, arith, Option, none, some, List, [], ◌∷◌, map, Bytes, bytes, bytes_eq, bytes_beq,
  bytes_beq_iff, get, Bool-cases, inl, inr, sym, subst, ◌∙◌, ap, HasDistinctKeys,
}
use serial_agent.Nodes.{
  ConnectedNode, NodeRegistry, new_registry, covers, starts_with, list_nodes, infos, IsKeyed,
}
use serial_agent.Nodes.Routing.{
  find_for_tool_with_affinity, scan_nodes, scan_caps, challenge, beats, affine,
}
use serial_agent.Nodes.Choice.{Choice, find_for_tool-Choice}
use serial_agent.Nodes.Order.{find_for_tool-order}
use serial_agent.Nodes.WellFormed.{blank}
use serial_agent.Nodes.History.{
  NodeOp, registers, removes, touches, lists, apply_all, list_nodes-apply_all,
}

abbrev node_of : Bytes → List Bytes → ConnectedNode
node_of id capabilities = record {
  node_id = id;
  node_type = bytes "macos";
  name = id;
  capabilities = capabilities;
  version = bytes "1";
  tags = [];
  session_id = id;
  connected_at = 0;
  last_seen = 0;
  sink = 7;
}

abbrev mac : ConnectedNode
mac = node_of (bytes "mac1") (bytes "macos" ∷ bytes "macos.notes" ∷ [])

abbrev pi : ConnectedNode
pi = node_of (bytes "pi1") (bytes "macos.notes.search" ∷ [])

abbrev tool : Bytes
tool = bytes "macos.notes.search"

abbrev one_way : NodeRegistry
one_way = record {
  nodes = (bytes "mac1", mac) ∷ (bytes "pi1", pi) ∷ [];
  allowlists = [];
  generation = 2;
  list_cache = (0, []);
}

abbrev other_way : NodeRegistry
other_way = record {
  nodes = (bytes "pi1", pi) ∷ (bytes "mac1", mac) ∷ [];
  allowlists = [];
  generation = 2;
  list_cache = (0, []);
}

-- The longer capability wins.
most_specific : find_for_tool_with_affinity one_way tool [] ≡ some (bytes "pi1", 7)
unfolding find_for_tool_with_affinity scan_nodes scan_caps challenge beats covers starts_with affine
most_specific = refl

one_way-HasDistinctKeys : HasDistinctKeys one_way.nodes
unfolding get
one_way-HasDistinctKeys = (refl, (refl, tt))

other_way-HasDistinctKeys : HasDistinctKeys other_way.nodes
unfolding get
other_way-HasDistinctKeys = (refl, (refl, tt))

abbrev key_of : Option ConnectedNode → Bytes
key_of none = []
key_of (some n) = n.node_id

one_way-IsKeyed : IsKeyed one_way.nodes
unfolding get
one_way-IsKeyed id n h = elim (Bool-cases (bytes_beq (bytes "mac1") id)) [
  | inl one ↦ sym (ap (λ o. key_of o) (rw one at h)) ∙ (bytes_beq_iff (bytes "mac1") id).0 one
  | inr other ↦ elim (Bool-cases (bytes_beq (bytes "pi1") id)) [
    | inl two ↦
        sym (ap (λ o. key_of o) (rw two at (rw other at h)))
        ∙ (bytes_beq_iff (bytes "pi1") id).0 two
    | inr none_left ↦ absurd (cc)
  ]
]

same_nodes : (id : Bytes) → get id one_way.nodes ≡ get id other_way.nodes
unfolding get
same_nodes id = elim (Bool-cases (bytes_beq (bytes "mac1") id)) [
  | inl one ↦
      subst (λ k. get k one_way.nodes ≡ get k other_way.nodes)
        ((bytes_beq_iff (bytes "mac1") id).0 one) refl
  | inr other ↦ rw other
]

other_way-IsKeyed : IsKeyed other_way.nodes
other_way-IsKeyed id n h = one_way-IsKeyed id n (same_nodes id ∙ h)

find_for_tool-Choice_example :
    Choice tool [] one_way.nodes (find_for_tool_with_affinity one_way tool [])
find_for_tool-Choice_example = find_for_tool-Choice tool [] one_way one_way-HasDistinctKeys

find_for_tool-order_example :
    find_for_tool_with_affinity one_way tool [] ≡ find_for_tool_with_affinity other_way tool []
find_for_tool-order_example =
    find_for_tool-order one_way other_way tool [] one_way-HasDistinctKeys other_way-HasDistinctKeys
      one_way-IsKeyed other_way-IsKeyed same_nodes

abbrev node_calls : List NodeOp
node_calls =
    registers mac ∷ lists ∷ touches 5 (bytes "mac1") ∷ registers pi ∷ removes (bytes "mac1") ∷ []

list_nodes-apply_all_example :
    map blank (list_nodes (apply_all node_calls new_registry)).1
    ≡ map blank (infos (apply_all node_calls new_registry).nodes)
list_nodes-apply_all_example = list_nodes-apply_all node_calls (omega arith)
