-- ===== src/Nodes/Routing.antt =====
-- `NodeRegistry::find_for_tool_with_affinity` and `ToolRouter::resolve` of
-- crates/gateway/src/nodes/router.rs: which node or local tool a call goes to.
use serial_agent.Prelude.{
  ℕ, Bool, true, false, not, ◌&&◌, ◌||◌, Option, none, some, List, [], ◌∷◌, ltb, eqb, if◌then◌else◌,
  Bytes, bytes, bytes_beq, length, any, Map,
}
use serial_agent.Nodes.{ConnectedNode, NodeRegistry, covers, starts_with}

-- `str::cmp`: bytes compared in order, a prefix first.
unfoldable pub bytes_ltb : Bytes → Bytes → Bool
bytes_ltb s [] = false
bytes_ltb [] (b ∷ t) = true
bytes_ltb (a ∷ s) (b ∷ t) = ltb a b || (eqb a b && bytes_ltb s t)

-- The tuple that the search keeps: specificity, affinity, node id and sink.
pub record Candidate : Type 0 where
  pub specificity : ℕ
  pub has_affinity : Bool
  pub node : Bytes
  pub sink : ℕ

abbrev pub bool_beq : Bool → Bool → Bool
bool_beq true b = b
bool_beq false b = not b

-- The test `dominated` against a candidate that is there.
unfoldable pub beats : Candidate → Candidate → Bool
beats c b =
    ltb b.specificity c.specificity
    || ((eqb c.specificity b.specificity && (c.has_affinity && not b.has_affinity))
        || (eqb c.specificity b.specificity
            && (bool_beq c.has_affinity b.has_affinity && bytes_ltb c.node b.node)))

unfoldable pub challenge : Candidate → Option Candidate → Option Candidate
challenge c none = some c
challenge c (some b) = if beats c b then some c else some b

unfoldable pub affine : List Bytes → ConnectedNode → Bool
affine affinity n = any (λ a. starts_with n.node_id a || starts_with n.node_type a) affinity

abbrev pub candidate : List Bytes → ConnectedNode → Bytes → Candidate
candidate affinity n capability = record {
  specificity = length capability;
  has_affinity = affine affinity n;
  node = n.node_id;
  sink = n.sink;
}

-- The inner loop, over the capabilities of one node.
unfoldable pub scan_caps :
    Bytes → List Bytes → ConnectedNode → List Bytes → Option Candidate → Option Candidate
scan_caps tool affinity n [] best = best
scan_caps tool affinity n (capability ∷ caps) best =
    scan_caps tool affinity n caps
      (if covers capability tool then challenge (candidate affinity n capability) best else best)

-- The outer loop, over the nodes in the order of iteration.
unfoldable pub scan_nodes :
    Bytes → List Bytes → Map Bytes ConnectedNode → Option Candidate → Option Candidate
unfolding scan_caps
scan_nodes tool affinity [] best = best
scan_nodes tool affinity ((id, n) ∷ nodes) best =
    scan_nodes tool affinity nodes (scan_caps tool affinity n n.capabilities best)

abbrev pub answer : Option Candidate → Option (Bytes × ℕ)
answer none = none
answer (some c) = some (c.node, c.sink)

unfoldable pub find_for_tool_with_affinity : NodeRegistry → Bytes → List Bytes → Option (Bytes × ℕ)
unfolding scan_nodes
find_for_tool_with_affinity r tool affinity = answer (scan_nodes tool affinity r.nodes none)

unfoldable pub find_for_tool : NodeRegistry → Bytes → Option (Bytes × ℕ)
unfolding find_for_tool_with_affinity
find_for_tool r tool = find_for_tool_with_affinity r tool []

pub data LocalTool : Type 0 where
  exec process : LocalTool

pub data ToolDestination : Type 0 where
  to_node : Bytes → ToolDestination
  to_local : LocalTool → ToolDestination
  unknown : ToolDestination

abbrev pub destination : Option (Bytes × ℕ) → ToolDestination
destination none = unknown
destination (some (id, sink)) = to_node id

-- `ToolRouter::resolve`: the local tools come first.
unfoldable pub resolve : NodeRegistry → Bytes → ToolDestination
unfolding find_for_tool
resolve r tool =
    if bytes_beq tool (bytes "exec")
    then to_local exec
    else if bytes_beq tool (bytes "process")
    then to_local process
    else destination (find_for_tool r tool)
