-- ===== src/Nodes.antt =====
-- crates/gateway/src/nodes/registry.rs: the nodes that are connected, their capability
-- allowlists, and the generation counter with the list cache that it guards. Times are seconds.
pub mod Tests
pub mod Matching
pub mod Routing
pub mod Ranking
pub mod Best
pub mod Choice
pub mod Order
pub mod WellFormed
pub mod History
pub mod Pending
use serial_agent.Prelude.{
  ℕ, ◌≡◌, ◌+◌, ◌-◌, ◌%◌, ◌^◌, Bool, true, false, ◌&&◌, ◌||◌, Option, none, some, List, [], ◌∷◌, map,
  ltb, eqb, if◌then◌else◌, is_some, Bytes, bytes_beq, bytes_eq, bytes, length, get_elem?, any,
  keep_if, Map, get, insert, remove, adjust, retain,
}

-- `ConnectedNode`; the sink is the number of a channel.
pub record ConnectedNode : Type 0 where
  pub node_id : Bytes
  pub node_type : Bytes
  pub name : Bytes
  pub capabilities : List Bytes
  pub version : Bytes
  pub tags : List Bytes
  pub session_id : Bytes
  pub connected_at : ℕ
  pub last_seen : ℕ
  pub sink : ℕ

pub record NodeInfo : Type 0 where
  pub node_id : Bytes
  pub node_type : Bytes
  pub name : Bytes
  pub capabilities : List Bytes
  pub version : Bytes
  pub tags : List Bytes
  pub session_id : Bytes
  pub connected_at : ℕ
  pub last_seen : ℕ

pub record NodeRegistry : Type 0 where
  pub nodes : Map Bytes ConnectedNode
  pub allowlists : Map Bytes (List Bytes)
  pub generation : ℕ
  pub list_cache : ℕ × List NodeInfo

unfoldable pub new_registry : NodeRegistry
new_registry = record { nodes = []; allowlists = []; generation = 0; list_cache = (0, []) }

unfoldable pub starts_with : Bytes → Bytes → Bool
starts_with s [] = true
starts_with [] (p ∷ prefix) = false
starts_with (c ∷ s) (p ∷ prefix) = eqb c p && starts_with s prefix

abbrev pub byte_is : Option ℕ → ℕ → Bool
byte_is none b = false
byte_is (some c) b = eqb c b

-- Each node stands under its own id.
abbrev pub IsKeyed : Map Bytes ConnectedNode → Type 0
IsKeyed nodes = (id : Bytes) (n : ConnectedNode) → get id nodes ≡ some n → n.node_id ≡ id

-- The test of `filter_capabilities` and `find_for_tool_with_affinity`: `name` is `prefix`, or
-- goes on with a dot. An index out of range panics; the length is tested first.
unfoldable pub covers : Bytes → Bytes → Bool
unfolding starts_with
covers prefix name =
    bytes_beq name prefix
    || (ltb (length prefix) (length name)
        && (starts_with name prefix && byte_is (get_elem? name (length prefix)) b'.'))

abbrev filter_by : Option (List Bytes) → List Bytes → List Bytes
filter_by none caps = caps
filter_by (some allowed) caps =
    keep_if (λ capability. any (λ prefix. covers prefix capability) allowed) caps

unfoldable pub filter_capabilities : NodeRegistry → Bytes → List Bytes → List Bytes
filter_capabilities r id caps = filter_by (get id r.allowlists) caps

-- `fetch_add(1)` on an `AtomicU64`.
abbrev pub bump : ℕ → ℕ
bump g = (g + 1) % 2 ^ 64

unfoldable pub register : ConnectedNode → NodeRegistry → NodeRegistry
unfolding filter_capabilities
register n r =
    let caps = filter_capabilities r n.node_id n.capabilities in
    record r {
      nodes = insert n.node_id (record n { capabilities = caps }) r.nodes;
      generation = bump r.generation;
    }

unfoldable pub remove_node : Bytes → NodeRegistry → NodeRegistry
remove_node id r =
    if is_some (get id r.nodes)
    then record r { nodes = remove id r.nodes; generation = bump r.generation }
    else r

unfoldable pub touch : ℕ → Bytes → NodeRegistry → NodeRegistry
touch now id r = record r { nodes = adjust id (λ n. record n { last_seen = now }) r.nodes }

-- An age below zero is below every timeout, so the truncated difference decides alike for a
-- timeout that is positive.
unfoldable pub prune_stale : ℕ → ℕ → NodeRegistry → NodeRegistry
prune_stale now timeout r =
    let kept = retain (λ id n. ltb (now - n.last_seen) timeout) r.nodes in
    let pruned = length r.nodes - length kept in
    if ltb 0 pruned
    then record r { nodes = kept; generation = bump r.generation }
    else record r { nodes = kept }

abbrev pub info : ConnectedNode → NodeInfo
info n = record {
  node_id = n.node_id;
  node_type = n.node_type;
  name = n.name;
  capabilities = n.capabilities;
  version = n.version;
  tags = n.tags;
  session_id = n.session_id;
  connected_at = n.connected_at;
  last_seen = n.last_seen;
}

abbrev pub infos : Map Bytes ConnectedNode → List NodeInfo
infos nodes = map (λ e. info e.1) nodes

-- `list`: the cached answer where the generation has not changed, and else a new one.
unfoldable pub list_nodes : NodeRegistry → NodeRegistry × List NodeInfo
list_nodes r =
    if eqb r.list_cache.0 r.generation
    then (r, r.list_cache.1)
    else (record r { list_cache = (r.generation, infos r.nodes) }, infos r.nodes)

unfoldable pub get_sink : Bytes → NodeRegistry → Option ℕ
get_sink id r = sink_of (get id r.nodes)
  where
    sink_of : Option ConnectedNode → Option ℕ
    sink_of none = none
    sink_of (some n) = some n.sink
