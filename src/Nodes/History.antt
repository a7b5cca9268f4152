-- ===== src/Nodes/History.antt =====
-- crates/gateway/src/nodes/registry.rs: sequences of connections, disconnections, contacts, prunings
-- and listings.
use serial_agent.Prelude.{
  ℕ, ◌+◌, ◌^◌, ◌≤◌, ◌<◌, ◌≡◌, refl, List, [], ◌∷◌, map, arith, eqb, Bytes, length, get, Bool-cases,
  inl, inr,
}
use serial_agent.Nodes.{
  ConnectedNode, NodeRegistry, new_registry, register, remove_node, touch, prune_stale, infos,
  list_nodes,
}
use serial_agent.Nodes.WellFormed.{
  IsWellFormed, blank, register-IsWellFormed, remove_node-IsWellFormed, prune_stale-IsWellFormed,
  touch-IsWellFormed, list_nodes-IsWellFormed,
}

pub data NodeOp : Type 0 where
  registers : ConnectedNode → NodeOp
  removes : Bytes → NodeOp
  touches : ℕ → Bytes → NodeOp
  prunes : ℕ → ℕ → NodeOp
  lists : NodeOp

pub apply : NodeOp → NodeRegistry → NodeRegistry
apply (registers n) r = register n r
apply (removes id) r = remove_node id r
apply (touches now id) r = touch now id r
apply (prunes now timeout) r = prune_stale now timeout r
apply lists r = (list_nodes r).0

pub apply_all : List NodeOp → NodeRegistry → NodeRegistry
apply_all [] r = r
apply_all (op ∷ ops) r = apply_all ops (apply op r)

apply-IsWellFormed :
    (op : NodeOp) (r : NodeRegistry)
    → r.generation + 1 < 2 ^ 64
    → IsWellFormed r
    → IsWellFormed (apply op r)
unfolding apply
apply-IsWellFormed (registers n) r room v = register-IsWellFormed n r room v
apply-IsWellFormed (removes id) r room v = remove_node-IsWellFormed id r room v
apply-IsWellFormed (touches now id) r room v = touch-IsWellFormed now id r v
apply-IsWellFormed (prunes now timeout) r room v = prune_stale-IsWellFormed now timeout r room v
apply-IsWellFormed lists r room v = list_nodes-IsWellFormed r v

generation-apply :
    (op : NodeOp) (r : NodeRegistry)
    → r.generation + 1 < 2 ^ 64
    → (apply op r).generation ≤ r.generation + 1
unfolding apply register remove_node touch prune_stale list_nodes
generation-apply (registers n) r room = ground arith
generation-apply (removes id) r room = ground arith
generation-apply (touches now id) r room = ground arith
generation-apply (prunes now timeout) r room = ground arith
generation-apply lists r room = ground arith

-- Any sequence of calls keeps the registry well formed while the counter has room for it.
pub apply_all-IsWellFormed :
    (ops : List NodeOp) (r : NodeRegistry)
    → r.generation + length ops < 2 ^ 64
    → IsWellFormed r
    → IsWellFormed (apply_all ops r)
unfolding apply_all
apply_all-IsWellFormed [] r room v = v
apply_all-IsWellFormed (op ∷ ops) r room v =
    apply_all-IsWellFormed ops (apply op r) (omega (arith, generation-apply op r (omega arith)))
      (apply-IsWellFormed op r (omega arith) v)

pub new_registry-IsWellFormed : IsWellFormed new_registry
unfolding new_registry get
new_registry-IsWellFormed = record {
  distinct = tt;
  keyed = λ id n held. absurd (cc);
  allowed = λ id n allowed held listed. absurd (cc);
  older = omega arith;
  cached = λ _. refl;
}

-- So, after fewer than 2^64 calls from the start, a listing shows exactly the nodes that are
-- registered, each as it was registered, but for the time of last contact.
pub list_nodes-apply_all :
    (ops : List NodeOp)
    → length ops < 2 ^ 64
    → let r = apply_all ops new_registry in map blank (list_nodes r).1 ≡ map blank (infos r.nodes)
list_nodes-apply_all ops room = shown (apply_all ops new_registry) (
    apply_all-IsWellFormed ops new_registry (unfold new_registry in omega arith)
      new_registry-IsWellFormed)
  where
    shown :
        (r : NodeRegistry) → IsWellFormed r → map blank (list_nodes r).1 ≡ map blank (infos r.nodes)
    shown r v = elim (Bool-cases (eqb r.list_cache.0 r.generation)) [
      | inl hit ↦ unfold list_nodes in rw hit (v.cached (ground arith))
      | inr miss ↦ unfold list_nodes in rw miss
    ]
