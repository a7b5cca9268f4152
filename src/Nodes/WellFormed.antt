-- ===== src/Nodes/WellFormed.antt =====
-- crates/gateway/src/nodes/registry.rs: the invariant of the registry, operation by operation.
use serial_agent.Prelude.{
  ℕ, ◌+◌, ◌-◌, ◌^◌, ◌≤◌, ◌<◌, ◌≡◌, refl, sym, subst, ◌∙◌, Bool, true, inl, inr, Option, none, some,
  List, [], ◌∷◌, map, arith, ltb, eqb, is_some, Bytes, bytes_eq, bytes_beq, bytes_beq_iff, length,
  any, keep_if, All, Map, get, insert, remove, adjust, retain, HasDistinctKeys, get-insert,
  get-remove, get-adjust, get-retain, keep_value, insert-HasDistinctKeys, remove-HasDistinctKeys,
  adjust-HasDistinctKeys, retain-HasDistinctKeys, retain_all, Bool-cases, Option-cases,
}
use serial_agent.Nodes.{
  ConnectedNode, NodeInfo, NodeRegistry, IsKeyed, covers, filter_by, filter_capabilities, bump,
  register, remove_node, touch, prune_stale, infos, list_nodes,
}

-- A view of the nodes without the times of last contact.
abbrev pub blank : NodeInfo → NodeInfo
blank i = record i { last_seen = 0 }

abbrev Covered : List Bytes → Bytes → Type 0
Covered allowed capability = any (λ prefix. covers prefix capability) allowed ≡ true

-- Every capability of a node that has an allowlist is covered by one of its prefixes.
abbrev pub AreAllowed : NodeRegistry → Type 0
AreAllowed r =
    (id : Bytes) (n : ConnectedNode) (allowed : List Bytes)
    → get id r.nodes ≡ some n
    → get id r.allowlists ≡ some allowed
    → All (Covered allowed) n.capabilities

pub record IsWellFormed (r : NodeRegistry) : Type 0 where
  pub distinct : HasDistinctKeys r.nodes
  pub keyed : IsKeyed r.nodes
  pub allowed : AreAllowed r
  pub older : r.list_cache.0 ≤ r.generation
  pub cached : r.list_cache.0 ≡ r.generation → map blank r.list_cache.1 ≡ map blank (infos r.nodes)

All-keep_if : (p : Bytes → Bool) (xs : List Bytes) → All (λ x. p x ≡ true) (keep_if p xs)
All-keep_if p [] = tt
All-keep_if p (x ∷ xs) = elim (Bool-cases (p x)) [
  | inl h ↦ rw h (h, All-keep_if p xs)
  | inr h ↦ rw h (All-keep_if p xs)
]

insert-IsKeyed :
    (k : Bytes) (n : ConnectedNode) (m : Map Bytes ConnectedNode)
    → n.node_id ≡ k
    → IsKeyed m
    → IsKeyed (insert k n m)
insert-IsKeyed k n m e h id v held = ground (arith, get-insert k id n m, bytes_beq_iff k id, h id v)

filtered-Covered :
    (o : Option (List Bytes)) (capabilities allowed : List Bytes)
    → o ≡ some allowed
    → All (Covered allowed) (filter_by o capabilities)
filtered-Covered o capabilities allowed e = rw e (All-keep_if _ capabilities)

register-AreAllowed :
    (n : ConnectedNode) (r : NodeRegistry) → AreAllowed r → AreAllowed (register n r)
unfolding register
register-AreAllowed n r h id m allowed held listed =
    let stored : ConnectedNode = record n {
      capabilities = filter_capabilities r n.node_id n.capabilities;
    } in
    let read = get-insert n.node_id id stored r.nodes in
    elim (Bool-cases (bytes_beq n.node_id id)) [
      | inl hit ↦
          let same : stored ≡ m = ground arith in
          let here : n.node_id ≡ id = (bytes_beq_iff n.node_id id).0 hit in
          subst (λ k. All (Covered allowed) k.capabilities) same
            (filtered-Covered _ n.capabilities allowed (rw here listed))
      | inr miss ↦ h id m allowed (ground arith) listed
    ]

keep_value-some :
    (p : ConnectedNode → Bool) (o : Option ConnectedNode) {n : ConnectedNode}
    → keep_value p o ≡ some n
    → o ≡ some n
keep_value-some p none h = cc
keep_value-some p (some a) h = ground arith

blank-adjust :
    (id : Bytes) (now : ℕ) (m : Map Bytes ConnectedNode)
    → map blank (infos (adjust id (λ n. record n { last_seen = now }) m)) ≡ map blank (infos m)
unfolding adjust
blank-adjust id now [] = refl
blank-adjust id now ((j, n) ∷ m) = ground (arith, blank-adjust id now m)

-- The registry with its nodes thinned out, and the generation raised.
thinned-IsWellFormed :
    (r : NodeRegistry) (nodes : Map Bytes ConnectedNode)
    → r.generation + 1 < 2 ^ 64
    → HasDistinctKeys nodes
    → ((id : Bytes) (n : ConnectedNode) → get id nodes ≡ some n → get id r.nodes ≡ some n)
    → IsWellFormed r
    → IsWellFormed (record r { nodes = nodes; generation = bump r.generation })
thinned-IsWellFormed r nodes room d thin v = record {
  distinct = d;
  keyed = λ id n held. v.keyed id n (thin id n held);
  allowed = λ id n allowed held listed. v.allowed id n allowed (thin id n held) listed;
  older = ground (arith, v.older);
  cached = λ e. absurd (ground (arith, v.older));
}

pub register-IsWellFormed :
    (n : ConnectedNode) (r : NodeRegistry)
    → r.generation + 1 < 2 ^ 64
    → IsWellFormed r
    → IsWellFormed (register n r)
unfolding register
register-IsWellFormed n r room v = record {
  distinct = insert-HasDistinctKeys _ _ _ v.distinct;
  keyed = insert-IsKeyed _ _ _ refl v.keyed;
  allowed = register-AreAllowed n r v.allowed;
  older = ground (arith, v.older);
  cached = λ e. absurd (ground (arith, v.older));
}

pub remove_node-IsWellFormed :
    (id : Bytes) (r : NodeRegistry)
    → r.generation + 1 < 2 ^ 64
    → IsWellFormed r
    → IsWellFormed (remove_node id r)
unfolding remove_node
remove_node-IsWellFormed id r room v = elim (Bool-cases (is_some (get id r.nodes))) [
  | inl there ↦ rw there (
      thinned-IsWellFormed r (remove id r.nodes) room (remove-HasDistinctKeys id _ v.distinct)
        (λ j n held. ground (arith, get-remove id j r.nodes)) v)
  | inr gone ↦ rw gone v
]

pub prune_stale-IsWellFormed :
    (now timeout : ℕ) (r : NodeRegistry)
    → r.generation + 1 < 2 ^ 64
    → IsWellFormed r
    → IsWellFormed (prune_stale now timeout r)
unfolding prune_stale
prune_stale-IsWellFormed now timeout r room v =
    let fresh : Bytes → ConnectedNode → Bool = λ id n. ltb (now - n.last_seen) timeout in
    let kept = retain fresh r.nodes in
    elim (Bool-cases (ltb 0 (length r.nodes - length kept))) [
      | inl some_pruned ↦ rw some_pruned (
          thinned-IsWellFormed r kept room (retain-HasDistinctKeys fresh _ v.distinct)
            (λ j n held.
              keep_value-some (fresh j) (get j r.nodes)
                (sym (get-retain j fresh r.nodes v.distinct) ∙ held))
            v)
      | inr none_pruned ↦
          let whole : kept ≡ r.nodes = retain_all fresh r.nodes (ground arith) in
          rw none_pruned (rw whole v)
    ]

abbrev seen_at : ℕ → ConnectedNode → ConnectedNode
seen_at now n = record n { last_seen = now }

touched :
    (now : ℕ) (id j : Bytes) (nodes : Map Bytes ConnectedNode) {n : ConnectedNode}
    → get j (adjust id (seen_at now) nodes) ≡ some n
    → (m : ConnectedNode) × (get j nodes ≡ some m)
      × (n.node_id ≡ m.node_id)
      × (n.capabilities ≡ m.capabilities)
touched now id j nodes h = elim (Option-cases (get j nodes)) [
  | inl e ↦ absurd (ground (arith, get-adjust id j (seen_at now) nodes))
  | inr (m, e) ↦
      let read = get-adjust id j (seen_at now) nodes in
      (m, e, ground (arith, read), ground (arith, read))
]

pub touch-IsWellFormed :
    (now : ℕ) (id : Bytes) (r : NodeRegistry) → IsWellFormed r → IsWellFormed (touch now id r)
unfolding touch
touch-IsWellFormed now id r v = record {
  distinct = adjust-HasDistinctKeys id (seen_at now) r.nodes v.distinct;
  keyed = λ j n held.
      let (m, held', same, _) = touched now id j r.nodes held in same ∙ v.keyed j m held';
  allowed = λ j n allowed held listed.
      let (m, held', _, same) = touched now id j r.nodes held in
      subst (All (Covered allowed)) (sym same) (v.allowed j m allowed held' listed);
  older = v.older;
  cached = λ e. v.cached e ∙ sym (blank-adjust id now r.nodes);
}

pub list_nodes-IsWellFormed : (r : NodeRegistry) → IsWellFormed r → IsWellFormed (list_nodes r).0
unfolding list_nodes
list_nodes-IsWellFormed r v = elim (Bool-cases (eqb r.list_cache.0 r.generation)) [
  | inl hit ↦ rw hit v
  | inr miss ↦ rw miss (record {
    distinct = v.distinct;
    keyed = v.keyed;
    allowed = v.allowed;
    older = omega arith;
    cached = λ _. refl;
  })
]
