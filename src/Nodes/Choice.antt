-- ===== src/Nodes/Choice.antt =====
-- What the search for a node promises, by the capabilities, the preferences and the ids themselves
-- (crates/gateway/src/nodes/registry.rs, `find_for_tool_with_affinity`).
use serial_agent.Prelude.{
  ℕ, ◌≤◌, ◌<◌, ◌≡◌, ◌↔◌, ◌⊎◌, inl, inr, refl, sym, ap, ◌∙◌, true, false, ◌||◌, Option, none, some,
  List, [], ◌∷◌, ◌++◌, Bytes, bytes_eq, In, Map, get, HasDistinctKeys, any, length, eqb_iff, arith,
  Bool-cases, Never,
}
use serial_agent.Nodes.{ConnectedNode, NodeRegistry, starts_with}
use serial_agent.Nodes.Matching.{IsBelow, covers_iff}
use serial_agent.Nodes.Routing.{
  Candidate, beats, bytes_ltb, affine, candidate, answer, scan_nodes, find_for_tool_with_affinity,
}
use serial_agent.Nodes.Best.{Offer, Outcome, nobody, winner, scan_nodes-Outcome}

-- One text is the start of another.
abbrev pub Begins : Bytes → Bytes → Type 0
Begins prefix s = (rest : Bytes) × (s ≡ prefix ++ rest)

starts_with-Begins : (s prefix : Bytes) → starts_with s prefix ≡ true → Begins prefix s
unfolding starts_with
starts_with-Begins s [] h = (s, refl)
starts_with-Begins [] (p ∷ prefix) h = absurd (ground (arith, h))
starts_with-Begins (c ∷ s) (p ∷ prefix) h =
    let same : c ≡ p = ground (arith, h, eqb_iff c p) in
    let (rest, e) = starts_with-Begins s prefix (ground (arith, h)) in
    (rest, ap (λ t. c ∷ t) e ∙ ap (λ a. a ∷ (prefix ++ rest)) same)

starts_with-append : (prefix rest : Bytes) → starts_with (prefix ++ rest) prefix ≡ true
unfolding starts_with
starts_with-append [] rest = refl
starts_with-append (p ∷ prefix) rest = ground (arith, starts_with-append prefix rest)

starts_with_iff : (s prefix : Bytes) → (starts_with s prefix ≡ true) ↔ Begins prefix s
starts_with_iff s prefix = (
  starts_with-Begins s prefix,
  λ b. ap (λ t. starts_with t prefix) b.1 ∙ starts_with-append prefix b.0,
)

-- Some preference begins the id or the type of the node.
abbrev pub IsPreferred : List Bytes → ConnectedNode → Type 0
IsPreferred [] n = Never
IsPreferred (a ∷ affinity) n = (Begins a n.node_id ⊎ Begins a n.node_type) ⊎ IsPreferred affinity n

affine_iff :
    (affinity : List Bytes) (n : ConnectedNode)
    → (affine affinity n ≡ true) ↔ IsPreferred affinity n
unfolding affine
affine_iff affinity n = (there affinity, back affinity)
  where
    there :
        (affinity : List Bytes)
        → any (λ a. starts_with n.node_id a || starts_with n.node_type a) affinity ≡ true
        → IsPreferred affinity n
    there [] h = absurd (ground (arith, h))
    there (a ∷ affinity) h = elim (Bool-cases (starts_with n.node_id a)) [
      | inl by_id ↦ inl (inl ((starts_with_iff n.node_id a).0 by_id))
      | inr not_id ↦ elim (Bool-cases (starts_with n.node_type a)) [
        | inl by_type ↦ inl (inr ((starts_with_iff n.node_type a).0 by_type))
        | inr neither ↦ inr (there affinity (ground (arith, h, not_id, neither)))
      ]
    ]

    back :
        (affinity : List Bytes)
        → IsPreferred affinity n
        → any (λ a. starts_with n.node_id a || starts_with n.node_type a) affinity ≡ true
    back [] h = elim h [ ]
    back (a ∷ affinity) (inl (inl b)) = ground (arith, (starts_with_iff n.node_id a).1 b)
    back (a ∷ affinity) (inl (inr b)) = ground (arith, (starts_with_iff n.node_type a).1 b)
    back (a ∷ affinity) (inr h) = ground (arith, back affinity h)

-- The order of texts: a proper beginning first, and else the first byte that differs decides.
abbrev pub IsBefore : Bytes → Bytes → Type 0
IsBefore s t =
    ((b : ℕ) × (rest : Bytes) × (t ≡ s ++ b ∷ rest))
    ⊎ ((p : Bytes) × (a : ℕ) × (b : ℕ) × (u : Bytes) × (v : Bytes) × (a < b)
        × (s ≡ p ++ a ∷ u)
        × (t ≡ p ++ b ∷ v))

bytes_ltb-longer : (s : Bytes) (b : ℕ) (rest : Bytes) → bytes_ltb s (s ++ b ∷ rest) ≡ true
unfolding bytes_ltb
bytes_ltb-longer [] b rest = refl
bytes_ltb-longer (c ∷ s) b rest = ground (arith, bytes_ltb-longer s b rest)

bytes_ltb-differ :
    (p : Bytes) (a b : ℕ) (u v : Bytes) → a < b → bytes_ltb (p ++ a ∷ u) (p ++ b ∷ v) ≡ true
unfolding bytes_ltb
bytes_ltb-differ [] a b u v less = ground (arith, less)
bytes_ltb-differ (c ∷ p) a b u v less = ground (arith, bytes_ltb-differ p a b u v less)

IsBefore-bytes_ltb : (s t : Bytes) → IsBefore s t → bytes_ltb s t ≡ true
IsBefore-bytes_ltb s t (inl (b, rest, e)) = ap (bytes_ltb s) e ∙ bytes_ltb-longer s b rest
IsBefore-bytes_ltb s t (inr (p, a, b, u, v, less, e, f)) =
    ap (λ x. bytes_ltb x t) e ∙ ap (bytes_ltb (p ++ a ∷ u)) f ∙ bytes_ltb-differ p a b u v less

module _ (tool : Bytes) (affinity : List Bytes) where
  -- A node of the registry has the tool's name, or a name above it, among its capabilities.
  pub record Serves (nodes : Map Bytes ConnectedNode) (n : ConnectedNode) (capability : Bytes)
      : Type 0 where
    pub id : Bytes
    pub held : get id nodes ≡ some n
    pub offered : In capability n.capabilities
    pub fits : IsBelow capability tool

  -- The node `n`, by `d`, is not to be taken rather than `b`, by `capability`: the longer capability
  -- comes first, then a preferred node, then the id that is first in order.
  pub record IsOutranked (n : ConnectedNode) (d : Bytes) (b : ConnectedNode) (capability : Bytes)
      : Type 0 where
    pub shorter : length d ≤ length capability
    pub less_preferred :
        length d ≡ length capability → IsPreferred affinity n → IsPreferred affinity b
    pub not_before :
        length d ≡ length capability
        → (IsPreferred affinity b → IsPreferred affinity n)
        → ¬ IsBefore n.node_id b.node_id

  pub data Choice (nodes : Map Bytes ConnectedNode) (found : Option (Bytes × ℕ)) : Type 0 where
    no_node :
        found ≡ none → ((n : ConnectedNode) (d : Bytes) → ¬ Serves nodes n d) → Choice nodes found
    chosen :
        (b : ConnectedNode) (capability : Bytes)
        → found ≡ some (b.node_id, b.sink)
        → Serves nodes b capability
        → ((n : ConnectedNode) (d : Bytes) → Serves nodes n d → IsOutranked n d b capability)
        → Choice nodes found

  Serves-Offer :
      (nodes : Map Bytes ConnectedNode) (n : ConnectedNode) (d : Bytes)
      → Serves nodes n d
      → Offer tool affinity nodes (candidate affinity n d)
  Serves-Offer nodes n d s = record {
    id = s.id;
    node = n;
    capability = d;
    held = s.held;
    offered = s.offered;
    fits = (covers_iff d tool).1 s.fits;
    rated = refl;
  }

  beats-IsOutranked :
      (n b : ConnectedNode) (d capability : Bytes)
      → beats (candidate affinity n d) (candidate affinity b capability) ≡ false
      → IsOutranked n d b capability
  unfolding beats
  beats-IsOutranked n b d capability h =
      let pn = affine_iff affinity n in
      let pb = affine_iff affinity b in
      record {
        shorter = ground (arith, h);
        less_preferred = λ same p.
            let there : affine affinity n ≡ true = pn.1 p in pb.0 (ground (arith, h, same, there));
        not_before = λ same down before.
            let first : bytes_ltb n.node_id b.node_id ≡ true =
              IsBefore-bytes_ltb n.node_id b.node_id before in
            elim (Bool-cases (affine affinity b)) [
              | inl there ↦
                  let also : affine affinity n ≡ true = pn.1 (down (pb.0 there)) in
                  absurd (ground (arith, h, same, there, also, first))
              | inr away ↦ absurd (ground (arith, h, same, away, first))
            ];
      }

  -- A search finds the id and the sink of a node that serves the tool, and no other node that does
  -- is to be taken rather than it: none serves by a longer capability, among those of equal length
  -- none is preferred where it is not, and among these none has an id before its own. It finds
  -- nothing exactly where no node serves the tool.
  pub find_for_tool-Choice :
      (r : NodeRegistry)
      → HasDistinctKeys r.nodes
      → Choice r.nodes (find_for_tool_with_affinity r tool affinity)
  unfolding find_for_tool_with_affinity
  find_for_tool-Choice r d =
      from (scan_nodes tool affinity r.nodes none) (scan_nodes-Outcome tool affinity r.nodes d)
    where
      from :
          (best : Option Candidate)
          → Outcome tool affinity r.nodes best
          → Choice r.nodes (answer best)
      from best (nobody e no_offer) =
          no_node (ap answer e)
            (λ n cap_ s. no_offer (candidate affinity n cap_) (Serves-Offer r.nodes n cap_ s))
      from best (winner b e o top) =
          chosen o.node o.capability (ap answer e ∙ ap (λ c. some (c.node, c.sink)) o.rated)
            (record {
              id = o.id;
              held = o.held;
              offered = o.offered;
              fits = (covers_iff o.capability tool).0 o.fits;
            })
            (λ n cap_ s. beats-IsOutranked n o.node cap_ o.capability (
              ap (λ c. beats (candidate affinity n cap_) c) (sym o.rated)
              ∙ top (candidate affinity n cap_) (Serves-Offer r.nodes n cap_ s)))
