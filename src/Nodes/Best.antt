-- ===== src/Nodes/Best.antt =====
-- crates/gateway/src/nodes/registry.rs, `find_for_tool_with_affinity`: the search as a choice among
-- the offers of all nodes.
use serial_agent.Prelude.{
  ◌≡◌, refl, sym, subst, ap, ◌∙◌, true, false, inl, inr, Option, none, some, List, [], ◌∷◌, ◌++◌,
  if◌then◌else◌, Bytes, bytes_eq, In, In-append, In-append_left, In-append_right, Map, get,
  HasDistinctKeys, In-get, get_of_In, Bool-cases,
}
use serial_agent.Nodes.{ConnectedNode, covers}
use serial_agent.Nodes.Routing.{Candidate, beats, challenge, candidate, scan_caps, scan_nodes}
use serial_agent.Nodes.Ranking.{pick, pick-IsTop}

module _ (tool : Bytes) (affinity : List Bytes) where
  from_caps : ConnectedNode → List Bytes → List Candidate
  from_caps n [] = []
  from_caps n (capability ∷ caps) =
      let rest = from_caps n caps in
      if covers capability tool then candidate affinity n capability ∷ rest else rest

  from_nodes : Map Bytes ConnectedNode → List Candidate
  from_nodes [] = []
  from_nodes ((id, n) ∷ nodes) = from_caps n n.capabilities ++ from_nodes nodes

  pick-append :
      (cs ds : List Candidate) (best : Option Candidate)
      → pick (cs ++ ds) best ≡ pick ds (pick cs best)
  unfolding pick
  pick-append [] ds best = refl
  pick-append (c ∷ cs) ds best = pick-append cs ds (challenge c best)

  scan_caps-pick :
      (n : ConnectedNode) (caps : List Bytes) (best : Option Candidate)
      → scan_caps tool affinity n caps best ≡ pick (from_caps n caps) best
  unfolding scan_caps from_caps pick
  scan_caps-pick n [] best = refl
  scan_caps-pick n (capability ∷ caps) best = elim (Bool-cases (covers capability tool)) [
    | inl h ↦ rw h (scan_caps-pick n caps (challenge (candidate affinity n capability) best))
    | inr h ↦ rw h (scan_caps-pick n caps best)
  ]

  scan_nodes-pick :
      (nodes : Map Bytes ConnectedNode) (best : Option Candidate)
      → scan_nodes tool affinity nodes best ≡ pick (from_nodes nodes) best
  unfolding scan_nodes from_nodes
  scan_nodes-pick [] best = unfold pick in refl
  scan_nodes-pick ((id, n) ∷ nodes) best =
      scan_nodes-pick nodes (scan_caps tool affinity n n.capabilities best)
      ∙ ap (pick (from_nodes nodes)) (scan_caps-pick n n.capabilities best)
      ∙ sym (pick-append (from_caps n n.capabilities) (from_nodes nodes) best)

  -- A node of the registry that has a capability for the tool, as the search rates it.
  pub record Offer (nodes : Map Bytes ConnectedNode) (c : Candidate) : Type 0 where
    pub id : Bytes
    pub node : ConnectedNode
    pub capability : Bytes
    pub held : get id nodes ≡ some node
    pub offered : In capability node.capabilities
    pub fits : covers capability tool ≡ true
    pub rated : c ≡ candidate affinity node capability

  from_caps-In :
      (c : Candidate) (n : ConnectedNode) (caps : List Bytes)
      → In c (from_caps n caps)
      → (capability : Bytes) × In capability caps
        × (covers capability tool ≡ true)
        × (c ≡ candidate affinity n capability)
  unfolding from_caps
  from_caps-In c n [] h = elim h [ ]
  from_caps-In c n (capability ∷ caps) h = elim (Bool-cases (covers capability tool)) [
    | inl fits ↦
        let h' : In c (candidate affinity n capability ∷ from_caps n caps) = rw fits at h in
        elim h' [
          | inl e ↦ (capability, inl refl, fits, e)
          | inr m ↦ let (d, m', f, e) = from_caps-In c n caps m in (d, inr m', f, e)
        ]
    | inr misses ↦ let (d, m', f, e) = from_caps-In c n caps (rw misses at h) in (d, inr m', f, e)
  ]

  In-from_caps :
      (n : ConnectedNode) (capability : Bytes) (caps : List Bytes)
      → In capability caps
      → covers capability tool ≡ true
      → In (candidate affinity n capability) (from_caps n caps)
  unfolding from_caps
  In-from_caps n capability [] h fits = elim h [ ]
  In-from_caps n capability (d ∷ caps) (inl e) fits =
      let fits' : covers d tool ≡ true = rw e at fits in
      rw fits' (inl (ap (candidate affinity n) e))
  In-from_caps n capability (d ∷ caps) (inr h) fits = elim (Bool-cases (covers d tool)) [
    | inl f ↦ rw f (inr (In-from_caps n capability caps h fits))
    | inr f ↦ rw f (In-from_caps n capability caps h fits)
  ]

  In-from_nodes :
      (id : Bytes) (n : ConnectedNode) (capability : Bytes) (nodes : Map Bytes ConnectedNode)
      → In (id, n) nodes
      → In capability n.capabilities
      → covers capability tool ≡ true
      → In (candidate affinity n capability) (from_nodes nodes)
  unfolding from_nodes
  In-from_nodes id n capability [] h o f = elim h [ ]
  In-from_nodes id n capability ((j, m) ∷ nodes) (inl e) o f =
      let same : n ≡ m = ap (λ p. p.1) e in
      In-append_left _ (from_caps m m.capabilities) (from_nodes nodes) (
        subst (λ k. In (candidate affinity n capability) (from_caps k k.capabilities)) same
          (In-from_caps n capability n.capabilities o f))
  In-from_nodes id n capability ((j, m) ∷ nodes) (inr h) o f =
      In-append_right _ (from_caps m m.capabilities) (from_nodes nodes)
        (In-from_nodes id n capability nodes h o f)

  from_nodes-In :
      (c : Candidate) (nodes : Map Bytes ConnectedNode)
      → In c (from_nodes nodes)
      → (id : Bytes) × (n : ConnectedNode) × (capability : Bytes) × In (id, n) nodes
        × In capability n.capabilities
        × (covers capability tool ≡ true)
        × (c ≡ candidate affinity n capability)
  unfolding from_nodes
  from_nodes-In c [] h = elim h [ ]
  from_nodes-In c ((j, m) ∷ nodes) h =
      elim (In-append c (from_caps m m.capabilities) (from_nodes nodes) h) [
        | inl here ↦
            let (k, o, f, e) = from_caps-In c m m.capabilities here in (j, m, k, inl refl, o, f, e)
        | inr there ↦
            let (id, n, k, i, o, f, e) = from_nodes-In c nodes there in (id, n, k, inr i, o, f, e)
      ]

  In-Offer :
      (c : Candidate) (nodes : Map Bytes ConnectedNode)
      → HasDistinctKeys nodes
      → In c (from_nodes nodes)
      → Offer nodes c
  In-Offer c nodes d h =
      let (id, n, k, i, o, f, e) = from_nodes-In c nodes h in
      record {
        id = id;
        node = n;
        capability = k;
        held = get_of_In id n nodes d i;
        offered = o;
        fits = f;
        rated = e;
      }

  listed :
      (c : Candidate) (nodes : Map Bytes ConnectedNode) → Offer nodes c → In c (from_nodes nodes)
  listed c nodes o = rw o.rated (
      In-from_nodes o.id o.node o.capability nodes (In-get o.id o.node nodes o.held) o.offered
        o.fits)

  -- The outcome of a search: there is no offer, or the best of all offers.
  pub data Outcome (nodes : Map Bytes ConnectedNode) (best : Option Candidate) : Type 0 where
    nobody : best ≡ none → ((c : Candidate) → ¬ Offer nodes c) → Outcome nodes best
    winner :
        (b : Candidate)
        → best ≡ some b
        → Offer nodes b
        → ((c : Candidate) → Offer nodes c → beats c b ≡ false)
        → Outcome nodes best

  pub scan_nodes-Outcome :
      (nodes : Map Bytes ConnectedNode)
      → HasDistinctKeys nodes
      → Outcome nodes (scan_nodes tool affinity nodes none)
  scan_nodes-Outcome nodes d = go (from_nodes nodes) refl
    where
      go :
          (cs : List Candidate)
          → from_nodes nodes ≡ cs
          → Outcome nodes (scan_nodes tool affinity nodes none)
      go [] e =
          nobody (scan_nodes-pick nodes none ∙ (unfold pick in ap (λ cs. pick cs none) e))
            (λ c o. elim (subst (In c) e (listed c nodes o)) [ ])
      go (b ∷ cs) e =
          let (r, found, top) = pick-IsTop cs b in
          winner r
            (scan_nodes-pick nodes none
              ∙ ap (λ cs. pick cs none) e
              ∙ (unfold pick challenge in found))
            (In-Offer r nodes d (subst (In r) (sym e) top.member))
            (λ c o. top.unbeaten c (subst (In c) e (listed c nodes o)))
