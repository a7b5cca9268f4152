-- ===== src/Nodes/Order.antt =====
-- crates/gateway/src/nodes/registry.rs, `find_for_tool_with_affinity`: two registries that hold the
-- same nodes in different orders.
use serial_agent.Prelude.{
  ◌≡◌, sym, ap, ◌∙◌, false, none, some, List, arith, Bytes, bytes_eq, Map, get, HasDistinctKeys,
}
use serial_agent.Nodes.{ConnectedNode, NodeRegistry, IsKeyed}
use serial_agent.Nodes.Routing.{Candidate, beats, scan_nodes, answer, find_for_tool_with_affinity}
use serial_agent.Nodes.Ranking.{beats_total}
use serial_agent.Nodes.Best.{Offer, Outcome, nobody, winner, scan_nodes-Outcome}

module _ (tool : Bytes) (affinity : List Bytes) where
  -- Offers depend on what is under each id alone.
  moved :
      {c : Candidate} (ms ns : Map Bytes ConnectedNode)
      → ((id : Bytes) → get id ms ≡ get id ns)
      → Offer tool affinity ms c
      → Offer tool affinity ns c
  moved ms ns same o = record {
    id = o.id;
    node = o.node;
    capability = o.capability;
    held = sym (same o.id) ∙ o.held;
    offered = o.offered;
    fits = o.fits;
    rated = o.rated;
  }

  sink_held :
      {c : Candidate} (nodes : Map Bytes ConnectedNode)
      → IsKeyed nodes
      → Offer tool affinity nodes c
      → (n : ConnectedNode) × (get c.node nodes ≡ some n) × (c.sink ≡ n.sink)
  sink_held {c} nodes keyed o =
      let here : c.node ≡ o.id = ap (λ d. d.node) o.rated ∙ keyed o.id o.node o.held in
      (o.node, ap (λ k. get k nodes) here ∙ o.held, ap (λ d. d.sink) o.rated)

  same_answer :
      {b c : Candidate} (ms ns : Map Bytes ConnectedNode)
      → ((id : Bytes) → get id ms ≡ get id ns)
      → IsKeyed ms
      → IsKeyed ns
      → Offer tool affinity ms b
      → Offer tool affinity ns c
      → beats b c ≡ false
      → beats c b ≡ false
      → answer (some b) ≡ answer (some c)
  same_answer {b} {c} ms ns same km kn ob oc h k =
      let (_, _, one) = beats_total b c h k in
      let (m, hm, sm) = sink_held ms km ob in
      let (n, hn, sn) = sink_held ns kn oc in
      let hm' : get c.node ns ≡ some m = sym (same c.node) ∙ (rw one at hm) in ground arith

-- Where each node stands once, under its own id, the answer for a tool depends on which nodes are
-- registered and not on the order in which the map gives them.
pub find_for_tool-order :
    (r q : NodeRegistry) (tool : Bytes) (affinity : List Bytes)
    → HasDistinctKeys r.nodes
    → HasDistinctKeys q.nodes
    → IsKeyed r.nodes
    → IsKeyed q.nodes
    → ((id : Bytes) → get id r.nodes ≡ get id q.nodes)
    → find_for_tool_with_affinity r tool affinity ≡ find_for_tool_with_affinity q tool affinity
unfolding find_for_tool_with_affinity
find_for_tool-order r q tool affinity dr dq kr kq same =
    go (scan_nodes-Outcome tool affinity r.nodes dr) (scan_nodes-Outcome tool affinity q.nodes dq)
  where
    go :
        Outcome tool affinity r.nodes (scan_nodes tool affinity r.nodes none)
        → Outcome tool affinity q.nodes (scan_nodes tool affinity q.nodes none)
        → answer (scan_nodes tool affinity r.nodes none)
          ≡ answer (scan_nodes tool affinity q.nodes none)
    go (nobody e none_r) (nobody f none_q) = rw (e, f)
    go (nobody e none_r) (winner c f oc top) =
        absurd (none_r c (moved tool affinity q.nodes r.nodes (λ id. sym (same id)) oc))
    go (winner b e ob top) (nobody f none_q) =
        absurd (none_q b (moved tool affinity r.nodes q.nodes same ob))
    go (winner b e ob top_b) (winner c f oc top_c) =
        rw (e, f)
          (same_answer tool affinity r.nodes q.nodes same kr kq ob oc
            (top_c b (moved tool affinity r.nodes q.nodes same ob))
            (top_b c (moved tool affinity q.nodes r.nodes (λ id. sym (same id)) oc)))
