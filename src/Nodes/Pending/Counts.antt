-- ===== src/Nodes/Pending/Counts.antt =====
-- crates/gateway/src/nodes/router.rs, `PendingState`: the counters per node next to the requests.
use serial_agent.Prelude.{
  ℕ, suc, ◌+◌, ◌-◌, ◌≡◌, ◌≢◌, refl, inl, inr, Option, none, some, [], ◌∷◌, arith, if◌then◌else◌,
  Bytes, bytes_beq, bytes_beq_iff, bytes_eq, Map, get, insert, remove, unwrap_or, get-insert,
  get-remove, HasDistinctKeys, insert-HasDistinctKeys, remove-HasDistinctKeys, Option-cases,
}
use serial_agent.Nodes.Pending.{
  PendingRequest, PendingState, insert_request, lower, take_request, remove_request,
}

-- How many requests a node has in flight, counted one by one.
unfoldable pub in_flight : Bytes → Map Bytes PendingRequest → ℕ
in_flight node [] = 0
in_flight node ((id, req) ∷ m) =
    let rest = in_flight node m in if bytes_beq req.node_id node then suc rest else rest

abbrev pub of_node : Bytes → Option PendingRequest → ℕ
of_node node none = 0
of_node node (some req) = if bytes_beq req.node_id node then 1 else 0

-- Counts are right, and a count of 0 is not kept.
pub record IsCounted (s : PendingState) : Type 0 where
  pub distinct : HasDistinctKeys s.requests
  pub counted : (node : Bytes) → unwrap_or (get node s.node_counts) 0 ≡ in_flight node s.requests
  pub positive : (node : Bytes) → get node s.node_counts ≢ some 0

in_flight-insert :
    (node id : Bytes) (req : PendingRequest) (m : Map Bytes PendingRequest)
    → get id m ≡ none
    → in_flight node (insert id req m) ≡ in_flight node m + of_node node (some req)
unfolding in_flight insert get
in_flight-insert node id req [] h = ground arith
in_flight-insert node id req ((j, r) ∷ m) h = ground (arith, in_flight-insert node id req m)

in_flight-remove_absent :
    (node id : Bytes) (m : Map Bytes PendingRequest)
    → get id m ≡ none
    → in_flight node (remove id m) ≡ in_flight node m
unfolding in_flight remove get
in_flight-remove_absent node id [] h = refl
in_flight-remove_absent node id ((j, r) ∷ m) h = ground (arith, in_flight-remove_absent node id m)

pub in_flight-remove :
    (node id : Bytes) (m : Map Bytes PendingRequest)
    → HasDistinctKeys m
    → in_flight node (remove id m) + of_node node (get id m) ≡ in_flight node m
unfolding in_flight remove get
in_flight-remove node id [] d = refl
in_flight-remove node id ((j, r) ∷ m) d =
    ground
      (arith, bytes_beq_iff j id, in_flight-remove_absent node id m, in_flight-remove node id m d.1)

insert_request-IsCounted :
    (id : Bytes) (req : PendingRequest) (s : PendingState)
    → get id s.requests ≡ none
    → IsCounted s
    → IsCounted (insert_request id req s)
unfolding insert_request
insert_request-IsCounted id req s fresh v = record {
  distinct = insert-HasDistinctKeys id req s.requests v.distinct;
  counted = λ node. ground (
    arith,
    get-insert req.node_id node (unwrap_or (get req.node_id s.node_counts) 0 + 1) s.node_counts,
    in_flight-insert node id req s.requests fresh,
    bytes_beq_iff req.node_id node,
    v.counted node,
  );
  positive = λ node. ground (
    arith,
    get-insert req.node_id node (unwrap_or (get req.node_id s.node_counts) 0 + 1) s.node_counts,
    v.positive node,
  );
}

pub lower-get :
    (k node : Bytes) (counts : Map Bytes ℕ)
    → unwrap_or (get node (lower k (get k counts) counts)) 0
      ≡ unwrap_or (get node counts) 0 - (if bytes_beq k node then 1 else 0)
unfolding lower
lower-get k node counts = elim (Option-cases (get k counts)) [
  | inl e ↦ rw (e, lower) (ground (arith, bytes_beq_iff k node))
  | inr (c, e) ↦
      rw (e, lower)
        (ground
          (arith, bytes_beq_iff k node, get-remove k node counts, get-insert k node (c - 1) counts))
]

lower-positive :
    (k node : Bytes) (o : Option ℕ) (counts : Map Bytes ℕ)
    → get node counts ≢ some 0
    → get node (lower k o counts) ≢ some 0
unfolding lower
lower-positive k node none counts h = h
lower-positive k node (some c) counts h =
    ground (arith, get-remove k node counts, get-insert k node (c - 1) counts)

take_request-IsCounted :
    (id : Bytes) (o : Option PendingRequest) (s : PendingState)
    → get id s.requests ≡ o
    → IsCounted s
    → IsCounted (take_request id o s).0
unfolding take_request
take_request-IsCounted id none s e v = v
take_request-IsCounted id (some req) s e v = record {
  distinct = remove-HasDistinctKeys id s.requests v.distinct;
  counted = λ node. ground (
    arith,
    lower-get req.node_id node s.node_counts,
    in_flight-remove node id s.requests v.distinct,
    v.counted node,
  );
  positive = λ node.
      lower-positive req.node_id node (get req.node_id s.node_counts) s.node_counts
        (v.positive node);
}

pub remove_request-IsCounted :
    (id : Bytes) (s : PendingState) → IsCounted s → IsCounted (remove_request id s).0
unfolding remove_request
remove_request-IsCounted id s v = take_request-IsCounted id (get id s.requests) s refl v

-- Inserting a request with a fresh id keeps the counters right, and so does removing any request,
-- known or not.
pub request-IsCounted :
    (id j : Bytes) (req : PendingRequest) (s : PendingState)
    → IsCounted s
    → get id s.requests ≡ none
    → IsCounted (insert_request id req s) × IsCounted (remove_request j s).0
request-IsCounted id j req s v fresh =
    (insert_request-IsCounted id req s fresh v, remove_request-IsCounted j s v)
