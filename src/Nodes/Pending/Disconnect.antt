-- ===== src/Nodes/Pending/Disconnect.antt =====
-- crates/gateway/src/nodes/router.rs, `fail_pending_for_node`.
use serial_agent.Prelude.{
  ◌≡◌, refl, sym, ap, ◌∙◌, Bool, false, Option, none, some, List, [], ◌∷◌, arith, if◌then◌else◌,
  Bytes, bytes_beq, bytes_beq_iff, bytes_eq, length, any, Map, get, get-remove, HasDistinctKeys,
  Bool-cases, Option-cases, inl, inr,
}
use serial_agent.Nodes.Pending.{
  PendingRequest, PendingState, remove_request, take_request, node_count,
}
use serial_agent.Nodes.Pending.Counts.{IsCounted, in_flight, remove_request-IsCounted}
use serial_agent.Nodes.Pending.Dispatch.{ids_of, fail_ids, fail_pending_for_node}

length-ids_of :
    (node : Bytes) (m : Map Bytes PendingRequest) → length (ids_of node m) ≡ in_flight node m
unfolding in_flight
length-ids_of node [] = refl
length-ids_of node ((id, req) ∷ m) = ground (arith, length-ids_of node m)

abbrev pub owned_by : Bytes → Option PendingRequest → Bool
owned_by node none = false
owned_by node (some req) = bytes_beq req.node_id node

any-ids_of :
    (node j : Bytes) (m : Map Bytes PendingRequest)
    → HasDistinctKeys m
    → any (λ i. bytes_beq i j) (ids_of node m) ≡ owned_by node (get j m)
unfolding get
any-ids_of node j [] d = refl
any-ids_of node j ((id, req) ∷ m) d = ground (arith, bytes_beq_iff id j, any-ids_of node j m d.1)

requests-remove_request :
    (id : Bytes) (s : PendingState) (j : Bytes)
    → get j (remove_request id s).0.requests ≡ (if bytes_beq id j then none else get j s.requests)
unfolding remove_request
requests-remove_request id s j = elim (Option-cases (get id s.requests)) [
  | inl e ↦ rw (e, remove_request) (ground (arith, bytes_beq_iff id j))
  | inr (req, e) ↦ rw (e, remove_request) (unfold take_request in get-remove id j s.requests)
]

fail_ids-get :
    (ids : List Bytes) (s : PendingState) (j : Bytes)
    → get j (fail_ids ids s).0.requests
      ≡ (if any (λ i. bytes_beq i j) ids then none else get j s.requests)
unfolding fail_ids
fail_ids-get [] s j = refl
fail_ids-get (id ∷ ids) s j =
    ground (arith, fail_ids-get ids (remove_request id s).0 j, requests-remove_request id s j)

fail_ids-IsCounted :
    (ids : List Bytes) (s : PendingState) → IsCounted s → IsCounted (fail_ids ids s).0
unfolding fail_ids
fail_ids-IsCounted [] s v = v
fail_ids-IsCounted (id ∷ ids) s v =
    fail_ids-IsCounted ids (remove_request id s).0 (remove_request-IsCounted id s v)

in_flight_zero :
    (node : Bytes) (m : Map Bytes PendingRequest)
    → HasDistinctKeys m
    → ((j : Bytes) → owned_by node (get j m) ≡ false)
    → in_flight node m ≡ 0
unfolding in_flight get
in_flight_zero node [] d h = refl
in_flight_zero node ((id, req) ∷ m) d h =
    ground (arith, bytes_beq_iff id id, h id, in_flight_zero node m d.1 others)
  where
    others : (j : Bytes) → owned_by node (get j m) ≡ false
    others j = elim (Bool-cases (bytes_beq id j)) [
      | inl same ↦ rw (← (bytes_beq_iff id j).0 same) (rw d.0)
      | inr other ↦ rw other at (h j)
    ]

-- When a node disconnects, the requests of the node are gone, those of the others stay as they
-- were, the counters are right and at 0 for the node, and the number returned is how many requests
-- it had.
pub fail_pending_for_node_lem :
    (node : Bytes) (s : PendingState)
    → IsCounted s
    → let (t, failed, told) = fail_pending_for_node node s in
      ((j : Bytes)
        → get j t.requests ≡ (if owned_by node (get j s.requests) then none else get j s.requests))
      × IsCounted t
      × (node_count node t ≡ 0)
      × (failed ≡ node_count node s)
unfolding fail_pending_for_node
fail_pending_for_node_lem node s v = (
  left,
  counted,
  unfold node_count in
      counted.counted node
      ∙ in_flight_zero node _ counted.distinct (λ j. rw (left j) (gone (get j s.requests))),
  length-ids_of node s.requests ∙ sym (unfold node_count in v.counted node),
)
  where
    left :
        (j : Bytes)
        → get j (fail_ids (ids_of node s.requests) s).0.requests
          ≡ (if owned_by node (get j s.requests) then none else get j s.requests)
    left j =
        fail_ids-get (ids_of node s.requests) s j
        ∙ ap (λ b. if b then none else get j s.requests) (any-ids_of node j s.requests v.distinct)

    counted : IsCounted (fail_ids (ids_of node s.requests) s).0
    counted = fail_ids-IsCounted (ids_of node s.requests) s v

    gone : (o : Option PendingRequest) → owned_by node (if owned_by node o then none else o) ≡ false
    gone none = refl
    gone (some req) = ground arith
