-- ===== src/Nodes/Pending/Limits.antt =====
-- crates/gateway/src/nodes/router.rs, `dispatch_to_node` up to its wait, with no other call in
-- between.
use serial_agent.Prelude.{
  ℕ, ◌+◌, ◌≤◌, ◌<◌, ◌≡◌, refl, ap, Bool, true, false, Option, none, some, arith, Bytes,
  bytes_beq_iff, bytes_eq, length, Map, get, insert, unwrap_or, get-insert, length-insert_fresh,
  remove-insert_fresh,
}
use serial_agent.Nodes.Pending.{
  PendingRequest, PendingState, insert_request, remove_request, take_request, lower, node_count,
}
use serial_agent.Nodes.Pending.Counts.{lower-get}
use serial_agent.Nodes.Pending.Dispatch.{
  RouteError, ToolRouteResult, Limits, check_limits, begin_from, begin_dispatch,
}

abbrev entered : Bytes → Bytes → ℕ → PendingState → PendingState
entered id node tx s = insert_request id (record { node_id = node; tx = tx }) s

found :
    (id : Bytes) (req : PendingRequest) (s : PendingState)
    → remove_request id (insert_request id req s)
      ≡ take_request id (some req) (insert_request id req s)
unfolding remove_request insert_request
found id req s = rw (get-insert id id req s.requests) (rw ((bytes_beq_iff id id).1 refl))

-- Entering a fresh request and taking it back leaves the requests and every count as they were.
taken_back :
    (id node j : Bytes) (tx : ℕ) (s : PendingState)
    → get id s.requests ≡ none
    → ((remove_request id (entered id node tx s)).0.requests ≡ s.requests)
      × (node_count j (remove_request id (entered id node tx s)).0 ≡ node_count j s)
unfolding node_count
taken_back id node j tx s fresh = rw (found id (record { node_id = node; tx = tx }) s) (
    unfold take_request insert_request in
    (remove-insert_fresh id (record { node_id = node; tx = tx }) s.requests fresh, counts_back))
  where
    counts' : Map Bytes ℕ
    counts' = insert node (unwrap_or (get node s.node_counts) 0 + 1) s.node_counts

    counts_back :
        unwrap_or (get j (lower node (get node counts') counts')) 0
        ≡ unwrap_or (get j s.node_counts) 0
    counts_back = ground (
      arith,
      bytes_beq_iff node j,
      lower-get node j counts',
      get-insert node j (unwrap_or (get node s.node_counts) 0 + 1) s.node_counts,
    )

-- A dispatch that ends before its wait, refused by a limit or with the node gone or deaf, reports a
-- failure and leaves the requests and every node's count as they were.
pub begin_dispatch_ended :
    (l : Limits) (id node j : Bytes) (tx : ℕ) (sink : Option ℕ) (sent : Bool) (s : PendingState)
    (r : ToolRouteResult)
    → get id s.requests ≡ none
    → (begin_dispatch l id node tx sink sent s).1 ≡ some r
    → (r.success ≡ false)
      × ((begin_dispatch l id node tx sink sent s).0.requests ≡ s.requests)
      × (node_count j (begin_dispatch l id node tx sink sent s).0 ≡ node_count j s)
unfolding begin_dispatch
begin_dispatch_ended l id node j tx sink sent s r fresh = go (check_limits l node s) sink sent
  where
    go :
        (o : Option RouteError) (sink : Option ℕ) (sent : Bool)
        → (begin_from o id node tx sink sent s).1 ≡ some r
        → (r.success ≡ false)
          × ((begin_from o id node tx sink sent s).0.requests ≡ s.requests)
          × (node_count j (begin_from o id node tx sink sent s).0 ≡ node_count j s)
    go (some e) sink sent h = (ground arith, refl, refl)
    go none none sent h = let (q, c) = taken_back id node j tx s fresh in (ground arith, q, c)
    go none (some k) false h = let (q, c) = taken_back id node j tx s fresh in (ground arith, q, c)
    go none (some k) true h = cc

room_below :
    (l : Limits) (id node : Bytes) (tx : ℕ) (s : PendingState)
    → 0 < l.max_pending_global
    → 0 < l.max_pending_per_node
    → get id s.requests ≡ none
    → check_limits l node s ≡ none
    → (length (entered id node tx s).requests ≤ l.max_pending_global)
      × (node_count node (entered id node tx s) ≤ l.max_pending_per_node)
unfolding check_limits insert_request node_count
room_below l id node tx s pg pn fresh e =
    let req : PendingRequest = record { node_id = node; tx = tx } in
    let grown = length-insert_fresh id req s.requests fresh in
    let raised = get-insert node node (unwrap_or (get node s.node_counts) 0 + 1) s.node_counts in
    (ground (arith, grown), ground (arith, raised, bytes_beq_iff node node))

-- With no other call in between, a dispatch takes neither the requests past the global limit nor
-- those of its node past the limit per node.
pub begin_dispatch_bounded :
    (l : Limits) (id node : Bytes) (tx : ℕ) (sink : Option ℕ) (sent : Bool) (s : PendingState)
    → 0 < l.max_pending_global
    → 0 < l.max_pending_per_node
    → get id s.requests ≡ none
    → length s.requests ≤ l.max_pending_global
    → node_count node s ≤ l.max_pending_per_node
    → let t = (begin_dispatch l id node tx sink sent s).0 in
      (length t.requests ≤ l.max_pending_global) × (node_count node t ≤ l.max_pending_per_node)
unfolding begin_dispatch
begin_dispatch_bounded l id node tx sink sent s pg pn fresh hg hn =
    go (check_limits l node s) sink sent refl
  where
    go :
        (o : Option RouteError) (sink : Option ℕ) (sent : Bool)
        → check_limits l node s ≡ o
        → let t = (begin_from o id node tx sink sent s).0 in
          (length t.requests ≤ l.max_pending_global) × (node_count node t ≤ l.max_pending_per_node)
    go (some e) sink sent h = (hg, hn)
    go none none sent h =
        let (q, c) = taken_back id node node tx s fresh in
        (omega (arith, ap length q), omega (arith, c))
    go none (some k) false h =
        let (q, c) = taken_back id node node tx s fresh in
        (omega (arith, ap length q), omega (arith, c))
    go none (some k) true h = room_below l id node tx s pg pn fresh h
