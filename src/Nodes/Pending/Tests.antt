-- ===== src/Nodes/Pending/Tests.antt =====
-- The requests in flight of crates/gateway/src/nodes/router.rs on small examples.
use serial_agent.Prelude.{
  ℕ, ◌+◌, ◌≡◌, refl, true, false, none, some, List, [], ◌∷◌, ◌++◌, Bytes, bytes, bytes_eq, length,
  get, insert, if◌then◌else◌,
}
use serial_agent.Nodes.Pending.{PendingRequest, PendingState, empty, insert_request, node_count}
use serial_agent.Nodes.Pending.Counts.{IsCounted, in_flight, request-IsCounted}
use serial_agent.Nodes.Pending.Dispatch.{
  Limits, default_limits, check_limits, begin_dispatch, fail_pending_for_node, refusal,
  not_connected, enter_request,
}
use serial_agent.Nodes.Pending.Limits.{begin_dispatch_ended}
use serial_agent.Nodes.Pending.Race.{race, all_check, all_enter, race_unbounded}
use serial_agent.Nodes.Pending.Disconnect.{owned_by, fail_pending_for_node_lem}

empty-IsCounted : IsCounted empty
unfolding empty in_flight get
empty-IsCounted = record { distinct = tt; counted = λ node. refl; positive = λ node. λ h. cc }

abbrev req : PendingRequest
req = record { node_id = bytes "n"; tx = 1 }

abbrev one : PendingState
one = insert_request (bytes "a") req empty

empty_fresh : (id : Bytes) → get id empty.requests ≡ none
unfolding empty get
empty_fresh id = refl

fail_pending_for_node_lem_example :
    let (t, failed, told) = fail_pending_for_node (bytes "n") one in
    ((j : Bytes)
      → get j t.requests
        ≡ (if owned_by (bytes "n") (get j one.requests) then none else get j one.requests))
    × IsCounted t
    × (node_count (bytes "n") t ≡ 0)
    × (failed ≡ node_count (bytes "n") one)
fail_pending_for_node_lem_example =
    fail_pending_for_node_lem (bytes "n") one
      (request-IsCounted (bytes "a") (bytes "b") req empty empty-IsCounted
        (empty_fresh (bytes "a"))).0

empty_size : (length empty.requests ≡ 0) × (node_count (bytes "n") empty ≡ 0)
unfolding empty node_count get
empty_size = (refl, refl)

no_sink :
    (begin_dispatch default_limits (bytes "a") (bytes "n") 1 none true empty).1
    ≡ some (refusal (bytes "n") (not_connected (bytes "n")))
unfolding begin_dispatch check_limits empty node_count get enter_request
no_sink = refl

begin_dispatch_ended_example :
    ((refusal (bytes "n") (not_connected (bytes "n"))).success ≡ false)
    × ((begin_dispatch default_limits (bytes "a") (bytes "n") 1 none true empty).0.requests
        ≡ empty.requests)
    × (node_count
          (bytes "n")
          (begin_dispatch default_limits (bytes "a") (bytes "n") 1 none true empty).0
        ≡ node_count (bytes "n") empty)
begin_dispatch_ended_example =
    begin_dispatch_ended default_limits (bytes "a") (bytes "n") (bytes "n") 1 none true empty
      (refusal (bytes "n") (not_connected (bytes "n"))) (empty_fresh (bytes "a")) no_sink

abbrev tight : Limits
tight = record { max_pending_per_node = 1; max_pending_global = 1 }

abbrev racing : List (Bytes × ℕ)
racing = (bytes "a", 1) ∷ (bytes "b", 2) ∷ []

tight_room : check_limits tight (bytes "n") empty ≡ none
unfolding check_limits empty node_count get
tight_room = refl

two_fresh :
    (get (bytes "a") empty.requests ≡ none)
    × ((get (bytes "b") (insert (bytes "a") req empty.requests) ≡ none) × Unit {0})
unfolding empty get insert
two_fresh = (refl, (refl, tt))

-- Two calls pass limits of one.
race_unbounded_example :
    let t =
      (race tight
        (bytes "n")
        (all_check racing ++ all_enter racing)
        (record { state = empty; passed = [] })).state in
    (length t.requests ≡ length empty.requests + length racing)
    × (node_count (bytes "n") t ≡ node_count (bytes "n") empty + length racing)
race_unbounded_example = race_unbounded tight (bytes "n") racing empty tight_room two_fresh
