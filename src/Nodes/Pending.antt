-- ===== src/Nodes/Pending.antt =====
-- `PendingState` and the parts of `ToolRouter` in crates/gateway/src/nodes/router.rs that use it:
-- the tool requests in flight, and how many of them each node has.
pub mod Tests
pub mod Counts
pub mod Dispatch
pub mod Limits
pub mod Disconnect
pub mod Race
use serial_agent.Prelude.{
  ℕ, suc, ◌+◌, ◌-◌, ◌≡◌, Bool, true, false, ◌&&◌, Option, none, some, List, [], ◌∷◌, ltb, leb, eqb,
  if◌then◌else◌, Bytes, bytes_beq, bytes_eq, bytes, length, Map, get, insert, remove, adjust,
  unwrap_or,
}

-- The sender of a one-shot channel is the channel's number.
pub record PendingRequest : Type 0 where
  pub node_id : Bytes
  pub tx : ℕ

pub record PendingState : Type 0 where
  pub requests : Map Bytes PendingRequest
  pub node_counts : Map Bytes ℕ

unfoldable pub empty : PendingState
empty = record { requests = []; node_counts = [] }

-- `PendingState::insert`: `*entry(node_id).or_insert(0) += 1`.
unfoldable pub insert_request : Bytes → PendingRequest → PendingState → PendingState
insert_request id req s = record {
  requests = insert id req s.requests;
  node_counts = insert req.node_id (unwrap_or (get req.node_id s.node_counts) 0 + 1) s.node_counts;
}

-- The count of a node goes down, and its entry goes where nothing is left. A count of 0 is never
-- kept, so the truncated difference does not hide an underflow: see `Counts`.
unfoldable pub lower : Bytes → Option ℕ → Map Bytes ℕ → Map Bytes ℕ
lower node none counts = counts
lower node (some count) counts =
    if eqb (count - 1) 0 then remove node counts else insert node (count - 1) counts

unfoldable pub take_request :
    Bytes → Option PendingRequest → PendingState → PendingState × Option PendingRequest
unfolding lower
take_request id none s = (s, none)
take_request id (some req) s = (
  record {
    requests = remove id s.requests;
    node_counts = lower req.node_id (get req.node_id s.node_counts) s.node_counts;
  },
  some req,
)

-- `PendingState::remove`.
unfoldable pub remove_request : Bytes → PendingState → PendingState × Option PendingRequest
unfolding take_request
remove_request id s = take_request id (get id s.requests) s

unfoldable pub node_count : Bytes → PendingState → ℕ
node_count node s = unwrap_or (get node s.node_counts) 0
