-- ===== src/Nodes/Pending/Dispatch.antt =====
-- `dispatch_to_node`, `complete_request` and `fail_pending_for_node`. A dispatch is its steps: the
-- check of the limits, the entry of the request, and the end of the wait, which other calls may
-- come between. Results and arguments are the bytes of their JSON.
use serial_agent.Prelude.{
  ℕ, Bool, true, false, ◌&&◌, Option, none, some, List, [], ◌∷◌, ◌++◌, ltb, leb, if◌then◌else◌,
  Bytes, bytes_beq, bytes_eq, bytes, length, Map,
}
use serial_agent.Nodes.Pending.{
  PendingRequest, PendingState, insert_request, remove_request, node_count,
}

pub data RouteError : Type 0 where
  global_limit : ℕ → RouteError
  node_limit : ℕ → Bytes → RouteError
  not_connected send_failed disconnected timed_out : Bytes → RouteError
  reported : Bytes → RouteError

pub record ToolRouteResult : Type 0 where
  pub success : Bool
  pub result : Bytes
  pub error : Option RouteError
  pub routed_to : Bytes

abbrev pub refusal : Bytes → RouteError → ToolRouteResult
refusal node e = record {
  success = false;
  result = bytes "null";
  error = some e;
  routed_to = bytes "node:" ++ node;
}

pub record Limits : Type 0 where
  pub max_pending_per_node : ℕ
  pub max_pending_global : ℕ

-- The limits that `ToolRouter::new` sets.
abbrev pub default_limits : Limits
default_limits = record { max_pending_per_node = 50; max_pending_global = 200 }

-- The bounded pending check, under one lock; `none` lets the call go on.
unfoldable pub check_limits : Limits → Bytes → PendingState → Option RouteError
check_limits l node s =
    if ltb 0 l.max_pending_global && leb l.max_pending_global (length s.requests)
    then some (global_limit (length s.requests))
    else if ltb 0 l.max_pending_per_node && leb l.max_pending_per_node (node_count node s)
    then some (node_limit (node_count node s) node)
    else none

-- Once the request is entered: where the node has no sink or the send fails it is taken back, under
-- a lock of its own. The result is there where the call has ended.
abbrev pub send_request :
    Bytes → Bytes → Option ℕ → Bool → PendingState → PendingState × Option ToolRouteResult
send_request id node none sent s =
    ((remove_request id s).0, some (refusal node (not_connected node)))
send_request id node (some sink) false s =
    ((remove_request id s).0, some (refusal node (send_failed node)))
send_request id node (some sink) true s = (s, none)

-- After the check, under later locks: the request is entered and sent, with no other call between
-- the two.
unfoldable pub enter_request :
    Bytes → Bytes → ℕ → Option ℕ → Bool → PendingState → PendingState × Option ToolRouteResult
enter_request id node tx sink sent s =
    send_request id node sink sent (insert_request id (record { node_id = node; tx = tx }) s)

abbrev pub begin_from :
    Option RouteError
    → Bytes
    → Bytes
    → ℕ
    → Option ℕ
    → Bool
    → PendingState
    → PendingState × Option ToolRouteResult
begin_from (some e) id node tx sink sent s = (s, some (refusal node e))
begin_from none id node tx sink sent s = enter_request id node tx sink sent s

-- `dispatch_to_node` up to its wait, with no other call between the check and the entry.
unfoldable pub begin_dispatch :
    Limits
    → Bytes
    → Bytes
    → ℕ
    → Option ℕ
    → Bool
    → PendingState
    → PendingState × Option ToolRouteResult
unfolding check_limits enter_request
begin_dispatch l id node tx sink sent s = begin_from (check_limits l node s) id node tx sink sent s

-- How the wait ends: an answer, a dropped channel, or the timeout.
pub data Ending : Type 0 where
  answered : Bool → Bytes → Option Bytes → Ending
  dropped expired : Ending

abbrev reported_error : Option Bytes → Option RouteError
reported_error none = none
reported_error (some e) = some (reported e)

unfoldable pub end_wait : Bytes → Bytes → Ending → PendingState → PendingState × ToolRouteResult
end_wait id node (answered success result error) s = (
  s,
  record {
    success = success;
    result = result;
    error = reported_error error;
    routed_to = bytes "node:" ++ node;
  },
)
end_wait id node dropped s = (s, refusal node (disconnected node))
end_wait id node expired s = ((remove_request id s).0, refusal node (timed_out node))

abbrev pub told : Option PendingRequest → List ℕ
told none = []
told (some req) = req.tx ∷ []

-- `complete_request`: the channel that is sent the answer, if the request is known.
unfoldable pub complete_request : Bytes → PendingState → PendingState × List ℕ
complete_request id s = let (t, req) = remove_request id s in (t, told req)

abbrev pub ids_of : Bytes → Map Bytes PendingRequest → List Bytes
ids_of node [] = []
ids_of node ((id, req) ∷ m) =
    let rest = ids_of node m in if bytes_beq req.node_id node then id ∷ rest else rest

-- The loop of `fail_pending_for_node`, with the channels that are told.
unfoldable pub fail_ids : List Bytes → PendingState → PendingState × List ℕ
fail_ids [] s = (s, [])
fail_ids (id ∷ ids) s =
    let (t, req) = remove_request id s in let (u, txs) = fail_ids ids t in (u, told req ++ txs)

-- The state, the number of requests failed, and the channels that are told.
unfoldable pub fail_pending_for_node : Bytes → PendingState → PendingState × ℕ × List ℕ
unfolding fail_ids
fail_pending_for_node node s =
    let ids = ids_of node s.requests in let (t, txs) = fail_ids ids s in (t, length ids, txs)
