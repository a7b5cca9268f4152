-- ===== src/Turn/Asking.antt =====
-- The responses that ask for a tool, and what the loop over the stream keeps of them
-- (crates/gateway/src/runtime/turn.rs).
use serial_agent.Prelude.{
  ◌≡◌, ◌⊎◌, inl, inr, Option, List, [], ◌∷◌, ◌++◌, Bytes, bytes_eq, arith, Never, All, Map, insert,
  adjust,
}
use serial_agent.Turn.{ToolCall}
use serial_agent.Turn.Stream.{
  StreamEvent, thinking, token, tool_call_started, tool_call_delta, tool_call_finished, done, error,
  Received, event, broken, Streamed, take_event, all_calls, drain_calls, real_id, push_args,
}
use serial_agent.Turn.Nodes.{Response, stream}

-- Neither an error event nor a break of the stream.
abbrev pub IsPlain : Received → Type 0
IsPlain (event (thinking said)) = Unit
IsPlain (event (token said)) = Unit
IsPlain (event (tool_call_started id name)) = Unit
IsPlain (event (tool_call_delta id delta)) = Unit
IsPlain (event (tool_call_finished id name arguments)) = Unit
IsPlain (event (done usage reason)) = Unit
IsPlain (event (error message)) = Never
IsPlain (broken message) = Never

-- The start or the end of a tool call.
abbrev pub IsCall : Received → Type 0
IsCall (event (thinking said)) = Never
IsCall (event (token said)) = Never
IsCall (event (tool_call_started id name)) = Unit
IsCall (event (tool_call_delta id delta)) = Never
IsCall (event (tool_call_finished id name arguments)) = Unit
IsCall (event (done usage reason)) = Never
IsCall (event (error message)) = Never
IsCall (broken message) = Never

abbrev pub HasCall : List Received → Type 0
HasCall [] = Never
HasCall (r ∷ events) = IsCall r ⊎ HasCall events

-- The response streams to its end, whatever comes before it, and a tool call is part of it.
pub record AsksForTool (r : Response) : Type 0 where
  pub events : List Received
  pub streams : r ≡ stream events
  pub plain : All IsPlain events
  pub calls : HasCall events

abbrev pub NonEmpty : {A : Type 0} → List A → Type 0
NonEmpty [] = Never
NonEmpty (x ∷ xs) = Unit

append-NonEmpty : {A : Type 0} → (xs : List A) (y : A) (ys : List A) → NonEmpty (xs ++ y ∷ ys)
append-NonEmpty [] y ys = tt
append-NonEmpty (x ∷ xs) y ys = tt

-- A call is there, put together or still open.
abbrev pub Pending : Streamed → Type 0
Pending s = NonEmpty s.pending_tool_calls ⊎ NonEmpty s.tc_bufs

insert-NonEmpty :
    (id : Bytes) (call : Bytes × Bytes) (m : Map Bytes (Bytes × Bytes))
    → NonEmpty (insert id call m)
unfolding insert
insert-NonEmpty id call [] = tt
insert-NonEmpty id call ((j, c) ∷ m) = ground arith

adjust-NonEmpty :
    (id : Bytes) (f : Bytes × Bytes → Bytes × Bytes) (m : Map Bytes (Bytes × Bytes))
    → NonEmpty m
    → NonEmpty (adjust id f m)
unfolding adjust
adjust-NonEmpty id f [] h = h
adjust-NonEmpty id f ((j, c) ∷ m) h = ground arith

pub take_event-Pending :
    (e : StreamEvent) (s : Streamed) → Pending s ⊎ IsCall (event e) → Pending (take_event e s)
unfolding take_event
take_event-Pending (thinking said) s (inl h) = h
take_event-Pending (thinking said) s (inr h) = elim h [ ]
take_event-Pending (token said) s (inl h) = h
take_event-Pending (token said) s (inr h) = elim h [ ]
take_event-Pending (tool_call_started id name) s h = inr (insert-NonEmpty id (name, []) s.tc_bufs)
take_event-Pending (tool_call_delta id delta) s (inl (inl h)) = inl h
take_event-Pending (tool_call_delta id delta) s (inl (inr h)) =
    inr (adjust-NonEmpty (real_id id s) (push_args delta) s.tc_bufs h)
take_event-Pending (tool_call_delta id delta) s (inr h) = elim h [ ]
take_event-Pending (tool_call_finished id name arguments) s h =
    inl (append-NonEmpty s.pending_tool_calls _ [])
take_event-Pending (done usage reason) s (inl h) = h
take_event-Pending (done usage reason) s (inr h) = elim h [ ]
take_event-Pending (error message) s (inl h) = h
take_event-Pending (error message) s (inr h) = elim h [ ]

pub Pending-all_calls :
    (from_str : Bytes → Option Bytes) (s : Streamed) → Pending s → NonEmpty (all_calls from_str s)
unfolding all_calls
Pending-all_calls from_str s h = calls s.pending_tool_calls s.tc_bufs h
  where
    calls :
        (put_together : List ToolCall) (open_ : Map Bytes (Bytes × Bytes))
        → NonEmpty put_together ⊎ NonEmpty open_
        → NonEmpty (put_together ++ drain_calls from_str open_)
    calls (tc ∷ put_together) open_ h = tt
    calls [] (call ∷ open_) h = unfold drain_calls in tt
    calls [] [] (inl h) = elim h [ ]
    calls [] [] (inr h) = elim h [ ]
