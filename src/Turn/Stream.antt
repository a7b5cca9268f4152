-- ===== src/Turn/Stream.antt =====
-- The response of the model as it streams in, and the tool calls put together from it
-- (crates/gateway/src/runtime/turn.rs).
use serial_agent.Prelude.{
  ℕ, Bool, Option, none, some, List, [], ◌∷◌, ◌++◌, if◌then◌else◌, Bytes, bytes, bytes_eq, length,
  Map, get, insert, remove, adjust, unwrap_or,
}
use serial_agent.Strings.{is_blank}
use serial_agent.ContextPack.Builder.{decimal}
use serial_agent.Turn.{ToolCall, Usage, Turn, send, checked, thought, assistant_delta, error_event}

pub data StreamEvent : Type 0 where
  thinking token : Bytes → StreamEvent
  tool_call_started : Bytes → Bytes → StreamEvent
  tool_call_delta : Bytes → Bytes → StreamEvent
  tool_call_finished : Bytes → Bytes → Bytes → StreamEvent
  done : Option Usage → Option Bytes → StreamEvent
  error : Bytes → StreamEvent

pub data Received : Type 0 where
  event : StreamEvent → Received
  broken : Bytes → Received

-- What has come in so far: `tc_bufs` holds the name and the arguments of each open call by its id,
-- and `tc_idx_to_id` the ids by the order of their start.
pub record Streamed : Type 0 where
  pub text_buf : Bytes
  pub pending_tool_calls : List ToolCall
  pub turn_usage : Option Usage
  pub tc_bufs : Map Bytes (Bytes × Bytes)
  pub tc_idx_to_id : Map Bytes Bytes

abbrev pub nothing_yet : Streamed
nothing_yet = record {
  text_buf = [];
  pending_tool_calls = [];
  turn_usage = none;
  tc_bufs = [];
  tc_idx_to_id = [];
}

-- A delta names its call by the id or by the index.
unfoldable pub real_id : Bytes → Streamed → Bytes
real_id call_id s = unwrap_or (get call_id s.tc_idx_to_id) call_id

abbrev pub push_args : Bytes → Bytes × Bytes → Bytes × Bytes
push_args delta call = (call.0, call.1 ++ delta)

-- What an event adds; that of an error is dealt with by the loop.
unfoldable pub take_event : StreamEvent → Streamed → Streamed
unfolding real_id decimal
take_event (thinking said) s = s
take_event (token said) s = record s { text_buf = s.text_buf ++ said }
take_event (tool_call_started call_id tool_name) s = record s {
  tc_idx_to_id = insert (decimal (length s.tc_idx_to_id)) call_id s.tc_idx_to_id;
  tc_bufs = insert call_id (tool_name, []) s.tc_bufs;
}
take_event (tool_call_delta call_id delta) s = record s {
  tc_bufs = adjust (real_id call_id s) (push_args delta) s.tc_bufs;
}
take_event (tool_call_finished call_id tool_name arguments) s = record s {
  pending_tool_calls =
      s.pending_tool_calls
      ++ record { call_id = call_id; tool_name = tool_name; arguments = arguments } ∷ [];
  tc_bufs = remove call_id s.tc_bufs;
}
take_event (done usage finish_reason) s = record s { turn_usage = usage }
take_event (error message) s = s

-- What an event sends on to the caller of the turn.
unfoldable pub forward : StreamEvent → Turn → Turn
unfolding send
forward (thinking said) t = send (thought said) t
forward (token said) t = send (assistant_delta said) t
forward (error message) t = send (error_event message) t
forward _ t = t

-- How the reading of a response ends.
pub data Reading : Type 0 where
  finished cancelled_ errored : Reading
  failed_with : Bytes → Reading

module _ (is_cancelled : ℕ → Bool) where
  abbrev pub Consumed : Type 0
  Consumed = Reading × Turn × Streamed

  -- An error event ends the turn once it is sent on.
  abbrev pub unless_error : StreamEvent → Consumed → Consumed → Consumed
  unless_error (error message) ended rest = ended
  unless_error _ ended rest = rest

  -- The loop over the stream: the flag is read before each event.
  unfoldable pub consume : List Received → Turn → Streamed → Consumed
  unfolding checked forward take_event
  consume [] t s = (finished, t, s)
  consume (broken message ∷ more) t s =
      if is_cancelled t.checks
      then (cancelled_, checked t, s)
      else (failed_with message, checked t, s)
  consume (event e ∷ more) t s =
      let rest = consume more (forward e (checked t)) (take_event e s) in
      if is_cancelled t.checks
      then (cancelled_, checked t, s)
      else unless_error e (errored, forward e (checked t), s) rest

abbrev pub or_empty_object : Option Bytes → Bytes
or_empty_object none = bytes "{}"
or_empty_object (some v) = v

-- The calls that only started and got deltas: arguments that are blank or no JSON are an empty
-- object. `from_str` stands for serde_json.
module _ (from_str : Bytes → Option Bytes) where
  abbrev pub assembled : Bytes × (Bytes × Bytes) → ToolCall
  assembled (call_id, (name, args_str)) = record {
    call_id = call_id;
    tool_name = name;
    arguments = if is_blank args_str then bytes "{}" else or_empty_object (from_str args_str);
  }

  unfoldable pub drain_calls : Map Bytes (Bytes × Bytes) → List ToolCall
  drain_calls [] = []
  drain_calls (call ∷ calls) = assembled call ∷ drain_calls calls

  unfoldable pub all_calls : Streamed → List ToolCall
  unfolding drain_calls is_blank
  all_calls s = s.pending_tool_calls ++ drain_calls s.tc_bufs
