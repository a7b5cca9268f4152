-- ===== src/Turn/Loop.antt =====
-- The loop of a turn: a call of the model, then the tools that it asks for
-- (crates/gateway/src/runtime/turn.rs). What is around the turn are parameters: the clock, the
-- cancel flag, the model, the tools, serde_json and the prices.
use serial_agent.Prelude.{
  ℕ, zero, suc, ◌+◌, ◌-◌, ◌%◌, ◌^◌, Bool, true, false, Option, none, some, List, [], ◌∷◌, ◌++◌,
  if◌then◌else◌, Bytes, bytes, eqb,
}
use serial_agent.ContextPack.Builder.{decimal}
use serial_agent.Runs.{Run, RunNode, RunStatus, NodeKind}
use serial_agent.Turn.{
  Turn, ToolCall, Usage, Message, max_tool_loops, tool_call_event, tool_result_event, stopped_event,
  error_event, system, assistant, tool, user, send, persist_transcript, checked, end_run,
  handle_cancellation, finalize_run_success, tool_result, build_assistant_tool_message,
  truncate_str,
}
use serial_agent.Turn.Stream.{
  Streamed, nothing_yet, finished, cancelled_, errored, failed_with, Consumed, consume, all_calls,
}
use serial_agent.Turn.Nodes.{World, Response, refused, stream, start_node, end_node}

-- How a part of the turn ends: the loop goes on, or the turn returns, with an error or without.
pub data Progress : Type 0 where
  going returned : Turn → Progress
  raised : Bytes → Turn → Progress

abbrev pub prompt_of : Option Usage → ℕ
prompt_of none = 0
prompt_of (some u) = u.prompt_tokens

abbrev pub completion_of : Option Usage → ℕ
completion_of none = 0
completion_of (some u) = u.completion_tokens

-- The sums are those of `u32`.
abbrev pub add_usage : Option Usage → Usage → Usage
add_usage none total = total
add_usage (some u) total = record {
  prompt_tokens = (total.prompt_tokens + u.prompt_tokens) % 2 ^ 32;
  completion_tokens = (total.completion_tokens + u.completion_tokens) % 2 ^ 32;
  total_tokens = (total.total_tokens + u.total_tokens) % 2 ^ 32;
}

module _ (w : World) where
  abbrev pub llm_ended : RunStatus → Streamed → ℕ → RunNode → RunNode
  llm_ended status s now n = record n {
    status = status;
    input_tokens = prompt_of s.turn_usage;
    output_tokens = completion_of s.turn_usage;
    output_preview = some (truncate_str s.text_buf 200);
  }

  abbrev tool_ended : Bytes × Bool → ℕ → RunNode → RunNode
  tool_ended (content, is_error) now n = record n {
    status = if is_error then RunStatus.failed else RunStatus.completed;
    output_preview = some (truncate_str content 200);
    is_error = is_error;
  }

  abbrev pub dispatch_note : Bytes
  dispatch_note = bytes " during tool dispatch"

  -- The node and the event of a call.
  unfoldable pub begin_tool : ToolCall → Turn → Turn
  unfolding start_node send truncate_str
  begin_tool tc t = send (tool_call_event tc.call_id tc.tool_name tc.arguments) (
      start_node w NodeKind.tool_call tc.tool_name (some (truncate_str tc.arguments 200)) (λ r. r)
        t)

  -- All calls begin before any of them runs; the flag is read before each. The answer tells whether
  -- it was set.
  unfoldable pub start_tools : List ToolCall → Turn → Bool × Turn × List (ℕ × ℕ)
  unfolding checked begin_tool
  start_tools [] t = (false, t, [])
  start_tools (tc ∷ calls) t =
      let (stop, after, infos) = start_tools calls (begin_tool tc (checked t)) in
      if w.is_cancelled t.checks
      then (true, checked t, [])
      else (stop, after, (t.node_seq + 1, w.clock t.reads) ∷ infos)

  -- One result: the node, the event, the message and the line of the transcript.
  unfoldable pub finish_tool : ToolCall → ℕ × ℕ → Turn → Turn
  unfolding end_node send persist_transcript tool_result
  finish_tool tc (node_id, started) t =
      let result = w.dispatch_tool node_id tc.tool_name tc.arguments in
      let t1 =
        send (tool_result_event tc.call_id tc.tool_name result.0 result.1)
          (end_node w node_id started (tool_ended result) t) in
      persist_transcript tool result.0
        (record t1 { messages = t1.messages ++ tool_result tc.call_id result.0 ∷ [] })

  -- The results in the order of the calls.
  unfoldable pub finish_tools : List ToolCall → List (ℕ × ℕ) → Turn → Turn
  unfolding finish_tool
  finish_tools [] infos t = t
  finish_tools (tc ∷ calls) [] t = t
  finish_tools (tc ∷ calls) (info ∷ infos) t = finish_tools calls infos (finish_tool tc info t)

  abbrev pub limit_note : Bytes
  limit_note = bytes "tool loop limit reached (" ++ decimal max_tool_loops ++ bytes " iterations)"

  abbrev pub at_limit : ℕ → Turn → Turn
  at_limit loop_idx t =
      if eqb loop_idx (max_tool_loops - 1) then send (error_event limit_note) t else t

  abbrev pub dispatched : ℕ → Bytes → List ToolCall → Bool × Turn × List (ℕ × ℕ) → Progress
  dispatched loop_idx text_buf calls (true, t, infos) =
      returned (handle_cancellation w.clock text_buf dispatch_note t)
  dispatched loop_idx text_buf calls (false, t, infos) =
      if w.is_cancelled t.checks
      then returned (handle_cancellation w.clock text_buf dispatch_note (checked t))
      else going (at_limit loop_idx (finish_tools calls infos (checked t)))

  -- The tools of one response.
  unfoldable pub run_tools : ℕ → Bytes → List ToolCall → Turn → Progress
  unfolding start_tools finish_tools build_assistant_tool_message persist_transcript
      handle_cancellation
  run_tools loop_idx text_buf calls t =
      let t1 = record t {
        messages = t.messages ++ build_assistant_tool_message text_buf calls ∷ [];
      } in
      dispatched loop_idx text_buf calls
        (start_tools calls (persist_transcript assistant text_buf t1))

  -- With no tool calls, the response is the answer.
  abbrev pub answer_or_run : ℕ → Bytes → List ToolCall → Turn → Progress
  answer_or_run loop_idx text_buf [] t =
      returned (finalize_run_success w.clock w.pricing text_buf t)
  answer_or_run loop_idx text_buf (tc ∷ calls) t = run_tools loop_idx text_buf (tc ∷ calls) t

  abbrev pub counted : Option Usage → Turn → Turn
  counted usage t = record t { total_usage = add_usage usage t.total_usage }

  abbrev pub after_stream : ℕ → ℕ → ℕ → Consumed w.is_cancelled → Progress
  after_stream loop_idx node_id started (failed_with message, t, s) = raised message t
  after_stream loop_idx node_id started (errored, t, s) = returned t
  after_stream loop_idx node_id started (cancelled_, t, s) = returned (
      handle_cancellation w.clock s.text_buf []
        (end_node w node_id started (llm_ended RunStatus.stopped s) t))
  after_stream loop_idx node_id started (finished, t, s) =
      answer_or_run loop_idx s.text_buf (all_calls w.from_str s)
        (counted s.turn_usage (end_node w node_id started (llm_ended RunStatus.completed s) t))

  abbrev pub with_response : ℕ → ℕ → ℕ → Response → Turn → Progress
  with_response loop_idx node_id started (refused message) t = raised message t
  with_response loop_idx node_id started (stream events) t =
      after_stream loop_idx node_id started (consume w.is_cancelled events t nothing_yet)

  -- The node of a round's call of the model.
  unfoldable pub begin_round : ℕ → Turn → Turn
  unfolding start_node
  begin_round loop_idx t =
      start_node w NodeKind.llm_request (bytes "llm") none
        (λ r. record r { loop_count = loop_idx + 1 }) t

  -- One round of the loop.
  unfoldable pub iteration : ℕ → Turn → Progress
  unfolding checked begin_round end_node consume all_calls run_tools handle_cancellation
      finalize_run_success send persist_transcript
  iteration loop_idx t =
      let began = begin_round loop_idx (checked t) in
      if w.is_cancelled t.checks
      then returned (
          send (stopped_event [])
            (persist_transcript system (bytes "[run aborted by user]") (checked t)))
      else with_response loop_idx began.node_seq (w.clock t.reads)
          (w.chat_stream loop_idx began.messages) began

  -- `fuel` rounds from the given one on.
  unfoldable pub tool_loop : ℕ → ℕ → Turn → Progress
  unfolding iteration
  tool_loop zero loop_idx t = returned t
  tool_loop (suc fuel) loop_idx t = elim (iteration loop_idx t) [
    | going t' ↦ tool_loop fuel (loop_idx + 1) t'
    | returned t' ↦ returned t'
    | raised message t' ↦ raised message t'
  ]

  -- What `run_turn` does with the result: an error fails the run.
  unfoldable pub close : Progress → Turn
  unfolding end_run send
  close (going t) = t
  close (returned t) = t
  close (raised message t) =
      send (error_event message)
        (end_run w.clock (λ r. record r { error = some message }) RunStatus.failed t)

  -- A quota that is used up, by its kind and the message.
  abbrev pub over_quota : Option (Bytes × Bytes) → Turn → Progress → Progress
  over_quota none t rest = rest
  over_quota (some (kind, message)) t rest = returned (
      end_run w.clock (λ r. record r { error = some (bytes "quota exceeded: " ++ kind) })
        RunStatus.failed (send (error_event message) t))

  -- `prepare_turn_context`: an error, or the messages to start with. The user's message is written
  -- to the transcript.
  pub data Prepared : Type 0 where
    unprepared : Bytes → Prepared
    prepared : List Message → Prepared

  abbrev pub from_prepared : Prepared → Bytes → Turn → Progress
  from_prepared (unprepared message) user_message t = raised message t
  from_prepared (prepared messages) user_message t =
      tool_loop max_tool_loops 0
        (persist_transcript user user_message (record t { messages = messages }))

  abbrev pub begun : Run → Turn
  begun r = record {
    run = record r { status = RunStatus.running };
    sent = [];
    transcript = [];
    messages = [];
    node_seq = 0;
    total_usage = record { prompt_tokens = 0; completion_tokens = 0; total_tokens = 0 };
    recorded = [];
    cleaned = false;
    checks = 0;
    reads = 0;
  }

  -- A turn, with the new record of its run.
  unfoldable pub run_turn : Option (Bytes × Bytes) → Prepared → Bytes → Run → Turn
  unfolding tool_loop close end_run send persist_transcript
  run_turn quota context user_message r =
      close (over_quota quota (begun r) (from_prepared context user_message (begun r)))
