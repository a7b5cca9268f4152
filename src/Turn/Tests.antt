-- ===== src/Turn/Tests.antt =====
-- A turn whose model asks for the clock in each response, and no one cancels it.
use serial_agent.Prelude.{
  ◌+◌, ◌≡◌, refl, false, none, some, List, [], ◌∷◌, Bytes, bytes, bytes_eq, insert, get, length,
  inl,
}
use serial_agent.ContextPack.Builder.{decimal}
use serial_agent.Runs.{Run, queued}
use serial_agent.Turn.{ToolCall, error_event}
use serial_agent.Turn.Stream.{
  Received, event, tool_call_started, tool_call_finished, done, nothing_yet, take_event, real_id,
}
use serial_agent.Turn.Nodes.{World, stream}
use serial_agent.Turn.Loop.{prepared, run_turn, iteration, begun}
use serial_agent.Turn.Endings.{Ended, IsOpen, LastIs}
use serial_agent.Turn.Closing.{run_turn-Ended}
use serial_agent.Turn.Asking.{AsksForTool}
use serial_agent.Turn.Limit.{run_turn-limit}
use serial_agent.Turn.Assembly.{take_deltas, meant_for, take_deltas_lem}
use serial_agent.Turn.Answered.{GoesAnswered, iteration-GoesAnswered}

abbrev new_run : Run
new_run = record {
  run_id = 1;
  session_key = bytes "a";
  session_id = bytes "s";
  status = queued;
  agent_id = none;
  model = none;
  started_at = 100;
  ended_at = none;
  duration_ms = none;
  input_tokens = 0;
  output_tokens = 0;
  total_tokens = 0;
  input_preview = some (bytes "hi");
  output_preview = none;
  error = none;
  nodes = [];
  loop_count = 0;
  estimated_cost_usd = 0;
}

abbrev ask_time : ToolCall
ask_time = record { call_id = bytes "c1"; tool_name = bytes "time"; arguments = bytes "{}" }

-- The call is started and finished, and the stream is done.
abbrev asking : List Received
asking =
    event (tool_call_started (bytes "c1") (bytes "time"))
    ∷ event (tool_call_finished ask_time.call_id ask_time.tool_name ask_time.arguments)
    ∷ event (done none (some (bytes "tool_calls")))
    ∷ []

abbrev eager : World
eager = record {
  clock = λ n. 100 + n;
  is_cancelled = λ n. false;
  chat_stream = λ n messages. stream asking;
  dispatch_tool = λ node_id name arguments. (bytes "noon", false);
  from_str = some;
  pricing = λ model usage. none;
}

run_turn-Ended_example : Ended (run_turn eager none (prepared []) (bytes "hi") new_run)
run_turn-Ended_example = run_turn-Ended eager none (prepared []) (bytes "hi") new_run

eager_asks : AsksForTool (stream asking)
eager_asks = record {
  events = asking;
  streams = refl;
  plain = (tt, (tt, (tt, tt)));
  calls = inl tt;
}

run_turn-limit_example :
    let t = run_turn eager none (prepared []) (bytes "hi") new_run in
    (t.run.loop_count ≡ 25) × IsOpen t × ((m : Bytes) × LastIs (error_event m) t)
run_turn-limit_example =
    run_turn-limit eager (λ n. refl) (λ n messages. eager_asks) [] (bytes "hi") new_run

abbrev pieces : List (Bytes × Bytes)
pieces = (bytes "0", bytes "{\"a\"") ∷ (bytes "c2", bytes "[]") ∷ (bytes "c1", bytes ":1}") ∷ []

take_deltas_lem_example :
    let s = take_event (tool_call_started (bytes "c1") (bytes "time")) nothing_yet in
    (get (bytes "c1") (take_deltas pieces s).tc_bufs
      ≡ some (bytes "time", meant_for (bytes "c1") pieces s))
    × (real_id (decimal (length nothing_yet.tc_idx_to_id)) s ≡ bytes "c1")
take_deltas_lem_example = take_deltas_lem (bytes "c1") (bytes "time") pieces nothing_yet

iteration-GoesAnswered_example : GoesAnswered eager (iteration eager 3 (begun eager new_run))
iteration-GoesAnswered_example = iteration-GoesAnswered eager 3 (begun eager new_run) refl

joined :
    meant_for
      (bytes "c1")
      pieces
      (take_event (tool_call_started (bytes "c1") (bytes "time")) nothing_yet)
    ≡ bytes "{\"a\":1}"
unfolding take_event real_id get insert
joined = refl
