-- ===== src/Turn.antt =====
-- crates/gateway/src/runtime/turn.rs: one turn of the agent. A turn carries the record of its run
-- in the run store and all that it sends and writes; `reads` counts its looks at the clock and
-- `checks` those at the cancel flag. JSON values are their bytes. A line of the transcript is its
-- role and its content.
pub mod Stream
pub mod Nodes
pub mod Loop
mod Endings
mod Closing
mod Limit
mod Assembly
mod Answered
mod Asking
mod Tests
use serial_agent.Prelude.{
  ℕ, ◌+◌, Bool, true, false, Option, none, some, List, [], ◌∷◌, ◌++◌, map, if◌then◌else◌, Bytes,
  bytes, leb, length, take,
}
use serial_agent.ContextPack.{floor_from}
use serial_agent.Strings.{is_empty}
use serial_agent.Runs.{Run, RunStatus, finish}

-- `MAX_TOOL_LOOPS`.
abbrev pub max_tool_loops : ℕ
max_tool_loops = 25

pub record ToolCall : Type 0 where
  pub call_id : Bytes
  pub tool_name : Bytes
  pub arguments : Bytes

pub record Usage : Type 0 where
  pub prompt_tokens : ℕ
  pub completion_tokens : ℕ
  pub total_tokens : ℕ

pub data TurnEvent : Type 0 where
  thought assistant_delta : Bytes → TurnEvent
  tool_call_event : Bytes → Bytes → Bytes → TurnEvent
  tool_result_event : Bytes → Bytes → Bytes → Bool → TurnEvent
  final stopped_event error_event : Bytes → TurnEvent
  usage_event : ℕ → ℕ → ℕ → TurnEvent

pub data Role : Type 0 where
  system user assistant tool : Role

pub data ContentPart : Type 0 where
  text_part : Bytes → ContentPart
  tool_use : Bytes → Bytes → Bytes → ContentPart
  tool_result_part : Bytes → Bytes → Bool → ContentPart
  image : Bytes → ContentPart

pub data MessageContent : Type 0 where
  text : Bytes → MessageContent
  parts : List ContentPart → MessageContent

pub record Message : Type 0 where
  pub role : Role
  pub content : MessageContent

-- `Message::tool_result`.
unfoldable pub tool_result : Bytes → Bytes → Message
tool_result tool_use_id content = record {
  role = tool;
  content = parts (tool_result_part tool_use_id content false ∷ []);
}

abbrev pub use_of : ToolCall → ContentPart
use_of tc = tool_use tc.call_id tc.tool_name tc.arguments

unfoldable pub build_assistant_tool_message : Bytes → List ToolCall → Message
build_assistant_tool_message said tool_calls = record {
  role = assistant;
  content = parts ((if is_empty said then [] else text_part said ∷ []) ++ map use_of tool_calls);
}

unfoldable pub truncate_str : Bytes → ℕ → Bytes
truncate_str s max = if leb (length s) max then s else take (floor_from s max) s ++ bytes "..."

pub record Turn : Type 0 where
  pub run : Run
  pub sent : List TurnEvent
  pub transcript : List (Role × Bytes)
  pub messages : List Message
  pub node_seq : ℕ
  pub total_usage : Usage
  pub recorded : List Usage
  pub cleaned : Bool
  pub checks : ℕ
  pub reads : ℕ

unfoldable pub send : TurnEvent → Turn → Turn
send e t = record t { sent = t.sent ++ e ∷ [] }

unfoldable pub persist_transcript : Role → Bytes → Turn → Turn
persist_transcript role content t = record t { transcript = t.transcript ++ (role, content) ∷ [] }

unfoldable pub update : (Run → Run) → Turn → Turn
update f t = record t { run = f t.run }

-- A look at the cancel flag, and one at the clock.
unfoldable pub checked : Turn → Turn
checked t = record t { checks = t.checks + 1 }

unfoldable pub timed : Turn → Turn
timed t = record t { reads = t.reads + 1 }

module _ (clock : ℕ → ℕ) where
  -- The last step of each ending: `finish` on the run, and the channel of its events let go of.
  unfoldable pub end_run : (Run → Run) → RunStatus → Turn → Turn
  unfolding finish
  end_run f status t = record t {
    run = finish (clock t.reads) status (f t.run);
    reads = t.reads + 1;
    cleaned = true;
  }

  abbrev partial_note : Bytes → Bytes
  partial_note partial_content =
      if is_empty partial_content then [] else bytes " partial: " ++ partial_content

  unfoldable pub handle_cancellation : Bytes → Bytes → Turn → Turn
  unfolding send persist_transcript end_run truncate_str
  handle_cancellation partial_content context_msg t = send (stopped_event partial_content) (
      persist_transcript system
        (bytes "[run aborted by user" ++ context_msg ++ bytes "]" ++ partial_note partial_content)
        (end_run (λ r. record r { output_preview = some (truncate_str partial_content 200) })
          RunStatus.stopped t))

  -- `pricing` finds the price of a model and estimates the cost.
  abbrev priced : Option ℕ → Run → Run
  priced none r = r
  priced (some cost) r = record r { estimated_cost_usd = cost }

  abbrev cost_for : (Bytes → Usage → Option ℕ) → Option Bytes → Usage → Option ℕ
  cost_for pricing none usage = none
  cost_for pricing (some model) usage = pricing model usage

  unfoldable pub finalize_run_success : (Bytes → Usage → Option ℕ) → Bytes → Turn → Turn
  unfolding send persist_transcript end_run truncate_str
  finalize_run_success pricing text_buf t =
      let usage = t.total_usage in
      let t1 = send (final text_buf) (persist_transcript assistant text_buf t) in
      let t2 =
        send (usage_event usage.prompt_tokens usage.completion_tokens usage.total_tokens) t1 in
      end_run
        (λ r. priced (cost_for pricing r.model usage) (record r {
          input_tokens = usage.prompt_tokens;
          output_tokens = usage.completion_tokens;
          total_tokens = usage.total_tokens;
          output_preview = some (truncate_str text_buf 200);
        }))
        RunStatus.completed (record t2 { recorded = t2.recorded ++ usage ∷ [] })
