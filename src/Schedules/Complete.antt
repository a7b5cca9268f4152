-- ===== src/Schedules/Complete.antt =====
-- The end of a scheduled run: the collector task of `spawn_scheduled_run` in
-- crates/gateway/src/runtime/schedule_runner.rs.
use serial_agent.Prelude.{
  ℕ, Bool, true, false, Option, none, some, List, [], ◌∷◌, ◌++◌, if◌then◌else◌, Bytes, bytes,
  nat_eq,
}
use serial_agent.ContextPack.Builder.{decimal}
use serial_agent.Deliveries.{Delivery, DeliveryStore, insert_delivery}
use serial_agent.Schedules.{Schedule}
use serial_agent.Schedules.Store.{ScheduleStore, record_success, record_failure, add_usage}
use serial_agent.Schedules.Runner.{ConcurrencyGuard, release}

-- The cases that the collector reads.
pub data TurnEvent : Type 0 where
  final_content : Bytes → TurnEvent
  error_message : Bytes → TurnEvent
  usage : ℕ → ℕ → ℕ → TurnEvent
  other : TurnEvent

pub record Collected : Type 0 where
  pub content : Bytes
  pub is_error : Bool
  pub input_tokens : ℕ
  pub output_tokens : ℕ
  pub total_tokens : ℕ

abbrev pub nothing_yet : Collected
nothing_yet = record {
  content = [];
  is_error = false;
  input_tokens = 0;
  output_tokens = 0;
  total_tokens = 0;
}

unfoldable pub collect_event : TurnEvent → Collected → Collected
collect_event (final_content text) k = record k { content = text }
collect_event (error_message text) k = record k {
  content = bytes "Error: " ++ text;
  is_error = true;
}
collect_event (usage it ot tt_) k = record k {
  input_tokens = it;
  output_tokens = ot;
  total_tokens = tt_;
}
collect_event other k = k

unfoldable pub collect : List TurnEvent → Collected → Collected
unfolding collect_event
collect [] k = k
collect (event ∷ events) k = collect events (collect_event event k)

-- The events that come in time, and whether the time ran out after them.
unfoldable pub outcome : Option ℕ → List TurnEvent → Bool → Collected
unfolding collect
outcome none events late = collect events nothing_yet
outcome (some ms) events late =
    let k = collect events nothing_yet in
    if late
    then record k {
      content = bytes "Error: schedule run timed out after " ++ (decimal ms ++ bytes "ms");
      is_error = true;
    }
    else k

pub record Finished : Type 0 where
  pub store : ScheduleStore
  pub deliveries : DeliveryStore
  pub guard : ConcurrencyGuard

-- `title` is the name with the time, as chrono formats it.
unfoldable pub delivery_of : ℕ → ℕ → ℕ → Bytes → Schedule → Collected → Delivery
delivery_of now delivery_id run_id title s k = record {
  id = delivery_id;
  schedule_id = some s.id;
  schedule_name = some s.name;
  run_id = some run_id;
  created_at = now;
  title = title;
  body = k.content;
  sources = s.sources;
  read = false;
  input_tokens = k.input_tokens;
  output_tokens = k.output_tokens;
  total_tokens = k.total_tokens;
  metadata = bytes "null";
}

unfoldable pub record_outcome : ℕ → ℕ → Collected → ScheduleStore → ScheduleStore
unfolding record_success record_failure
record_outcome now id k st =
    if k.is_error then record_failure now id k.content st else record_success now id st

-- `counted` is whether the run holds a slot: a run that the API starts does not.
unfoldable pub complete_run :
    ℕ → ℕ → ℕ → ℕ → Bytes → Schedule → List TurnEvent → Bool → Bool → Finished → Finished
unfolding record_outcome add_usage delivery_of insert_delivery release outcome
complete_run capacity now delivery_id run_id title s events late counted f =
    let k = outcome s.timeout_ms events late in
    record {
      store = add_usage now s.id k.input_tokens k.output_tokens (record_outcome now s.id k f.store);
      deliveries =
          insert_delivery capacity (delivery_of now delivery_id run_id title s k) f.deliveries;
      guard = if counted then release s.id f.guard else f.guard;
    }
