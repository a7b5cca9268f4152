-- ===== src/Schedules.antt =====
-- The data model of crates/gateway/src/runtime/schedules/model.rs. Ids are numbers, and times are
-- milliseconds since the epoch.
mod Cron
mod Field
mod Expression
mod Next
mod Store
mod Runner
mod Complete
mod Writes
mod Missed
mod Overlap
mod Repeats
mod Backoff
mod Address
mod Url
mod Userinfo
mod Internal
mod Validation
mod Accepted
mod Calls
mod Reload
mod Slots
mod Skip
mod Examples
mod RunTests
mod Tests
use serial_agent.Prelude.{
  ℕ, ◌+◌, ◌-◌, ◌*◌, ◌^◌, min, Bool, true, false, Option, none, some, List, if◌then◌else◌, eqb, ltb,
  leb, Bytes, bytes, Map,
}
use mathlib.Core.Option

pub data MissedPolicy : Type 0 where
  skip : MissedPolicy
  run_once : MissedPolicy
  catch_up : MissedPolicy

pub data DigestMode : Type 0 where
  full : DigestMode
  changes_only : DigestMode

pub record FetchConfig : Type 0 where
  pub timeout_ms : ℕ
  pub user_agent : Bytes
  pub max_size_bytes : ℕ

abbrev pub default_fetch_config : FetchConfig
default_fetch_config = record {
  timeout_ms = 30000;
  user_agent = bytes "SerialAgent/1.0";
  max_size_bytes = 0;
}

pub record SourceState : Type 0 where
  pub last_fetched_at : Option ℕ
  pub last_content_hash : Option Bytes
  pub last_http_status : Option ℕ
  pub last_error : Option Bytes

pub data DeliveryTarget : Type 0 where
  in_app : DeliveryTarget
  webhook : Bytes → DeliveryTarget

abbrev pub max_cooldown_minutes : ℕ
max_cooldown_minutes = 24 * 60

-- The exponent is at most 20, so that the shift of a `u64` never fails.
unfoldable pub cooldown_minutes : ℕ → ℕ
cooldown_minutes consecutive_failures =
    if eqb consecutive_failures 0
    then 0
    else min (2 ^ min (consecutive_failures - 1) 20) max_cooldown_minutes

pub record Schedule : Type 0 where
  pub id : ℕ
  pub name : Bytes
  pub cron : Bytes
  pub timezone : Bytes
  pub enabled : Bool
  pub agent_id : Bytes
  pub prompt_template : Bytes
  pub sources : List Bytes
  pub delivery_targets : List DeliveryTarget
  pub created_at : ℕ
  pub updated_at : ℕ
  pub last_run_id : Option ℕ
  pub last_run_at : Option ℕ
  pub next_run_at : Option ℕ
  pub missed_policy : MissedPolicy
  pub max_concurrency : ℕ
  pub timeout_ms : Option ℕ
  pub model : Option Bytes
  pub digest_mode : DigestMode
  pub fetch_config : FetchConfig
  pub source_states : Map Bytes SourceState
  pub max_catchup_runs : ℕ
  pub last_error : Option Bytes
  pub last_error_at : Option ℕ
  pub consecutive_failures : ℕ
  pub cooldown_until : Option ℕ
  pub routing_profile : Option Bytes
  pub webhook_secret : Option Bytes
  pub total_input_tokens : ℕ
  pub total_output_tokens : ℕ
  pub total_runs : ℕ

pub data ScheduleStatus : Type 0 where
  active : ScheduleStatus
  paused : ScheduleStatus
  error : ScheduleStatus

unfoldable pub computed_status : Schedule → ScheduleStatus
computed_status s =
    if s.enabled then (if ltb 0 s.consecutive_failures then error else active) else paused

pub record ScheduleView : Type 0 where
  pub schedule : Schedule
  pub status : ScheduleStatus

-- The secret is masked.
unfoldable pub to_view : Schedule → ScheduleView
unfolding computed_status
to_view s = record {
  schedule = record s {
    webhook_secret = Option.map (λ (secret : Bytes). bytes "****") s.webhook_secret;
  };
  status = computed_status s;
}

pub data ScheduleEvent : Type 0 where
  schedule_updated : ScheduleView → ScheduleEvent
  schedule_run_started : ℕ → ℕ → ScheduleEvent
  schedule_run_completed : ℕ → ℕ → ScheduleEvent
