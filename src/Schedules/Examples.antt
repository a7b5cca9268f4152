-- ===== src/Schedules/Examples.antt =====
-- The data of the tests of the schedules: a calendar of months of 28 days, a zone whose clocks go
-- back by an hour at 10:00 of the first day, a schedule, and a store.
use serial_agent.Prelude.{
  ℕ, ◌+◌, ◌-◌, ◌*◌, ◌/◌, ◌%◌, ◌≡◌, refl, true, Option, none, some, false, List, [], ◌∷◌,
  if◌then◌else◌, Bytes, bytes, Map, nat_eq, ltb,
}
use serial_agent.Schedules.{
  Schedule, SourceState, MissedPolicy, run_once, full, default_fetch_config,
}
use serial_agent.Schedules.Cron.{Calendar, Zone, LocalResult, single, ambiguous}
use serial_agent.Schedules.Field.{every}
use serial_agent.Schedules.Expression.{Expression}
use serial_agent.Schedules.Store.{ScheduleStore, ScheduleJson, after_failure}
use serial_agent.Schedules.Runner.{RunnerState}

abbrev pub one_hour : ℕ
one_hour = 3600000

abbrev pub utc_zone : Zone
utc_zone = record { naive_local = λ t. t; from_local_datetime = λ t. single t }

-- Local time is two hours ahead before 08:00 UTC, and one hour after it.
abbrev pub change : ℕ
change = 8 * one_hour

abbrev pub back : ℕ → LocalResult
back t =
    if ltb t (change + one_hour)
    then single (t - 2 * one_hour)
    else if ltb t (change + 2 * one_hour)
    then ambiguous (t - 2 * one_hour) (t - one_hour)
    else single (t - one_hour)

abbrev pub autumn : Zone
autumn = record {
  naive_local = λ t. if ltb t change then t + 2 * one_hour else t + one_hour;
  from_local_datetime = back;
}

abbrev pub toy : Calendar
toy = record {
  second = λ t. t / 1000 % 60;
  minute = λ t. t / 60000 % 60;
  hour = λ t. t / 3600000 % 24;
  day = λ t. t / 86400000 % 28 + 1;
  month = λ t. t / 86400000 / 28 % 12 + 1;
  days_from_sunday = λ t. (t / 86400000 + 4) % 7;
  with_second = λ t k. some (t - t / 1000 % 60 * 1000 + k * 1000);
  parse_zone = λ name. none;
  utc = utc_zone;
}

abbrev pub toy_autumn : Calendar
toy_autumn = record toy { utc = autumn }

abbrev pub schedule : MissedPolicy → Option ℕ → Schedule
schedule policy last = record {
  id = 7;
  name = bytes "digest";
  cron = bytes "* * * * *";
  timezone = bytes "UTC";
  enabled = true;
  agent_id = bytes "a";
  prompt_template = bytes "p";
  sources = [];
  delivery_targets = [];
  created_at = 0;
  updated_at = 0;
  last_run_id = none;
  last_run_at = last;
  next_run_at = some 60000;
  missed_policy = policy;
  max_concurrency = 2;
  timeout_ms = none;
  model = none;
  digest_mode = full;
  fetch_config = default_fetch_config;
  source_states = [];
  max_catchup_runs = 5;
  last_error = none;
  last_error_at = none;
  consecutive_failures = 0;
  cooldown_until = none;
  routing_profile = none;
  webhook_secret = none;
  total_input_tokens = 0;
  total_output_tokens = 0;
  total_runs = 0;
}

abbrev pub off : Schedule
off = record (schedule run_once none) { enabled = false }

abbrev pub kept : Schedule
kept = after_failure 5 (bytes "x") off

-- An empty list is an empty text, and any other text is read as the schedule above.
abbrev pub toy_json : ScheduleJson
toy_json = record {
  to_string_pretty = λ schedules. elim schedules [ [] ↦ some [] | s ∷ more ↦ some (bytes "[s]") ];
  from_str = λ text. elim text [ [] ↦ some [] | b ∷ more ↦ some (kept ∷ []) ];
}

pub to_text :
    (schedules : List Schedule) → (t : Bytes) × (toy_json.to_string_pretty schedules ≡ some t)
to_text [] = ([], refl)
to_text (s ∷ more) = (bytes "[s]", refl)

abbrev pub store_of : Schedule → ScheduleStore
store_of s = record {
  json = toy_json;
  inner = (s.id, s) ∷ [];
  disk = none;
  writable = true;
  sent = [];
}

abbrev pub runner_of : Schedule → RunnerState
runner_of s = record { store = store_of s; guard = []; started = [] }

abbrev pub no_states : Schedule → Map Bytes SourceState
no_states s = []

abbrev pub always : Expression
always = record { minutes = every; hours = every; days = every; months = every; weekdays = every }

abbrev pub eager : Schedule
eager = schedule run_once none
