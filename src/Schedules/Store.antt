-- ===== src/Schedules/Store.antt =====
-- crates/gateway/src/runtime/schedules/store.rs. The map, the file that it is written to, and the
-- log of the events that are sent. `now` is the clock.
use serial_agent.Prelude.{
  ℕ, ◌+◌, ◌*◌, ◌%◌, ◌^◌, Bool, true, false, not, ◌&&◌, Option, none, some, List, [], ◌∷◌, ◌++◌,
  if◌then◌else◌, eqb, leb, Bytes, bytes_beq, bytes_eq, nat_eq, Map, get, insert, remove, adjust,
  is_some, keep_if, any,
}
use mathlib.Core.Option
use serial_agent.Strings.{u32_limit}
use serial_agent.Schedules.{
  Schedule, SourceState, ScheduleEvent, schedule_updated, schedule_run_started, to_view,
  cooldown_minutes,
}
use serial_agent.Schedules.Cron.{Calendar, parse_tz, cron_next_tz, one_minute}

-- serde_json on the schedules of the file.
pub record ScheduleJson : Type 0 where
  pub to_string_pretty : List Schedule → Option Bytes
  pub from_str : Bytes → Option (List Schedule)

-- `disk` is the text of the file, where there is one, and `writable` whether it can be written.
pub record ScheduleStore : Type 0 where
  pub json : ScheduleJson
  pub inner : Map ℕ Schedule
  pub disk : Option Bytes
  pub writable : Bool
  pub sent : List ScheduleEvent

unfoldable pub values : Map ℕ Schedule → List Schedule
values [] = []
values ((id, s) ∷ m) = s ∷ values m

-- The schedules of the file, under their ids.
unfoldable pub by_id : List Schedule → Map ℕ Schedule → Map ℕ Schedule
by_id [] m = m
by_id (s ∷ schedules) m = by_id schedules (insert s.id s m)

-- A file that is not there, or does not parse, has no schedules.
abbrev pub parsed : Option (List Schedule) → Map ℕ Schedule
parsed none = []
parsed (some schedules) = by_id schedules []

unfoldable pub load : ScheduleJson → Option Bytes → Map ℕ Schedule
unfolding by_id
load json none = []
load json (some text) = parsed (json.from_str text)

unfoldable pub new_store : ScheduleJson → Option Bytes → Bool → ScheduleStore
unfolding load
new_store json disk writable = record {
  json = json;
  inner = load json disk;
  disk = disk;
  writable = writable;
  sent = [];
}

-- The two parts of `persist`: the text of the map, and the write of the file. A write that fails
-- leaves the file as it was.
unfoldable pub snapshot : ScheduleStore → Option Bytes
unfolding values
snapshot s = s.json.to_string_pretty (values s.inner)

unfoldable pub write_file : Bytes → ScheduleStore → ScheduleStore
write_file text s = if s.writable then record s { disk = some text } else s

unfoldable pub persist : ScheduleStore → ScheduleStore
unfolding snapshot write_file
persist s = elim (snapshot s) [ none ↦ s | some text ↦ write_file text s ]

unfoldable pub send : ScheduleEvent → ScheduleStore → ScheduleStore
send event s = record s { sent = s.sent ++ event ∷ [] }

unfoldable pub list : ScheduleStore → List Schedule
list s = values s.inner

unfoldable pub get_schedule : ℕ → ScheduleStore → Option Schedule
get_schedule id s = get id s.inner

-- `to_lowercase` is a parameter.
unfoldable pub name_exists : (Bytes → Bytes) → Bytes → Option ℕ → ScheduleStore → Bool
name_exists to_lowercase name exclude_id s =
    any
      (λ (t : Schedule).
        bytes_beq (to_lowercase t.name) (to_lowercase name) && not (excluded exclude_id t.id))
      (values s.inner)
  where
    excluded : Option ℕ → ℕ → Bool
    excluded none id = false
    excluded (some x) id = eqb id x

-- A write to a schedule that is there, the file, and an event about the schedule as it is then.
abbrev pub write_back :
    ℕ → (Schedule → Schedule) → (Schedule → ScheduleEvent) → ScheduleStore → ScheduleStore
write_back id f event s = elim (get id s.inner) [
  | none ↦ s
  | some old ↦ send (event (f old)) (persist (record s { inner = adjust id f s.inner }))
]

abbrev pub updated : Schedule → ScheduleEvent
updated s = schedule_updated (to_view s)

abbrev pub updated_by : ℕ → (Schedule → Schedule) → Schedule → Schedule
updated_by now f t = record (f t) { updated_at = now }

unfoldable pub update :
    ℕ → ℕ → (Schedule → Schedule) → ScheduleStore → ScheduleStore × Option Schedule
update now id f s =
    (write_back id (updated_by now f) updated s, Option.map (updated_by now f) (get id s.inner))

unfoldable pub delete : ℕ → ScheduleStore → ScheduleStore × Bool
delete id s =
    if is_some (get id s.inner)
    then (persist (record s { inner = remove id s.inner }), true)
    else (s, false)

unfoldable pub after_success : ℕ → Schedule → Schedule
after_success now t = record t {
  consecutive_failures = 0;
  last_error = none;
  last_error_at = none;
  cooldown_until = none;
  updated_at = now;
}

unfoldable pub record_success : ℕ → ℕ → ScheduleStore → ScheduleStore
record_success now id s = write_back id (after_success now) updated s

-- The counter is a `u32`.
unfoldable pub after_failure : ℕ → Bytes → Schedule → Schedule
after_failure now error t =
    let failures = (t.consecutive_failures + 1) % u32_limit in
    record t {
      consecutive_failures = failures;
      last_error = some error;
      last_error_at = some now;
      cooldown_until = some (now + cooldown_minutes failures * one_minute);
      updated_at = now;
    }

unfoldable pub record_failure : ℕ → ℕ → Bytes → ScheduleStore → ScheduleStore
record_failure now id error s = write_back id (after_failure now error) updated s

unfoldable pub reset_errors : ℕ → ℕ → ScheduleStore → ScheduleStore × Bool
reset_errors now id s = (write_back id (after_success now) updated s, is_some (get id s.inner))

abbrev u64_limit : ℕ
u64_limit = 2 ^ 64

-- No event is sent.
abbrev pub write_quietly : ℕ → (Schedule → Schedule) → ScheduleStore → ScheduleStore
write_quietly id f s = elim (get id s.inner) [
  | none ↦ s
  | some old ↦ persist (record s { inner = adjust id f s.inner })
]

unfoldable pub after_usage : ℕ → ℕ → ℕ → Schedule → Schedule
after_usage now input_tokens output_tokens t = record t {
  total_input_tokens = (t.total_input_tokens + input_tokens) % u64_limit;
  total_output_tokens = (t.total_output_tokens + output_tokens) % u64_limit;
  total_runs = (t.total_runs + 1) % u64_limit;
  updated_at = now;
}

unfoldable pub add_usage : ℕ → ℕ → ℕ → ℕ → ScheduleStore → ScheduleStore
add_usage now id input_tokens output_tokens s =
    write_quietly id (after_usage now input_tokens output_tokens) s

unfoldable pub with_states : ℕ → Map Bytes SourceState → Schedule → Schedule
with_states now states t = record t { source_states = states; updated_at = now }

unfoldable pub update_source_states : ℕ → ℕ → Map Bytes SourceState → ScheduleStore → ScheduleStore
update_source_states now id states s = write_quietly id (with_states now states) s

abbrev is_some_and : (ℕ → Bool) → Option ℕ → Bool
is_some_and p none = false
is_some_and p (some t) = p t

abbrev is_none_or : (ℕ → Bool) → Option ℕ → Bool
is_none_or p none = true
is_none_or p (some t) = p t

-- The filter of `due_schedules`.
unfoldable pub is_due : ℕ → Schedule → Bool
is_due now t =
    t.enabled
    && (is_some_and (λ next. leb next now) t.next_run_at
        && is_none_or (λ cu. leb cu now) t.cooldown_until)

unfoldable pub due_schedules : ℕ → ScheduleStore → List Schedule
unfolding values is_due
due_schedules now s = keep_if (is_due now) (values s.inner)

module _ (c : Calendar) where
  unfoldable pub with_next_run : ℕ → Schedule → Schedule
  with_next_run now t = record t { next_run_at = cron_next_tz c t.cron now (parse_tz c t.timezone) }

  unfoldable pub insert_schedule : ℕ → Schedule → ScheduleStore → ScheduleStore × Schedule
  insert_schedule now schedule s =
      let t = if schedule.enabled then with_next_run now schedule else schedule in
      (send (updated t) (persist (record s { inner = insert t.id t s.inner })), t)

  unfoldable pub after_run : ℕ → ℕ → Schedule → Schedule
  unfolding with_next_run
  after_run now run_id t = record (with_next_run now t) {
    last_run_id = some run_id;
    last_run_at = some now;
    updated_at = now;
  }

  unfoldable pub record_run : ℕ → ℕ → ℕ → ScheduleStore → ScheduleStore
  record_run now id run_id s =
      write_back id (after_run now run_id) (λ (t : Schedule). schedule_run_started id run_id) s
