-- ===== src/Schedules/RunTests.antt =====
-- The store and the runner of the schedules at concrete inputs.
use serial_agent.Prelude.{
  insert, adjust, subst, ap, unwrap_or, ℕ, ◌+◌, ◌-◌, ◌*◌, ◌^◌, ◌≤◌, ◌≡◌, ◌≢◌, ◌↔◌, refl, min, true,
  none, some, [], ◌∷◌, Bytes, bytes, get, nat_eq, arith, length,
}
use serial_agent.Strings.{split_whitespace}
use serial_agent.Schedules.{Schedule, skip, max_cooldown_minutes}
use serial_agent.Schedules.Cron.{
  cron_field_matches, cron_matches_naive, cron_next_tz, first_candidate, search_minutes, occurrence,
  parse_tz, one_minute,
}
use serial_agent.Schedules.Expression.{Fits}
use serial_agent.Schedules.Store.{
  ScheduleStore, new_store, load, write_file, snapshot, values, persist, send, insert_schedule,
  get_schedule, record_failure, after_failure, is_due, after_run,
}
use serial_agent.Schedules.Runner.{RunnerState, missed_window_count, count_windows, fire, in_flight}
use serial_agent.Schedules.Skip.{Skips, ticks, ticks-Skips}
use serial_agent.Schedules.Overlap.{IsSecondPass}
use serial_agent.Schedules.Repeats.{rounds, run_again}
use serial_agent.Schedules.Backoff.{fail_all, due-fail_all}
use serial_agent.Schedules.Slots.{fire_lem}
use serial_agent.Schedules.Calls.{inserting, failing, apply}
use serial_agent.Schedules.Reload.{
  Steps, changing, beginning, ending, still, then_, start, get_schedule-new_store,
}
use serial_agent.Schedules.Examples.{
  one_hour, change, toy, toy_autumn, schedule, off, kept, toy_json, store_of, runner_of, no_states,
  always, eager, to_text,
}

abbrev skipper : Schedule
skipper = schedule skip (some 0)

skipper-Skips : Skips toy 180000 skipper
unfolding missed_window_count count_windows cron_next_tz search_minutes occurrence
    cron_matches_naive first_candidate parse_tz split_whitespace cron_field_matches
skipper-Skips = record { policy = refl; missed = omega arith }

ticks-Skips_example :
    (ticks toy no_states (λ n. n) (180000 ∷ 210000 ∷ []) (runner_of skipper)).started ≡ []
ticks-Skips_example =
    ticks-Skips toy no_states (λ n. n) 180000 skipper (180000 ∷ 210000 ∷ []) (runner_of skipper)
      refl skipper-Skips (omega arith, (omega arith, tt))

-- 08:30:10 UTC, in the second pass of the hour from 09:00 to 10:00.
abbrev second_pass : ℕ
second_pass = change + 1810000

abbrev every_minute_Fits : Fits always
every_minute_Fits = record { minutes = tt; hours = tt; days = tt; months = tt; weekdays = tt }

abbrev ran_once : RunnerState
ran_once = runner_of (after_run toy_autumn second_pass 3 eager)

at_second_pass : IsSecondPass toy_autumn always (bytes "UTC") second_pass
unfolding parse_tz first_candidate
at_second_pass = record {
  u = 7 * one_hour + 1860000;
  v = 8 * one_hour + 1860000;
  twice = refl;
  said = refl;
  gone = omega arith;
}

half_a_minute_later : IsSecondPass toy_autumn always (bytes "UTC") (second_pass + 30000)
unfolding parse_tz first_candidate
half_a_minute_later = record {
  u = 7 * one_hour + 1860000;
  v = 8 * one_hour + 1860000;
  twice = refl;
  said = refl;
  gone = omega arith;
}

run_again_example :
    length
      (rounds toy_autumn no_states
        (λ n. n)
        always
        every_minute_Fits
        (bytes "UTC")
        7
        2
        ((second_pass + 30000) ∷ (second_pass + 60000) ∷ [])
        ran_once).started
    ≡ 0 + 2
unfolding get after_run in_flight
run_again_example =
    run_again toy_autumn no_states (λ n. n) always every_minute_Fits (bytes "UTC") 7 2 second_pass
      ((second_pass + 30000) ∷ (second_pass + 60000) ∷ []) ran_once
      (at_second_pass, omega arith, (half_a_minute_later, omega arith, tt))
      (record {
        t = eager;
        steady = record {
          named = refl;
          cron = refl;
          timezone = refl;
          enabled = refl;
          cool = refl;
          policy = refl;
          limit = refl;
        };
        run_id = 3;
        only = refl;
        free = omega arith;
      })

due-fail_all_example :
    (after : Schedule) × ((get_schedule 7 (
          record_failure 9000 7
            (bytes "x")
            (fail_all 7 ((1000, bytes "y") ∷ (5000, bytes "z") ∷ []) (store_of eager)))
        ≡ some after)
      × ((after.consecutive_failures ≡ 2 + 1)
          × ((is_due 300000 after ≡ true) ↔ (
              (is_due 300000 (record eager { cooldown_until = none }) ≡ true)
              × (9000 + min (2 ^ 2) max_cooldown_minutes * one_minute ≤ 300000)))))
unfolding get_schedule get
due-fail_all_example =
    due-fail_all 7 9000 300000 (bytes "x") ((1000, bytes "y") ∷ (5000, bytes "z") ∷ [])
      (store_of eager) eager refl refl (omega arith)

fire_lem_example :
    let after = fire toy no_states (λ n. n) 9000 5 eager (runner_of eager) in
    let starts = min 5 (2 - in_flight 7 []) in
    (length after.started ≡ 0 + starts)
    × ((in_flight 7 after.guard ≡ in_flight 7 [] + starts)
        × (eager.id ≢ 8 → in_flight 8 after.guard ≡ in_flight 8 []))
fire_lem_example = fire_lem toy no_states (λ n. n) 9000 5 8 eager (runner_of eager)

-- A schedule is added and fails before the file of the first call is written, and both files are
-- written at once.
abbrev empty_store : ScheduleStore
empty_store = new_store toy_json none true

abbrev added : ScheduleStore
added = record empty_store { inner = (apply toy (inserting 0 off) empty_store).inner }

abbrev changed : ScheduleStore
changed = record added { inner = (apply toy (failing 5 7 (bytes "x")) added).inner }

abbrev text : Bytes
text = bytes "[s]"

overlapping :
    Steps toy
      (start toy toy_json to_text)
      (record { store = write_file text (write_file text changed); pending = 0; writing = [] })
unfolding new_store load insert_schedule record_failure after_failure snapshot values persist
    write_file send get insert adjust
overlapping =
    then_
      (then_
        (then_
          (then_
            (then_ (then_ still (changing (inserting 0 off) tt refl))
              (changing (failing 5 7 (bytes "x")) tt refl))
            (beginning text refl))
          (beginning text refl))
        (ending (text ∷ []) [] text))
      (ending [] [] text)

get_schedule-new_store_example :
    get_schedule 7 (new_store toy_json (write_file text (write_file text changed)).disk true)
    ≡ get_schedule 7 (write_file text (write_file text changed))
unfolding new_store load insert_schedule record_failure after_failure snapshot values persist
    write_file send get insert adjust
get_schedule-new_store_example =
    get_schedule-new_store toy toy_json to_text
      (record { store = write_file text (write_file text changed); pending = 0; writing = [] }) 7
      overlapping refl refl
      (λ t e. subst (λ u. toy_json.from_str u ≡ some (kept ∷ [])) (ap (λ o. unwrap_or o []) e) refl)
