-- ===== src/Schedules/Runner.antt =====
-- crates/gateway/src/runtime/schedule_runner.rs: the slots of a schedule, the windows that were
-- missed, and one tick. A run that is started is recorded in the store; what its turn does comes
-- later, and frees its slot.
use serial_agent.Prelude.{
  ℕ, zero, suc, ◌+◌, ◌-◌, min, Bool, true, false, Option, none, some, List, [], ◌∷◌, ◌++◌,
  if◌then◌else◌, ltb, leb, eqb, Bytes, nat_eq, Map, get, insert, unwrap_or, length,
}
use serial_agent.Schedules.{Schedule, SourceState, MissedPolicy, skip, run_once, catch_up}
use serial_agent.Schedules.Cron.{Calendar, parse_tz, cron_next_tz}
use serial_agent.Schedules.Store.{
  ScheduleStore, update, update_source_states, record_run, due_schedules, with_next_run,
}

-- The counters are `u32`s, shared with the runs that hold a slot.
abbrev pub ConcurrencyGuard : Type 0
ConcurrencyGuard = Map ℕ ℕ

unfoldable pub in_flight : ℕ → ConcurrencyGuard → ℕ
in_flight id g = unwrap_or (get id g) 0

unfoldable pub try_acquire : ℕ → ℕ → ConcurrencyGuard → ConcurrencyGuard × Bool
unfolding in_flight
try_acquire id max g =
    if ltb (in_flight id g) max
    then (insert id (in_flight id g + 1) g, true)
    else (insert id (in_flight id g) g, false)

-- `fetch_sub` goes round at 0.
unfoldable pub lower : ℕ → ℕ
lower n = if eqb n 0 then 4294967295 else n - 1

unfoldable pub release : ℕ → ConcurrencyGuard → ConcurrencyGuard
unfolding lower
release id g = elim (get id g) [ none ↦ g | some n ↦ insert id (lower n) g ]

-- The loop of `missed_window_count` over a search for the next window; `fuel` bounds its rounds.
unfoldable pub count_windows : (ℕ → Option ℕ) → ℕ → ℕ → ℕ → ℕ → ℕ → ℕ
count_windows next now max_catchup zero count cursor = count
count_windows next now max_catchup (suc fuel) count cursor = elim (next cursor) [
  | none ↦ count
  | some window ↦
      let more = count_windows next now max_catchup fuel (count + 1) window in
      if leb window now then (if ltb max_catchup (count + 1) then count + 1 else more) else count
]

-- The loop stops after `max_catchup + 1` windows.
unfoldable pub missed_window_count : (ℕ → Option ℕ) → Option ℕ → ℕ → ℕ → ℕ
missed_window_count next none now max_catchup = 1
missed_window_count next (some anchor) now max_catchup =
    count_windows next now max_catchup (max_catchup + 1) 0 anchor

unfoldable pub fired : MissedPolicy → ℕ → ℕ → ℕ
fired skip missed max_catchup = if ltb 1 missed then 0 else missed
fired run_once missed max_catchup = min missed 1
fired catch_up missed max_catchup = min missed max_catchup

unfoldable pub runs_to_fire : MissedPolicy → (ℕ → Option ℕ) → Option ℕ → ℕ → ℕ → ℕ
unfolding missed_window_count fired
runs_to_fire policy next last_run_at now max_catchup =
    fired policy (missed_window_count next last_run_at now max_catchup) max_catchup

-- The store, the slots, and the runs that were started: the schedule and the run id.
pub record RunnerState : Type 0 where
  pub store : ScheduleStore
  pub guard : ConcurrencyGuard
  pub started : List (ℕ × ℕ)

module _ (c : Calendar) where
  abbrev pub next_of : Schedule → ℕ → Option ℕ
  next_of s after = cron_next_tz c s.cron after (parse_tz c s.timezone)

  unfoldable pub runs_due : ℕ → Schedule → ℕ
  unfolding runs_to_fire
  runs_due now s = runs_to_fire s.missed_policy (next_of s) s.last_run_at now s.max_catchup_runs

abbrev pub no_sources : List Bytes → Bool
no_sources [] = true
no_sources (url ∷ urls) = false

-- The fetch of the sources, with what is to be kept about them, and the fresh run ids are
-- parameters; `clock` is the time of `record_run`.
module _ (c : Calendar) (new_states : Schedule → Map Bytes SourceState) (new_id : ℕ → ℕ) where
  unfoldable pub spawn_run : ℕ → Schedule → RunnerState → RunnerState
  spawn_run clock s r =
      let run_id = new_id (length r.started) in
      let fetched =
        if no_sources s.sources
        then r.store
        else update_source_states clock s.id (new_states s) r.store in
      record r {
        store = record_run c clock s.id run_id fetched;
        started = r.started ++ (s.id, run_id) ∷ [];
      }

  -- The inner loop of `tick`: it stops at the first slot that is not there.
  unfoldable pub fire : ℕ → ℕ → Schedule → RunnerState → RunnerState
  unfolding try_acquire spawn_run
  fire clock zero s r = r
  fire clock (suc n) s r =
      let (guard, granted) = try_acquire s.id s.max_concurrency r.guard in
      let held = record r { guard = guard } in
      let more = fire clock n s (spawn_run clock s held) in if granted then more else held

  unfoldable pub visit_due : ℕ → Schedule → RunnerState → RunnerState
  unfolding fire runs_due
  visit_due now s r =
      if eqb (runs_due c now s) 0
      then record r { store = (update now s.id (with_next_run c now) r.store).0 }
      else fire now (runs_due c now s) s r

  unfoldable pub visit_all : ℕ → List Schedule → RunnerState → RunnerState
  unfolding visit_due
  visit_all now [] r = r
  visit_all now (s ∷ due) r = visit_all now due (visit_due now s r)

  unfoldable pub tick : ℕ → RunnerState → RunnerState
  unfolding visit_all
  tick now r = visit_all now (due_schedules now r.store) r
