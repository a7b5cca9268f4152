-- ===== src/Schedules/Skip.antt =====
-- The policy that drops missed windows, over the ticks of the runner
-- (crates/gateway/src/runtime/schedule_runner.rs).
use serial_agent.Prelude.{
  ℕ, ◌≤◌, ◌<◌, ◌≡◌, refl, ap, ◌∙◌, inl, inr, true, some, List, [], ◌∷◌, arith, eqb, ltb, nat_eq,
  Map, get, adjust, keep_if, All, Bytes, Bool-cases,
}
use serial_agent.Schedules.{Schedule, SourceState, skip}
use serial_agent.Schedules.Cron.{Calendar}
use serial_agent.Schedules.Store.{
  values, is_due, due_schedules, update, updated_by, updated, with_next_run,
}
use serial_agent.Schedules.Writes.{inner-write_back}
use serial_agent.Schedules.Runner.{
  RunnerState, missed_window_count, fired, runs_due, next_of, visit_due, visit_all, tick,
}
use serial_agent.Schedules.Missed.{missed_window_count_mono}

module _ (c : Calendar) where
  -- More than one window was missed at `now`, and the policy is to drop them.
  pub record Skips (now : ℕ) (t : Schedule) : Type 0 where
    pub policy : t.missed_policy ≡ skip
    pub missed : 1 < missed_window_count (next_of c t) t.last_run_at now t.max_catchup_runs

  runs_due-Skips :
      (now later : ℕ) (t : Schedule) → now ≤ later → Skips now t → runs_due c later t ≡ 0
  unfolding runs_due fired
  runs_due-Skips now later t order s =
      let more =
        missed_window_count_mono (next_of c t) t.last_run_at now later t.max_catchup_runs order in
      let m = missed_window_count (next_of c t) t.last_run_at later t.max_catchup_runs in
      let many : ltb 1 m ≡ true = ground (arith, more, s.missed) in
      ap (λ p. fired p m t.max_catchup_runs) s.policy ∙ rw many refl

-- The store holds this schedule and no other.
abbrev pub Alone : Schedule → RunnerState → Type 0
Alone t r = r.store.inner ≡ (t.id, t) ∷ []

module _ (c : Calendar) (new_states : Schedule → Map Bytes SourceState) (new_id : ℕ → ℕ) where
  abbrev Idle : ℕ → RunnerState → RunnerState → Type 0
  Idle now r after =
      (after.started ≡ r.started) × ((t : Schedule) × (Alone t after × Skips c now t))

  visit_due-Idle :
      (now later : ℕ) (t : Schedule) (r : RunnerState)
      → now ≤ later
      → Alone t r
      → Skips c now t
      → Idle now r (visit_due c new_states new_id later t r)
  unfolding visit_due update with_next_run get adjust
  visit_due-Idle now later t r order alone s =
      let self : eqb t.id t.id ≡ true = ground arith in
      let g : Schedule → Schedule = updated_by later (with_next_run c later) in
      let there : get t.id r.store.inner ≡ some t = ap (get t.id) alone ∙ rw self refl in
      let written = inner-write_back t.id g updated r.store t there in
      let one : adjust t.id g ((t.id, t) ∷ []) ≡ (t.id, g t) ∷ [] = rw self refl in
      rw (runs_due-Skips c now later t order s) (
        refl,
        (
          g t,
          (
            written ∙ ap (adjust t.id g) alone ∙ one,
            record { policy = s.policy; missed = s.missed },
          ),
        ),
      )

  tick-Idle :
      (now later : ℕ) (t : Schedule) (r : RunnerState)
      → now ≤ later
      → Alone t r
      → Skips c now t
      → Idle now r (tick c new_states new_id later r)
  unfolding tick visit_all due_schedules values
  tick-Idle now later t r order alone s =
      let due = ap (λ m. keep_if (is_due later) (values m)) alone in
      rw due (elim (Bool-cases (is_due later t)) [
        | inl fires ↦ rw fires (visit_due-Idle now later t r order alone s)
        | inr rests ↦ rw rests (refl, (t, (alone, s)))
      ])

  abbrev pub ticks : List ℕ → RunnerState → RunnerState
  ticks [] r = r
  ticks (now ∷ times) r = ticks times (tick c new_states new_id now r)

  -- Where a schedule with the policy `skip`, the only one of the store, has missed more than one
  -- window, no later tick starts a run, however many ticks there are and whenever they come.
  pub ticks-Skips :
      (now : ℕ) (t : Schedule) (times : List ℕ) (r : RunnerState)
      → Alone t r
      → Skips c now t
      → All (λ later. now ≤ later) times
      → (ticks times r).started ≡ r.started
  ticks-Skips now t [] r alone s order = refl
  ticks-Skips now t (later ∷ times) r alone s order =
      let (same, (u, (alone', s'))) = tick-Idle now later t r order.0 alone s in
      ticks-Skips now u times (tick c new_states new_id later r) alone' s' order.1 ∙ same
