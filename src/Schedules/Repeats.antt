-- ===== src/Schedules/Repeats.antt =====
-- The ticks of the runner in the second pass of an hour that the clocks go through twice
-- (crates/gateway/src/runtime/schedule_runner.rs, schedules/cron.rs and schedules/store.rs).
use serial_agent.Prelude.{
  ℕ, ◌+◌, ◌-◌, ◌≤◌, ◌<◌, ◌≡◌, refl, sym, subst, ap, ◌∙◌, inl, inr, true, some, List, [], ◌∷◌, arith,
  eqb, ltb, nat_eq, Map, get, adjust, keep_if, Bytes, Bool-cases, length,
}
use serial_agent.Schedules.{Schedule, SourceState, ScheduleEvent, schedule_run_started}
use serial_agent.Schedules.Cron.{Calendar}
use serial_agent.Schedules.Expression.{Expression, Fits}
use serial_agent.Schedules.Store.{
  ScheduleStore, values, is_due, due_schedules, write_back, write_quietly, update_source_states,
  with_states, record_run, record_success, after_run, after_success, updated,
}
use serial_agent.Schedules.Writes.{inner-write_back, inner-persist}
use serial_agent.Schedules.Runner.{
  RunnerState, runs_due, in_flight, try_acquire, release, no_sources, spawn_run, fire, visit_due,
  visit_all, tick,
}
use serial_agent.Schedules.Slots.{fire_lem, release_lem}
use serial_agent.Schedules.Overlap.{Steady, IsSecondPass, due_again, after_run-Steady}

-- The store holds this schedule and no other.
abbrev pub Only : Schedule → ScheduleStore → Type 0
Only t s = s.inner ≡ (t.id, t) ∷ []

adjust-Only :
    (t : Schedule) (f : Schedule → Schedule) → adjust t.id f ((t.id, t) ∷ []) ≡ (t.id, f t) ∷ []
unfolding adjust
adjust-Only t f = let self : eqb t.id t.id ≡ true = ground arith in rw self refl

get-Only : (t : Schedule) (s : ScheduleStore) → Only t s → get t.id s.inner ≡ some t
unfolding get
get-Only t s only =
    let self : eqb t.id t.id ≡ true = ground arith in ap (get t.id) only ∙ rw self refl

inner-write_back-Only :
    (t : Schedule) (f : Schedule → Schedule) (event : Schedule → ScheduleEvent) (s : ScheduleStore)
    → Only t s
    → (write_back t.id f event s).inner ≡ (t.id, f t) ∷ []
inner-write_back-Only t f event s only =
    inner-write_back t.id f event s t (get-Only t s only)
    ∙ ap (adjust t.id f) only
    ∙ adjust-Only t f

inner-write_quietly-Only :
    (t : Schedule) (f : Schedule → Schedule) (s : ScheduleStore)
    → Only t s
    → (write_quietly t.id f s).inner ≡ (t.id, f t) ∷ []
inner-write_quietly-Only t f s only =
    rw (get-Only t s only, write_quietly)
      (inner-persist (record s { inner = adjust t.id f s.inner })
        ∙ ap (adjust t.id f) only
        ∙ adjust-Only t f)

module _ (c : Calendar) (new_states : Schedule → Map Bytes SourceState) (new_id : ℕ → ℕ)
    (e : Expression) (fits : Fits e) (zone : Bytes) (id max : ℕ) where
  abbrev IsSteady : Schedule → Type 0
  IsSteady = Steady e zone id max

  -- The store holds only a schedule that ran at `last`, and a slot is free.
  pub record IsReady (last : ℕ) (r : RunnerState) : Type 0 where
    pub t : Schedule
    pub steady : IsSteady t
    pub run_id : ℕ
    pub only : Only (after_run c last run_id t) r.store
    pub free : in_flight id r.guard < max

  with_states-Steady :
      (now : ℕ) (states : Map Bytes SourceState) (t : Schedule)
      → IsSteady t
      → IsSteady (with_states now states t)
  unfolding with_states
  with_states-Steady now states t s = record {
    named = s.named;
    cron = s.cron;
    timezone = s.timezone;
    enabled = s.enabled;
    cool = s.cool;
    policy = s.policy;
    limit = s.limit;
  }

  -- What a run leaves in the store.
  abbrev Ran : ℕ → ScheduleStore → Type 0
  Ran now s = (u : Schedule) × (run_id : ℕ) × IsSteady u × Only (after_run c now run_id u) s

  spawn_run-Ran :
      (now : ℕ) (t : Schedule) (r : RunnerState)
      → IsSteady t
      → Only t r.store
      → Ran now (spawn_run c new_states new_id now t r).store
  unfolding spawn_run record_run update_source_states with_states after_run
  spawn_run-Ran now t r s only = elim (Bool-cases (no_sources t.sources)) [
    | inl plain ↦ rw plain (
      t,
      new_id (length r.started),
      s,
      inner-write_back-Only t (after_run c now (new_id (length r.started)))
          (λ u. schedule_run_started t.id (new_id (length r.started))) r.store only,
    )
    | inr fetched ↦
        let u = with_states now (new_states t) t in
        rw fetched (
          u,
          new_id (length r.started),
          with_states-Steady now (new_states t) t s,
          inner-write_back-Only u (after_run c now (new_id (length r.started)))
              (λ v. schedule_run_started t.id (new_id (length r.started))) _
              (inner-write_quietly-Only t (with_states now (new_states t)) r.store only),
        )
  ]

  fire-Ran :
      (now : ℕ) (t : Schedule) (r : RunnerState)
      → IsSteady t
      → Only t r.store
      → in_flight t.id r.guard < t.max_concurrency
      → Ran now (fire c new_states new_id now 1 t r).store
  unfolding fire try_acquire
  fire-Ran now t r s only free =
      let granted : ltb (in_flight t.id r.guard) t.max_concurrency ≡ true = ground (arith, free) in
      let held : RunnerState = record r {
        guard = (try_acquire t.id t.max_concurrency r.guard).0;
      } in
      rw granted (spawn_run-Ran now t held s only)

  tick_fires :
      (t : Schedule) (now : ℕ) (r : RunnerState)
      → Only t r.store
      → is_due now t ≡ true
      → runs_due c now t ≡ 1
      → tick c new_states new_id now r ≡ fire c new_states new_id now 1 t r
  unfolding tick visit_all visit_due due_schedules values
  tick_fires t now r only due one =
      ap (λ m. visit_all c new_states new_id now (keep_if (is_due now) (values m)) r) only
      ∙ rw (due, one) refl

  -- A tick, and the end of the run that it started, with a success.
  abbrev pub round : ℕ → RunnerState → RunnerState
  round now r =
      let after = tick c new_states new_id now r in
      record after { guard = release id after.guard; store = record_success now id after.store }

  abbrev pub rounds : List ℕ → RunnerState → RunnerState
  rounds [] r = r
  rounds (now ∷ times) r = rounds times (round now r)

  record_success-Ran : (now : ℕ) (s : ScheduleStore) → Ran now s → Ran now (record_success now id s)
  unfolding record_success after_success after_run
  record_success-Ran now s (u, run_id, steady, only) = (
    after_success now u,
    run_id,
    record {
      named = steady.named;
      cron = steady.cron;
      timezone = steady.timezone;
      enabled = steady.enabled;
      cool = refl;
      policy = steady.policy;
      limit = steady.limit;
    },
    ap (λ i. (record_success now i s).inner) (sym steady.named)
        ∙ inner-write_back-Only (after_run c now run_id u) (after_success now) updated s only,
  )

  round-IsReady :
      (last now : ℕ) (r : RunnerState)
      → IsSecondPass c e zone last
      → last ≤ now
      → IsReady last r
      → (length (round now r).started ≡ length r.started + 1) × IsReady now (round now r)
  round-IsReady last now r p order h =
      let t = after_run c last h.run_id h.t in
      let steady : IsSteady t = after_run-Steady c e fits zone id max h.t last h.run_id h.steady in
      let (due, one) = due_again c e fits zone id max h.t last h.run_id now h.steady p order in
      let ticked = tick_fires t now r h.only due one in
      let after = tick c new_states new_id now r in
      let (count, (slots, others)) = fire_lem c new_states new_id now 1 id t r in
      let mine : in_flight t.id r.guard ≡ in_flight id r.guard =
        ap (λ i. in_flight i r.guard) steady.named in
      let limit : t.max_concurrency ≡ max = steady.limit in
      let free : in_flight t.id r.guard < t.max_concurrency = omega (arith, h.free, mine, limit) in
      let taken : in_flight id after.guard ≡ in_flight id r.guard + 1 =
        ap (λ (a : RunnerState). in_flight id a.guard) ticked
        ∙ ap (λ i. in_flight i (fire c new_states new_id now 1 t r).guard) (sym steady.named)
        ∙ omega (arith, slots, free, mine) in
      let given : in_flight id (release id after.guard) ≡ in_flight id after.guard - 1 =
        let self : eqb id id ≡ true = ground arith in
        release_lem id id after.guard (omega (arith, taken)) ∙ rw self refl in
      let (u, run_id, kept, only) = record_success-Ran now after.store (
        subst (λ (a : RunnerState). Ran now a.store) (sym ticked)
          (fire-Ran now t r steady h.only free)) in
      (
        ap (λ (a : RunnerState). length a.started) ticked ∙ omega (arith, count, free),
        record {
          t = u;
          steady = kept;
          run_id = run_id;
          only = only;
          free = omega (arith, given, taken, h.free);
        },
      )

  -- The times are in order, and each but the last is in the second pass of an hour.
  abbrev pub AreSecondPass : ℕ → List ℕ → Type 0
  AreSecondPass last [] = Unit
  AreSecondPass last (now ∷ times) =
      IsSecondPass c e zone last × (last ≤ now) × AreSecondPass now times

  -- A schedule, the only one of the store, with the policy of one run for all windows, enabled and
  -- with no cooldown and a free slot, ran at a time whose next local minute the clocks go through
  -- twice, where its expression names that minute and the first of its two times is past. Then each
  -- of the ticks that follow starts one more run of it, as long as the tick before came at such a
  -- time too and each run ends, with a success, before the next tick.
  pub run_again :
      (last : ℕ) (times : List ℕ) (r : RunnerState)
      → AreSecondPass last times
      → IsReady last r
      → length (rounds times r).started ≡ length r.started + length times
  run_again last [] r p h = omega arith
  run_again last (now ∷ times) r p h =
      let (one, ready) = round-IsReady last now r p.0 p.1 h in
      let more = run_again now times (round now r) p.2 ready in omega (arith, one, more)
