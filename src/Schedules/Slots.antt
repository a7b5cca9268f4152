-- ===== src/Schedules/Slots.antt =====
-- The slots of a schedule and the runs that one visit of it starts, in
-- crates/gateway/src/runtime/schedule_runner.rs.
use serial_agent.Prelude.{
  ℕ, zero, suc, ◌+◌, ◌-◌, ◌<◌, ◌≡◌, ◌≢◌, ◌&&◌, Option-cases, refl, ap, ◌∙◌, inl, inr, min, true, [],
  ◌∷◌, arith, if◌then◌else◌, eqb, eqb_iff, ltb, nat_eq, Map, get, insert, get-insert, length,
  length-append, unwrap_or, Bytes, Bool-cases,
}
use serial_agent.Schedules.{Schedule, SourceState}
use serial_agent.Schedules.Cron.{Calendar}
use serial_agent.Schedules.Runner.{
  ConcurrencyGuard, RunnerState, in_flight, try_acquire, release, lower, fire, spawn_run,
}

in_flight-insert :
    (id j n : ℕ) (g : ConcurrencyGuard)
    → in_flight j (insert id n g) ≡ (if eqb id j then n else in_flight j g)
unfolding in_flight
in_flight-insert id j n g = rw (get-insert id j n g) (ground arith)

-- A slot is taken exactly where one is free, and no other schedule is touched.
try_acquire_lem :
    (id j max : ℕ) (g : ConcurrencyGuard)
    → ((try_acquire id max g).1 ≡ ltb (in_flight id g) max)
      × (in_flight j (try_acquire id max g).0
          ≡ (if eqb id j && ltb (in_flight id g) max then in_flight j g + 1 else in_flight j g))
unfolding try_acquire
try_acquire_lem id j max g = ground (
  arith,
  in_flight-insert id j (in_flight id g + 1) g,
  in_flight-insert id j (in_flight id g) g,
  eqb_iff id j,
)

-- A finished run that held a slot gives it back, and no other.
pub release_lem :
    (id j : ℕ) (g : ConcurrencyGuard)
    → 0 < in_flight id g
    → in_flight j (release id g) ≡ (if eqb id j then in_flight j g - 1 else in_flight j g)
unfolding release lower
release_lem id j g held = elim (Option-cases (get id g)) [
  | inl gone ↦ absurd (unfold in_flight in ground (arith, gone, held))
  | inr (n, there) ↦
      rw (there, release)
        (let held_n : in_flight id g ≡ n = unfold in_flight in ap (λ o. unwrap_or o 0) there in
          ground (arith, in_flight-insert id j (lower n) g, held_n, eqb_iff id j))
]

module _ (c : Calendar) (new_states : Schedule → Map Bytes SourceState) (new_id : ℕ → ℕ) where
  started-spawn_run :
      (clock : ℕ) (s : Schedule) (r : RunnerState)
      → (length (spawn_run c new_states new_id clock s r).started ≡ length r.started + 1)
        × ((spawn_run c new_states new_id clock s r).guard ≡ r.guard)
  unfolding spawn_run
  started-spawn_run clock s r = (length-append r.started ((s.id, _) ∷ []), refl)

  -- A visit that fires `n` runs starts as many as there are free slots and no more than `n`; each
  -- takes a slot of its schedule, and those of the other schedules stay.
  pub fire_lem :
      (clock n j : ℕ) (s : Schedule) (r : RunnerState)
      → let after = fire c new_states new_id clock n s r in
        let starts = min n (s.max_concurrency - in_flight s.id r.guard) in
        (length after.started ≡ length r.started + starts)
        × ((in_flight s.id after.guard ≡ in_flight s.id r.guard + starts)
            × (s.id ≢ j → in_flight j after.guard ≡ in_flight j r.guard))
  unfolding fire
  fire_lem clock zero j s r = (omega arith, (omega arith, λ other. refl))
  fire_lem clock (suc n) j s r =
      let (granted, mine) = try_acquire_lem s.id s.id s.max_concurrency r.guard in
      let theirs = (try_acquire_lem s.id j s.max_concurrency r.guard).1 in
      let self : eqb s.id s.id ≡ true = ground arith in
      let held : RunnerState = record r {
        guard = (try_acquire s.id s.max_concurrency r.guard).0;
      } in
      let next = spawn_run c new_states new_id clock s held in
      let (one_more, kept) = started-spawn_run clock s held in
      let (total, (slots, others)) = fire_lem clock n j s next in
      elim (Bool-cases (ltb (in_flight s.id r.guard) s.max_concurrency)) [
        | inl free ↦
            let now_mine : in_flight s.id next.guard ≡ in_flight s.id r.guard + 1 =
              ap (in_flight s.id) kept ∙ mine ∙ rw (self, free) refl in
            rw (granted ∙ free) (
              ground (arith, total, one_more, now_mine),
              (
                ground (arith, slots, now_mine),
                λ other.
                    others other
                    ∙ ap (in_flight j) kept
                    ∙ theirs
                    ∙ ground (arith, eqb_iff s.id j, other),
              ),
            )
        | inr full ↦
            rw (granted ∙ full)
              (ground arith, (ground (arith, mine), λ other. theirs ∙ ground (arith, full)))
      ]
