-- ===== src/Sessions/Boundary.antt =====
-- crates/sessions/src/lifecycle.rs: the daily boundary next to days counted from the epoch, and the
-- checks as time goes on.
use serial_agent.Prelude.{
  ℕ, ◌+◌, ◌-◌, ◌*◌, ◌/◌, ◌≤◌, ◌<◌, ◌≡◌, ◌↔◌, refl, arith, true, false, Option, none, some, leb,
  Bool-cases, inl, inr, dec_lt,
}
use serial_agent.Sessions.{InboundMetadata}
use serial_agent.Sessions.Lifecycle.{
  LifecycleConfig, day, hour_ms, crossed_daily_boundary, idle_over, check_daily, check_idle,
  resolve_params, should_reset,
}

-- A reset hour of some day lies after the last message and not after the new one.
abbrev pub IsCrossed : ℕ → ℕ → ℕ → Type 0
IsCrossed last_active now hour =
    (d : ℕ) × (last_active < d * day + hour * hour_ms) × (d * day + hour * hour_ms ≤ now)

there :
    (last_active now hour d : ℕ)
    → hour < 24
    → last_active < d * day + hour * hour_ms
    → d * day + hour * hour_ms ≤ now
    → 60 ≤ (now - last_active) / 1000
    → crossed_daily_boundary last_active now hour ≡ true
unfolding crossed_daily_boundary
there last_active now hour d small after before age = ground arith

back :
    (last_active now hour : ℕ)
    → hour < 24
    → crossed_daily_boundary last_active now hour ≡ true
    → (60 ≤ (now - last_active) / 1000) × IsCrossed last_active now hour
unfolding crossed_daily_boundary
back last_active now hour small h = elim (Bool-cases (leb (now / day * day + hour * hour_ms) now)) [
  | inl passed ↦ (ground arith, (now / day, ground arith, ground arith))
  | inr ahead ↦ (ground arith, (now / day - 1, ground arith, ground arith))
]

-- For a valid hour the test says exactly whether a minute has passed and a reset hour of some day
-- lies after the last message and not after the new one.
pub crossed_daily_boundary_iff :
    (last_active now hour : ℕ)
    → hour < 24
    → (crossed_daily_boundary last_active now hour ≡ true)
      ↔ ((60 ≤ (now - last_active) / 1000) × IsCrossed last_active now hour)
crossed_daily_boundary_iff last_active now hour small =
    (back last_active now hour small, λ h. there last_active now hour h.1.0 small h.1.1 h.1.2 h.0)

bad_hour :
    (last_active now hour : ℕ) → 24 ≤ hour → crossed_daily_boundary last_active now hour ≡ false
unfolding crossed_daily_boundary
bad_hour last_active now hour large = ground arith

crossed_stays :
    (last_active now later hour : ℕ)
    → now ≤ later
    → crossed_daily_boundary last_active now hour ≡ true
    → crossed_daily_boundary last_active later hour ≡ true
crossed_stays last_active now later hour le h = elim (dec_lt hour 24) [
  | yes small ↦
      let (age, (d, after, before)) = back last_active now hour small h in
      there last_active later hour d small after (omega arith) (omega arith)
  | no large ↦ absurd (ground (arith, bad_hour last_active now hour (omega arith)))
]

idle_stays :
    (last_active now later idle : ℕ)
    → now ≤ later
    → idle_over last_active now idle ≡ true
    → idle_over last_active later idle ≡ true
unfolding idle_over
idle_stays last_active now later idle le h = ground arith

check_daily-stays :
    (params : Option ℕ × Option ℕ) (last_active now later : ℕ)
    → now ≤ later
    → check_daily params last_active later ≡ none
    → check_daily params last_active now ≡ none
unfolding check_daily check_idle
check_daily-stays (none, none) last_active now later le h = refl
check_daily-stays (none, some idle) last_active now later le h =
    ground (arith, idle_stays last_active now later idle le)
check_daily-stays (some hour, none) last_active now later le h =
    ground (arith, crossed_stays last_active now later hour le)
check_daily-stays (some hour, some idle) last_active now later le h =
    ground
      (arith, crossed_stays last_active now later hour le, idle_stays last_active now later idle le)

-- A session that a message at some time would not start anew, no message before that time would.
pub should_reset-earlier :
    (config : LifecycleConfig) (updated_at now later : ℕ) (meta : InboundMetadata)
    → now ≤ later
    → should_reset config updated_at meta later ≡ none
    → should_reset config updated_at meta now ≡ none
unfolding should_reset
should_reset-earlier config updated_at now later meta le h =
    check_daily-stays (resolve_params config meta) updated_at now later le h
