-- ===== src/Schedules/Backoff.antt =====
-- The back-off after failures: `cooldown_minutes` of
-- crates/gateway/src/runtime/schedules/model.rs, with the store that applies it.
use serial_agent.Prelude.{
  ℕ, suc, ◌+◌, ◌-◌, ◌*◌, ◌^◌, ◌%◌, ◌≤◌, ◌<◌, ◌≡◌, refl, ap, subst, ◌∙◌, ◌↔◌, true, none, some,
  arith, min, dec_le, Bytes, List, [], ◌∷◌, length, nat_eq,
}
use native.Mathlib.Nat.{pow-le-pow_right}
use serial_agent.Strings.{u32_limit}
use serial_agent.Schedules.{Schedule, cooldown_minutes, max_cooldown_minutes}
use serial_agent.Schedules.Cron.{one_minute}
use serial_agent.Schedules.Store.{
  ScheduleStore, updated, is_due, after_failure, record_failure, get_schedule,
}
use serial_agent.Schedules.Writes.{get-write_back_self}

-- The bound on the exponent changes nothing below the cap.
cooldown_minutes_lem : (n : ℕ) → cooldown_minutes (suc n) ≡ min (2 ^ n) max_cooldown_minutes
unfolding cooldown_minutes
cooldown_minutes_lem n = elim (dec_le n 20) [
  | yes small ↦ let e : min (suc n - 1) 20 ≡ n = omega arith in rw e (ground arith)
  | no large ↦
      let e : min (suc n - 1) 20 ≡ 20 = omega arith in
      let big : 2 ^ 20 ≤ 2 ^ n =
        pow-le-pow_right {n = 2} (omega arith) {i = 20} {j = n} (omega arith) in
      rw e (ground (arith, big))
]

-- The runs of a schedule that fail, one after the other: when, and with which error.
abbrev pub fail_all : ℕ → List (ℕ × Bytes) → ScheduleStore → ScheduleStore
fail_all id [] st = st
fail_all id (failed ∷ failures) st = fail_all id failures (record_failure failed.0 id failed.1 st)

get-record_failure :
    (now id : ℕ) (error : Bytes) (st : ScheduleStore) (t : Schedule)
    → get_schedule id st ≡ some t
    → get_schedule id (record_failure now id error st) ≡ some (after_failure now error t)
unfolding get_schedule record_failure
get-record_failure now id error st t there =
    get-write_back_self id (after_failure now error) updated st t there

-- What `n` failures in a row make of a schedule that had none.
record Failed (n : ℕ) (t after : Schedule) : Type 0 where
  counted : after.consecutive_failures ≡ n
  same_switch : after.enabled ≡ t.enabled
  same_window : after.next_run_at ≡ t.next_run_at

after_failure-Failed :
    (n now : ℕ) (error : Bytes) (t after : Schedule)
    → n + 1 < u32_limit
    → Failed n t after
    → Failed (n + 1) t (after_failure now error after)
unfolding after_failure
after_failure-Failed n now error t after room f = record {
  counted = omega (arith, f.counted);
  same_switch = f.same_switch;
  same_window = f.same_window;
}

fail_all-Failed :
    (id n : ℕ) (failures : List (ℕ × Bytes)) (st : ScheduleStore) (t before : Schedule)
    → get_schedule id st ≡ some before
    → Failed n t before
    → n + length failures < u32_limit
    → (after : Schedule) × ((get_schedule id (fail_all id failures st) ≡ some after)
        × Failed (n + length failures) t after)
fail_all-Failed id n [] st t before there f room =
    (before, (there, subst (λ k. Failed k t before) (omega arith) f))
fail_all-Failed id n (failed ∷ failures) st t before there f room =
    let (after, (found, g)) =
      fail_all-Failed id (n + 1) failures (record_failure failed.0 id failed.1 st) t
        (after_failure failed.0 failed.1 before)
        (get-record_failure failed.0 id failed.1 st before there)
        (after_failure-Failed n failed.0 failed.1 t before (omega arith) f) (omega arith) in
    (after, (found, subst (λ k. Failed k t after) (omega arith) g))

due-Failed :
    (n now later : ℕ) (error : Bytes) (t before : Schedule)
    → Failed n t before
    → n + 1 < u32_limit
    → (is_due later (after_failure now error before) ≡ true) ↔ (
        (is_due later (record t { cooldown_until = none }) ≡ true)
        × (now + min (2 ^ n) max_cooldown_minutes * one_minute ≤ later))
unfolding is_due after_failure
due-Failed n now later error t before f room =
    let count : (before.consecutive_failures + 1) % u32_limit ≡ suc n = omega (arith, f.counted) in
    let wait = ap cooldown_minutes count ∙ cooldown_minutes_lem n in
    rw (f.same_switch, f.same_window, wait) (ground arith)

-- After a first failure and `n` more in a row, the last one at `now`, it is due from the minute on
-- that lies min(2^n, 1440) minutes later, as long as the count fits a `u32`.
pub due-fail_all :
    (id now later : ℕ) (error : Bytes) (failures : List (ℕ × Bytes)) (st : ScheduleStore)
    (t : Schedule)
    → get_schedule id st ≡ some t
    → t.consecutive_failures ≡ 0
    → length failures + 1 < u32_limit
    → (after : Schedule) × ((get_schedule id (record_failure now id error (fail_all id failures st))
          ≡ some after)
        × ((after.consecutive_failures ≡ length failures + 1)
            × ((is_due later after ≡ true) ↔ (
                (is_due later (record t { cooldown_until = none }) ≡ true)
                × (now + min (2 ^ length failures) max_cooldown_minutes * one_minute ≤ later)))))
due-fail_all id now later error failures st t there none_yet room =
    let (before, (found, f)) =
      fail_all-Failed id 0 failures st t t there
        (record { counted = none_yet; same_switch = refl; same_window = refl }) (omega arith) in
    let f' = subst (λ k. Failed k t before) (omega arith) f in
    let g = after_failure-Failed (length failures) now error t before room f' in
    (
      after_failure now error before,
      (
        get-record_failure now id error (fail_all id failures st) before found,
        (g.counted, due-Failed (length failures) now later error t before f' room),
      ),
    )
