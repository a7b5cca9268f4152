-- ===== src/Schedules/Validation.antt =====
-- The checks of cron expressions and time zones in
-- crates/gateway/src/runtime/schedules/validation.rs. An error message is a constructor with the
-- values that the message shows.
use serial_agent.Prelude.{
  ℕ, Bool, ◌||◌, Option, none, some, List, [], ◌∷◌, if◌then◌else◌, Bytes, bytes, bytes_beq, eqb,
  ltb, length, is_some,
}
use serial_agent.Strings.{parse_u32, split_on, split_once, strip_prefix, split_whitespace}
use serial_agent.Schedules.Cron.{Calendar}

pub data CronError : Type 0 where
  field_count : ℕ → CronError
  invalid_step : Bytes → Bytes → CronError
  step_out_of_range : Bytes → ℕ → ℕ → CronError
  invalid_range_start : Bytes → Bytes → CronError
  invalid_range_end : Bytes → Bytes → CronError
  range_out_of_bounds : Bytes → ℕ → ℕ → ℕ → ℕ → CronError
  start_after_end : Bytes → ℕ → ℕ → CronError
  invalid_value : Bytes → Bytes → CronError
  value_out_of_range : Bytes → ℕ → ℕ → ℕ → CronError

pub data Verdict : Type 0 where
  valid : Verdict
  invalid : CronError → Verdict

-- `?` between two checks.
infixl 5 ◌>>◌
abbrev pub ◌>>◌ : Verdict → Verdict → Verdict
valid >> next = next
invalid e >> next = invalid e

module _ (name : Bytes) (low high : ℕ) where
  abbrev check_range : Bytes → Bytes → Option ℕ → Option ℕ → Verdict
  check_range start_s end_s none last = invalid (invalid_range_start name start_s)
  check_range start_s end_s (some first) none = invalid (invalid_range_end name end_s)
  check_range start_s end_s (some first) (some last) =
      if ltb first low || (ltb high first || (ltb last low || ltb high last))
      then invalid (range_out_of_bounds name first last low high)
      else if ltb last first
      then invalid (start_after_end name first last)
      else valid

  abbrev check_value : Bytes → Option ℕ → Verdict
  check_value part none = invalid (invalid_value name part)
  check_value part (some n) =
      if ltb n low || ltb high n then invalid (value_out_of_range name n low high) else valid

  abbrev check_split : Bytes → Option (Bytes × Bytes) → Verdict
  check_split part (some (start_s, end_s)) =
      check_range start_s end_s (parse_u32 start_s) (parse_u32 end_s)
  check_split part none = check_value part (parse_u32 part)

  unfoldable pub check_part : Bytes → Verdict
  check_part part = check_split part (split_once 45 part)

  unfoldable pub check_parts : List Bytes → Verdict
  unfolding check_part
  check_parts [] = valid
  check_parts (part ∷ parts) = check_part part >> check_parts parts

  abbrev check_step : Bytes → Option ℕ → Verdict
  check_step step none = invalid (invalid_step name step)
  check_step step (some n) =
      if eqb n 0 || ltb high n then invalid (step_out_of_range name n high) else valid

  abbrev step_or_parts : Bytes → Option Bytes → Verdict
  step_or_parts field (some step) = check_step step (parse_u32 step)
  step_or_parts field none = check_parts (split_on 44 field)

  unfoldable pub validate_cron_field : Bytes → Verdict
  unfolding check_parts
  validate_cron_field field =
      if bytes_beq field (bytes "*")
      then valid
      else step_or_parts field (strip_prefix (bytes "*/") field)

abbrev pub five_fields : List Bytes → Verdict
five_fields (a ∷ b ∷ d ∷ m ∷ w ∷ []) =
    validate_cron_field (bytes "minute") 0 59 a
    >> validate_cron_field (bytes "hour") 0 23 b
    >> validate_cron_field (bytes "day-of-month") 1 31 d
    >> validate_cron_field (bytes "month") 1 12 m
    >> validate_cron_field (bytes "day-of-week") 0 6 w
five_fields fields = invalid (field_count (length fields))

unfoldable pub validate_cron : Bytes → Verdict
unfolding validate_cron_field
validate_cron cron = five_fields (split_whitespace cron)

unfoldable pub validate_timezone : Calendar → Bytes → Bool
validate_timezone c tz = is_some (c.parse_zone tz)
