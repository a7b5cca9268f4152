-- ===== src/Schedules/Cron.antt =====
-- The matcher and the search of crates/gateway/src/runtime/schedules/cron.rs. The calendar and the
-- time zones are those of chrono and chrono_tz: parameters.
use serial_agent.Prelude.{
  ℕ, zero, suc, ◌+◌, ◌-◌, ◌*◌, ◌%◌, Bool, true, false, ◌&&◌, Option, none, some, List, [], ◌∷◌,
  if◌then◌else◌, Bytes, bytes, bytes_beq, eqb, ltb, leb, any, unwrap_or,
}
use serial_agent.Strings.{parse_u32, split_on, split_once, strip_prefix, split_whitespace}

-- One part between commas: a range, or a number.
abbrev in_range : ℕ → Option ℕ → Option ℕ → Bool
in_range value (some first) (some last) = leb first value && leb value last
in_range value (some first) none = false
in_range value none last = false

abbrev is_value : ℕ → Option ℕ → Bool
is_value value (some n) = eqb value n
is_value value none = false

abbrev part_of : ℕ → Bytes → Option (Bytes × Bytes) → Bool
part_of value part (some (start_s, end_s)) = in_range value (parse_u32 start_s) (parse_u32 end_s)
part_of value part none = is_value value (parse_u32 part)

unfoldable pub part_matches : ℕ → Bytes → Bool
part_matches value part = part_of value part (split_once 45 part)

-- `value.is_multiple_of(n)` with `n > 0`.
abbrev is_step : ℕ → ℕ → Bool
is_step value n = ltb 0 n && eqb (value % n) 0

abbrev step_or_parts : Bytes → ℕ → Option ℕ → Bool
step_or_parts field value (some n) = is_step value n
step_or_parts field value none = any (part_matches value) (split_on 44 field)

abbrev parse_step : Option Bytes → Option ℕ
parse_step (some step) = parse_u32 step
parse_step none = none

unfoldable pub cron_field_matches : Bytes → ℕ → Bool
unfolding part_matches
cron_field_matches field value =
    if bytes_beq field (bytes "*")
    then true
    else step_or_parts field value (parse_step (strip_prefix (bytes "*/") field))

pub data LocalResult : Type 0 where
  single : ℕ → LocalResult
  ambiguous : ℕ → ℕ → LocalResult
  nowhere : LocalResult

-- `chrono_tz::Tz`: the local time of an instant, and the instants of a local time.
pub record Zone : Type 0 where
  pub naive_local : ℕ → ℕ
  pub from_local_datetime : ℕ → LocalResult

-- What is used of chrono: the fields of a naive date and time, and the zones by their names.
pub record Calendar : Type 0 where
  pub second : ℕ → ℕ
  pub minute : ℕ → ℕ
  pub hour : ℕ → ℕ
  pub day : ℕ → ℕ
  pub month : ℕ → ℕ
  pub days_from_sunday : ℕ → ℕ
  pub with_second : ℕ → ℕ → Option ℕ
  pub parse_zone : Bytes → Option Zone
  pub utc : Zone

abbrev pub one_minute : ℕ
one_minute = 60 * 1000

-- One year of minutes.
abbrev pub max_checks : ℕ
max_checks = 366 * 24 * 60

abbrev pub earliest : LocalResult → Option ℕ
earliest (single u) = some u
earliest (ambiguous u v) = some u
earliest nowhere = none

module _ (c : Calendar) where
  unfoldable pub parse_tz : Bytes → Zone
  parse_tz name = unwrap_or (c.parse_zone name) c.utc

  abbrev five_fields : List Bytes → ℕ → Bool
  five_fields (a ∷ b ∷ d ∷ m ∷ w ∷ []) t =
      cron_field_matches a (c.minute t)
      && (cron_field_matches b (c.hour t)
          && (cron_field_matches d (c.day t)
              && (cron_field_matches m (c.month t) && cron_field_matches w (c.days_from_sunday t))))
  five_fields fields t = false

  unfoldable pub cron_matches_naive : Bytes → ℕ → Bool
  cron_matches_naive cron t = five_fields (split_whitespace cron) t

  -- A local minute that matches and exists gives its instant.
  unfoldable pub occurrence : Bytes → Zone → ℕ → Option ℕ
  occurrence cron tz t =
      if cron_matches_naive cron t then earliest (tz.from_local_datetime t) else none

  unfoldable pub search_minutes : Bytes → Zone → ℕ → ℕ → Option ℕ
  search_minutes cron tz zero candidate = none
  search_minutes cron tz (suc checks) candidate = elim (occurrence cron tz candidate) [
    | some u ↦ some u
    | none ↦ search_minutes cron tz checks (candidate + one_minute)
  ]

  unfoldable pub first_candidate : Zone → ℕ → ℕ
  first_candidate tz after =
      let local_after = tz.naive_local after in
      let candidate = local_after + 1000 * (60 - c.second local_after) in
      unwrap_or (c.with_second candidate 0) candidate

  unfoldable pub cron_next_tz : Bytes → ℕ → Zone → Option ℕ
  cron_next_tz cron after tz = search_minutes cron tz max_checks (first_candidate tz after)

  unfoldable pub cron_next : Bytes → ℕ → Option ℕ
  cron_next cron after = cron_next_tz cron after c.utc

  -- The loop stops at the first search that finds nothing.
  unfoldable pub cron_next_n_tz : Bytes → ℕ → ℕ → Zone → List ℕ
  unfolding cron_next_tz
  cron_next_n_tz cron after zero tz = []
  cron_next_n_tz cron after (suc n) tz = elim (cron_next_tz cron after tz) [
    | none ↦ []
    | some next ↦ next ∷ cron_next_n_tz cron next n tz
  ]
