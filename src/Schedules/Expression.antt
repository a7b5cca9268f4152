-- ===== src/Schedules/Expression.antt =====
-- A cron expression of five fields as data, its text, and what it says of a local time.
use serial_agent.Prelude.{ℕ, ◌≡◌, refl, ap, Bool, true, ◌&&◌, List, [], ◌∷◌, ◌++◌, Bytes, arith}
use serial_agent.ContextPack.Builder.{decimal}
use serial_agent.Strings.{has_bytes, split_whitespace}
use serial_agent.Strings.Decimal.{IsDigits, StartsWithDigit, decimal-IsDigits}
use serial_agent.Strings.Pieces.{
  IsWord, IsWord-append, split_whitespace-alone, split_whitespace-append,
}
use serial_agent.Schedules.Cron.{Calendar, cron_matches_naive}
use serial_agent.Schedules.Field.{
  Part, value, range, Field, every, step, parts, print_part, print_parts, print_field, FieldFits,
  stands, starts-parts, cron_field_matches-print,
}

-- A whole expression.
pub record Expression : Type 0 where
  pub minutes : Field
  pub hours : Field
  pub days : Field
  pub months : Field
  pub weekdays : Field

abbrev pub print : Expression → Bytes
print e =
    print_field e.minutes
    ++ (32
        ∷ (print_field e.hours
            ++ (32
                ∷ (print_field e.days
                    ++ (32 ∷ (print_field e.months ++ (32 ∷ print_field e.weekdays)))))))

pub record Fits (e : Expression) : Type 0 where
  pub minutes : FieldFits e.minutes
  pub hours : FieldFits e.hours
  pub days : FieldFits e.days
  pub months : FieldFits e.months
  pub weekdays : FieldFits e.weekdays

-- What an expression says of a local time.
abbrev pub says : Calendar → Expression → ℕ → Bool
says c e t =
    stands e.minutes (c.minute t)
    && (stands e.hours (c.hour t)
        && (stands e.days (c.day t)
            && (stands e.months (c.month t) && stands e.weekdays (c.days_from_sunday t))))

IsWord-digits : (s : Bytes) → IsDigits s → IsWord s
IsWord-digits [] d = tt
IsWord-digits (b ∷ s) d = (ground arith, IsWord-digits s d.1)

IsWord-decimal : (n : ℕ) → IsWord (decimal n)
IsWord-decimal n = IsWord-digits (decimal n) (decimal-IsDigits n)

IsWord-part : (p : Part) → IsWord (print_part p)
IsWord-part (value n) = IsWord-decimal n
IsWord-part (range a b) =
    IsWord-append (decimal a) (45 ∷ decimal b) (IsWord-decimal a) (refl, IsWord-decimal b)

IsWord-parts : (p : Part) (more : List Part) → IsWord (print_parts p more)
IsWord-parts p [] = IsWord-part p
IsWord-parts p (q ∷ more) =
    IsWord-append (print_part p) (44 ∷ print_parts q more) (IsWord-part p)
      (refl, IsWord-parts q more)

IsWord-field : (f : Field) → IsWord (print_field f)
IsWord-field every = (refl, tt)
IsWord-field (step n) = (refl, (refl, IsWord-decimal n))
IsWord-field (parts p more) = IsWord-parts p more

starts-has_bytes : (s : Bytes) → StartsWithDigit s → has_bytes s ≡ true
starts-has_bytes s (b, (t, (e, d))) = ap has_bytes e

bytes-field : (f : Field) → has_bytes (print_field f) ≡ true
bytes-field every = refl
bytes-field (step n) = refl
bytes-field (parts p more) = starts-has_bytes (print_parts p more) (starts-parts p more)

split-field :
    (f : Field) (t : Bytes)
    → split_whitespace (print_field f ++ (32 ∷ t)) ≡ print_field f ∷ split_whitespace t
split-field f t = split_whitespace-append (print_field f) t (IsWord-field f) (bytes-field f)

-- The matcher reads a printed expression as what it says: each of the five fields holds for its
-- part of the local time, for numbers below 2^32.
pub cron_matches_naive-print :
    (c : Calendar) (e : Expression) (t : ℕ) → Fits e → cron_matches_naive c (print e) t ≡ says c e t
unfolding cron_matches_naive
cron_matches_naive-print c e t fits =
    rw
      (
        split-field e.minutes _,
        split-field e.hours _,
        split-field e.days _,
        split-field e.months _,
        split_whitespace-alone (print_field e.weekdays) (IsWord-field e.weekdays)
            (bytes-field e.weekdays),
        cron_field_matches-print e.minutes (c.minute t) fits.minutes,
        cron_field_matches-print e.hours (c.hour t) fits.hours,
        cron_field_matches-print e.days (c.day t) fits.days,
        cron_field_matches-print e.months (c.month t) fits.months,
        cron_field_matches-print e.weekdays (c.days_from_sunday t) fits.weekdays,
      )
      refl
