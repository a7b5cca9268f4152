-- ===== src/Schedules/Field.antt =====
-- A cron expression as data, its text, and what it stands for: the description that the matcher
-- of crates/gateway/src/runtime/schedules/cron.rs is held against.
use serial_agent.Prelude.{
  ℕ, ◌%◌, ◌<◌, ◌≡◌, refl, ap, Bool, true, false, ◌&&◌, ◌||◌, none, List, [], ◌∷◌, ◌++◌, Bytes,
  bytes, bytes_beq, eqb, ltb, leb, All, any, arith,
}
use serial_agent.ContextPack.Builder.{decimal}
use serial_agent.Strings.{u32_limit, is_digit, split_on, strip_prefix}
use serial_agent.Strings.Decimal.{
  IsDigits, StartsWithDigit, decimal-IsDigits, decimal-StartsWithDigit, parse_u32-decimal,
}
use serial_agent.Strings.Pieces.{
  Lacks, Lacks-append, split_on-alone, split_on-append, split_once-alone, split_once-append,
}
use serial_agent.Schedules.Cron.{part_matches, cron_field_matches}

pub data Part : Type 0 where
  value : ℕ → Part
  range : ℕ → ℕ → Part

pub data Field : Type 0 where
  every : Field
  step : ℕ → Field
  parts : Part → List Part → Field

abbrev pub print_part : Part → Bytes
print_part (value n) = decimal n
print_part (range a b) = decimal a ++ (45 ∷ decimal b)

abbrev pub print_parts : Part → List Part → Bytes
print_parts p [] = print_part p
print_parts p (q ∷ more) = print_part p ++ (44 ∷ print_parts q more)

abbrev pub print_field : Field → Bytes
print_field every = bytes "*"
print_field (step n) = bytes "*/" ++ decimal n
print_field (parts p more) = print_parts p more

-- The numbers fit a `u32`.
abbrev pub PartFits : Part → Type 0
PartFits (value n) = n < u32_limit
PartFits (range a b) = (a < u32_limit) × (b < u32_limit)

abbrev pub FieldFits : Field → Type 0
FieldFits every = Unit
FieldFits (step n) = n < u32_limit
FieldFits (parts p more) = PartFits p × All PartFits more

-- The values that a field stands for.
abbrev pub part_stands : ℕ → Part → Bool
part_stands v (value n) = eqb v n
part_stands v (range a b) = leb a v && leb v b

abbrev pub stands : Field → ℕ → Bool
stands every v = true
stands (step n) v = ltb 0 n && eqb (v % n) 0
stands (parts p more) v = part_stands v p || any (part_stands v) more

Lacks-digits : (c : ℕ) (s : Bytes) → is_digit c ≡ false → IsDigits s → Lacks c s
Lacks-digits c [] out d = tt
Lacks-digits c (b ∷ s) out d = (ground arith, Lacks-digits c s out d.1)

Lacks-decimal : (c n : ℕ) → is_digit c ≡ false → Lacks c (decimal n)
Lacks-decimal c n out = Lacks-digits c (decimal n) out (decimal-IsDigits n)

-- A part that is printed matches what it stands for.
part_matches-print :
    (v : ℕ) (p : Part) → PartFits p → part_matches v (print_part p) ≡ part_stands v p
unfolding part_matches
part_matches-print v (value n) fits =
    rw (split_once-alone 45 (decimal n) (Lacks-decimal 45 n refl), parse_u32-decimal n fits) refl
part_matches-print v (range a b) fits =
    rw
      (
        split_once-append 45 (decimal a) (decimal b) (Lacks-decimal 45 a refl),
        parse_u32-decimal a fits.0,
        parse_u32-decimal b fits.1,
      )
      refl

Lacks-part : (p : Part) → Lacks 44 (print_part p)
Lacks-part (value n) = Lacks-decimal 44 n refl
Lacks-part (range a b) =
    Lacks-append 44 (decimal a) (45 ∷ decimal b) (Lacks-decimal 44 a refl)
      (refl, Lacks-decimal 44 b refl)

any-parts :
    (v : ℕ) (p : Part) (more : List Part)
    → PartFits p
    → All PartFits more
    → any (part_matches v) (split_on 44 (print_parts p more))
      ≡ (part_stands v p || any (part_stands v) more)
any-parts v p [] fits _ =
    rw (split_on-alone 44 (print_part p) (Lacks-part p), part_matches-print v p fits) refl
any-parts v p (q ∷ more) fits rest =
    rw
      (
        split_on-append 44 (print_part p) (print_parts q more) (Lacks-part p),
        part_matches-print v p fits,
        any-parts v q more rest.0 rest.1,
      )
      refl

-- A printed list of parts starts with a digit, so it is neither a star nor a step.
starts-append : (s t : Bytes) → StartsWithDigit s → StartsWithDigit (s ++ t)
starts-append s t (b, (u, (e, d))) = (b, (u ++ t, (ap (λ w. w ++ t) e, d)))

starts-part : (p : Part) → StartsWithDigit (print_part p)
starts-part (value n) = decimal-StartsWithDigit n
starts-part (range a b) = starts-append (decimal a) _ (decimal-StartsWithDigit a)

pub starts-parts : (p : Part) (more : List Part) → StartsWithDigit (print_parts p more)
starts-parts p [] = starts-part p
starts-parts p (q ∷ more) = starts-append (print_part p) _ (starts-part p)

not-star : (s : Bytes) → StartsWithDigit s → bytes_beq s (bytes "*") ≡ false
not-star s (b, (t, (e, d))) = let other : eqb b 42 ≡ false = ground arith in rw (e, other) refl

not-step : (s : Bytes) → StartsWithDigit s → strip_prefix (bytes "*/") s ≡ none
unfolding strip_prefix
not-step s (b, (t, (e, d))) = let other : eqb 42 b ≡ false = ground arith in rw (e, other) refl

pub cron_field_matches-print :
    (f : Field) (v : ℕ) → FieldFits f → cron_field_matches (print_field f) v ≡ stands f v
unfolding cron_field_matches
cron_field_matches-print every v fits = refl
cron_field_matches-print (step n) v fits = unfold strip_prefix in rw (parse_u32-decimal n fits) refl
cron_field_matches-print (parts p more) v fits =
    let s = print_parts p more in
    rw (not-star s (starts-parts p more), not-step s (starts-parts p more))
      (any-parts v p more fits.0 fits.1)
