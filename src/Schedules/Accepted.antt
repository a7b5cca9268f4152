-- ===== src/Schedules/Accepted.antt =====
-- What the validation of cron expressions promises of the matcher
-- (crates/gateway/src/runtime/schedules/validation.rs and cron.rs).
use serial_agent.Prelude.{
  ℕ, ◌%◌, ◌≤◌, ◌<◌, ◌≡◌, refl, inl, inr, Bool, true, List, [], ◌∷◌, Bytes, bytes, bytes_beq, any,
  arith, Bool-cases, Option-cases, Never,
}
use serial_agent.Strings.{parse_u32, split_on, split_once, strip_prefix, split_whitespace}
use serial_agent.Strings.Pieces.{some_piece}
use serial_agent.Schedules.Cron.{part_matches, cron_field_matches}
use serial_agent.Schedules.Validation.{
  Verdict, valid, invalid, ◌>>◌, check_part, check_parts, validate_cron_field, five_fields,
  validate_cron,
}

-- What an accepted field lets through: a value of its range that it matches.
abbrev pub Lets : (ℕ → Bool) → ℕ → ℕ → Type 0
Lets test low high = (v : ℕ) × ((low ≤ v) × ((v ≤ high) × (test v ≡ true)))

module _ (name : Bytes) (low high : ℕ) where
  check_part-Lets :
      (part : Bytes)
      → check_part name low high part ≡ valid
      → Lets (λ v. part_matches v part) low high
  unfolding check_part part_matches
  check_part-Lets part ok = elim (Option-cases (split_once 45 part)) [
    | inl alone ↦ elim (Option-cases (parse_u32 part)) [
      | inl bad ↦ absurd (ground (arith, alone, bad, ok))
      | inr (n, e) ↦ (n, rw (alone, e) (ground (arith, alone, e, ok)))
    ]
    | inr ((start_s, end_s), two) ↦ elim (Option-cases (parse_u32 start_s)) [
      | inl bad ↦ absurd (ground (arith, two, bad, ok))
      | inr (first, e) ↦ elim (Option-cases (parse_u32 end_s)) [
        | inl bad ↦ absurd (ground (arith, two, e, bad, ok))
        | inr (last, e') ↦ (first, rw (two, e, e') (ground (arith, two, e, e', ok)))
      ]
    ]
  ]

  check_parts-Lets :
      (field : Bytes)
      → check_parts name low high (split_on 44 field) ≡ valid
      → Lets (λ v. any (part_matches v) (split_on 44 field)) low high
  unfolding check_parts
  check_parts-Lets field ok =
      let (p, (ps, e)) = some_piece 44 field in
      let first_ok : check_part name low high p ≡ valid = ground (arith, e, ok) in
      let (v, (above, (below, hit))) = check_part-Lets p first_ok in
      (v, (above, (below, rw (e, hit) refl)))

  -- A field that is accepted matches some value of its range, where the range starts at 0 or 1.
  validate_cron_field-Lets :
      (field : Bytes)
      → low ≤ 1
      → low ≤ high
      → validate_cron_field name low high field ≡ valid
      → Lets (cron_field_matches field) low high
  unfolding validate_cron_field cron_field_matches
  validate_cron_field-Lets field start order ok = elim (Bool-cases (bytes_beq field (bytes "*"))) [
    | inl star ↦ (low, (omega arith, (order, rw star refl)))
    | inr other ↦ elim (Option-cases (strip_prefix (bytes "*/") field)) [
      | inl plain ↦
          let (v, (above, (below, hit))) =
            check_parts-Lets field (ground (arith, other, plain, ok)) in
          (v, (above, (below, rw (other, plain) hit)))
      | inr (step, e) ↦ elim (Option-cases (parse_u32 step)) [
        | inl bad ↦ absurd (ground (arith, other, e, bad, ok))
        | inr (n, e') ↦
            let bounds : (0 < n) × (n ≤ high) = ground (arith, other, e, e', ok) in
            let rest : n % n ≡ 0 = grind arith in
            (n, (omega arith, (bounds.1, rw (other, e, e', rest) (ground arith))))
      ]
    ]
  ]

-- A chain of two checks passes where both do.
both_valid : (one two : Verdict) → (one >> two) ≡ valid → (one ≡ valid) × (two ≡ valid)
both_valid valid two ok = (refl, ok)
both_valid (invalid e) two ok = cc

-- Five fields, each of which matches some value of its range: a minute, an hour, a day, a month
-- and a day of the week.
abbrev pub EachMatches : List Bytes → Type 0
EachMatches (a ∷ b ∷ d ∷ m ∷ w ∷ []) =
    Lets (cron_field_matches a) 0 59
    × (Lets (cron_field_matches b) 0 23
        × (Lets (cron_field_matches d) 1 31
            × (Lets (cron_field_matches m) 1 12 × Lets (cron_field_matches w) 0 6)))
EachMatches fields = Never

five_fields-EachMatches : (fields : List Bytes) → five_fields fields ≡ valid → EachMatches fields
five_fields-EachMatches (a ∷ b ∷ d ∷ m ∷ w ∷ []) passed =
    let (four, last) = both_valid _ (validate_cron_field (bytes "day-of-week") 0 6 w) passed in
    let (three, fourth) = both_valid _ (validate_cron_field (bytes "month") 1 12 m) four in
    let (two, third) = both_valid _ (validate_cron_field (bytes "day-of-month") 1 31 d) three in
    let (first, second) = both_valid _ (validate_cron_field (bytes "hour") 0 23 b) two in
    (
      validate_cron_field-Lets (bytes "minute") 0 59 a (omega arith) (omega arith) first,
      (
        validate_cron_field-Lets (bytes "hour") 0 23 b (omega arith) (omega arith) second,
        (
          validate_cron_field-Lets (bytes "day-of-month") 1 31 d (omega arith) (omega arith) third,
          (
            validate_cron_field-Lets (bytes "month") 1 12 m (omega arith) (omega arith) fourth,
            validate_cron_field-Lets (bytes "day-of-week") 0 6 w (omega arith) (omega arith) last,
          ),
        ),
      ),
    )
five_fields-EachMatches [] passed = cc
five_fields-EachMatches (a ∷ []) passed = cc
five_fields-EachMatches (a ∷ b ∷ []) passed = cc
five_fields-EachMatches (a ∷ b ∷ d ∷ []) passed = cc
five_fields-EachMatches (a ∷ b ∷ d ∷ m ∷ []) passed = cc
five_fields-EachMatches (a ∷ b ∷ d ∷ m ∷ w ∷ x ∷ more) passed = cc

-- An expression that the validation accepts has five fields, and the matcher finds for each of
-- them a value of its range that it matches.
pub validate_cron-EachMatches :
    (cron : Bytes) → validate_cron cron ≡ valid → EachMatches (split_whitespace cron)
unfolding validate_cron
validate_cron-EachMatches cron ok = five_fields-EachMatches (split_whitespace cron) ok
