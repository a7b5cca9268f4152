-- ===== src/Strings/Decimal.antt =====
-- Numbers printed in decimal (crates/contextpack/src/injection.rs) and parsed as a `u32`.
use serial_agent.Prelude.{
  ℕ, zero, suc, ◌+◌, ◌-◌, ◌*◌, ◌/◌, ◌%◌, ◌<◌, ◌≡◌, refl, ap, ◌∙◌, inl, inr, true, false, ◌&&◌, some,
  [], ◌∷◌, arith, Bytes, eqb, ltb, All, Bool-cases,
}
use serial_agent.ContextPack.Builder.{digits, decimal}
use serial_agent.Strings.{u32_limit, is_digit, parse_digits, parse_u32}

abbrev pub IsDigits : Bytes → Type 0
IsDigits = All (λ b. is_digit b ≡ true)

pub digits-IsDigits :
    (fuel n : ℕ) (shown : Bytes) → n < fuel → IsDigits shown → IsDigits (digits fuel n shown)
unfolding digits
digits-IsDigits zero n shown h d = absurd (omega arith)
digits-IsDigits (suc fuel) n shown h d = elim (Bool-cases (ltb n 10)) [
  | inl one ↦ rw one (ground arith, d)
  | inr several ↦
      rw several
        (digits-IsDigits fuel (n / 10) ((48 + n % 10) ∷ shown) (ground arith) (ground arith, d))
]

pub decimal-IsDigits : (n : ℕ) → IsDigits (decimal n)
unfolding decimal
decimal-IsDigits n = digits-IsDigits (suc n) n [] (omega arith) tt

-- There is a first digit.
abbrev pub StartsWithDigit : Bytes → Type 0
StartsWithDigit s = (b : ℕ) × ((t : Bytes) × ((s ≡ b ∷ t) × (is_digit b ≡ true)))

digits-StartsWithDigit :
    (fuel n : ℕ) (shown : Bytes) → n < fuel → StartsWithDigit (digits fuel n shown)
unfolding digits
digits-StartsWithDigit zero n shown h = absurd (omega arith)
digits-StartsWithDigit (suc fuel) n shown h = elim (Bool-cases (ltb n 10)) [
  | inl one ↦ rw one (48 + n, (shown, (refl, ground arith)))
  | inr several ↦
      rw several (digits-StartsWithDigit fuel (n / 10) ((48 + n % 10) ∷ shown) (ground arith))
]

pub decimal-StartsWithDigit : (n : ℕ) → StartsWithDigit (decimal n)
unfolding decimal
decimal-StartsWithDigit n = digits-StartsWithDigit (suc n) n [] (omega arith)

parse_digits-digits :
    (fuel n : ℕ) (shown : Bytes)
    → n < fuel
    → n < u32_limit
    → parse_digits 0 (digits fuel n shown) ≡ parse_digits n shown
unfolding parse_digits digits
parse_digits-digits zero n shown h small = absurd (omega arith)
parse_digits-digits (suc fuel) n shown h small = elim (Bool-cases (ltb n 10)) [
  | inl one ↦ rw one (
      let value : 48 + n - 48 ≡ n = omega arith in
      let total : 0 * 10 + (48 + n - 48) ≡ n = omega arith in
      let digit : (is_digit (48 + n) && ltb (0 * 10 + (48 + n - 48)) u32_limit) ≡ true =
        ground arith in
      rw digit (ap (λ k. parse_digits k shown) total))
  | inr several ↦ rw several (
      let total : n / 10 * 10 + (48 + n % 10 - 48) ≡ n = omega arith in
      let digit : (is_digit (48 + n % 10) && ltb (n / 10 * 10 + (48 + n % 10 - 48)) u32_limit)
          ≡ true =
        ground arith in
      parse_digits-digits fuel (n / 10) ((48 + n % 10) ∷ shown) (ground arith) (omega arith)
      ∙ rw digit (ap (λ k. parse_digits k shown) total))
]

-- The plus sign is no digit.
parse_u32-digits : (s : Bytes) → StartsWithDigit s → parse_u32 s ≡ parse_digits 0 s
unfolding parse_u32
parse_u32-digits s (b, (t, (e, d))) =
    let plain : eqb b 43 ≡ false = ground arith in rw (e, plain) refl

-- A number in range, printed in decimal, is parsed back.
pub parse_u32-decimal : (n : ℕ) → n < u32_limit → parse_u32 (decimal n) ≡ some n
unfolding parse_digits decimal
parse_u32-decimal n small =
    parse_u32-digits (decimal n) (decimal-StartsWithDigit n)
    ∙ parse_digits-digits (suc n) n [] (omega arith) small
