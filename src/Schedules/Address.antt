-- ===== src/Schedules/Address.antt =====
-- IP addresses as `validate_url` of crates/gateway/src/runtime/schedules/validation.rs parses and
-- tests them: Rust's `Ipv4Addr` and `Ipv6Addr`.
use serial_agent.Prelude.{
  ℕ, zero, suc, ◌+◌, ◌-◌, ◌*◌, Bool, true, false, ◌&&◌, ◌||◌, Option, none, some, List, [], ◌∷◌,
  ◌++◌, if◌then◌else◌, Bytes, eqb, ltb, leb, length,
}
use serial_agent.Strings.{is_digit, is_empty}

-- The digits at the front of a text, and what follows.
unfoldable pub span : (ℕ → Bool) → Bytes → Bytes × Bytes
span p [] = ([], [])
span p (b ∷ s) = let (front, rest) = span p s in if p b then (b ∷ front, rest) else ([], b ∷ s)

unfoldable pub value_of : (ℕ → ℕ) → ℕ → ℕ → Bytes → ℕ
value_of digit radix n [] = n
value_of digit radix n (b ∷ s) = value_of digit radix (n * radix + digit b) s

abbrev pub leads_with_zero : Bytes → Bool
leads_with_zero [] = false
leads_with_zero (b ∷ []) = false
leads_with_zero (b ∷ c ∷ s) = eqb b 48

abbrev pub decimal_digit : ℕ → ℕ
decimal_digit b = b - 48

-- One to three digits, no zero in front, at most 255.
unfoldable pub is_octet : Bytes → Bool
unfolding value_of
is_octet digits =
    leb 1 (length digits)
    && (leb (length digits) 3
        && (leb (value_of decimal_digit 10 0 digits) 255
            && (if leads_with_zero digits then false else true)))

unfoldable pub read_octet : Bytes → Option (ℕ × Bytes)
unfolding span is_octet value_of
read_octet s =
    let (digits, rest) = span is_digit s in
    if is_octet digits then some (value_of decimal_digit 10 0 digits, rest) else none

abbrev pub skip_byte : ℕ → Bytes → Option Bytes
skip_byte c [] = none
skip_byte c (b ∷ s) = if eqb b c then some s else none

pub record Ipv4 : Type 0 where
  pub a : ℕ
  pub b : ℕ
  pub c : ℕ
  pub d : ℕ

infixl 5 ◌>>=◌
abbrev pub ◌>>=◌ : {A B : Type 0} → Option A → (A → Option B) → Option B
none >>= f = none
some a >>= f = f a

unfoldable pub read_ipv4 : Bytes → Option (Ipv4 × Bytes)
unfolding read_octet
read_ipv4 s = do
  (a, s1) ← read_octet s
  t1 ← skip_byte 46 s1
  (b, s2) ← read_octet t1
  t2 ← skip_byte 46 s2
  (c, s3) ← read_octet t2
  t3 ← skip_byte 46 s3
  (d, rest) ← read_octet t3
  some (record { a = a; b = b; c = c; d = d }, rest)

abbrev pub whole {ℓ} : {A : Type ℓ} → Option (A × Bytes) → Option A
whole none = none
whole (some (x, rest)) = if is_empty rest then some x else none

-- No text of more than 15 bytes is one.
unfoldable pub parse_ipv4 : Bytes → Option Ipv4
unfolding read_ipv4
parse_ipv4 s = if ltb 15 (length s) then none else whole (read_ipv4 s)

unfoldable pub is_loopback : Ipv4 → Bool
is_loopback ip = eqb ip.a 127

unfoldable pub is_private : Ipv4 → Bool
is_private ip =
    eqb ip.a 10
    || ((eqb ip.a 172 && (leb 16 ip.b && leb ip.b 31)) || (eqb ip.a 192 && eqb ip.b 168))

unfoldable pub is_link_local : Ipv4 → Bool
is_link_local ip = eqb ip.a 169 && eqb ip.b 254

unfoldable pub is_unspecified : Ipv4 → Bool
is_unspecified ip = eqb ip.a 0 && (eqb ip.b 0 && (eqb ip.c 0 && eqb ip.d 0))

unfoldable pub is_broadcast : Ipv4 → Bool
is_broadcast ip = eqb ip.a 255 && (eqb ip.b 255 && (eqb ip.c 255 && eqb ip.d 255))

abbrev is_hex : ℕ → Bool
is_hex b = is_digit b || ((leb 97 b && leb b 102) || (leb 65 b && leb b 70))

abbrev hex_digit : ℕ → ℕ
hex_digit b = if is_digit b then b - 48 else if leb 97 b then b - 87 else b - 55

-- One to four hexadecimal digits.
unfoldable pub read_group : Bytes → Option (ℕ × Bytes)
unfolding span value_of
read_group s =
    let (digits, rest) = span is_hex s in
    if leb 1 (length digits) && leb (length digits) 4
    then some (value_of hex_digit 16 0 digits, rest)
    else none

abbrev colon_first : Bool → Bytes → Option Bytes
colon_first true s = some s
colon_first false s = skip_byte 58 s

pub record Groups : Type 0 where
  pub groups : List ℕ
  pub ended_by_ipv4 : Bool
  pub rest : Bytes

abbrev no_more : Bytes → Groups
no_more s = record { groups = []; ended_by_ipv4 = false; rest = s }

abbrev of_ipv4 : Ipv4 × Bytes → Groups
of_ipv4 (ip, rest) = record {
  groups = (ip.a * 256 + ip.b) ∷ (ip.c * 256 + ip.d) ∷ [];
  ended_by_ipv4 = true;
  rest = rest;
}

abbrev more_groups : ℕ → Groups → Groups
more_groups g r = record r { groups = g ∷ r.groups }

-- `read_groups`, with `room` groups to go: an IPv4 address takes the place of two.
unfoldable pub read_groups : ℕ → Bool → Bytes → Groups
unfolding read_group read_ipv4
read_groups zero first s = no_more s
read_groups (suc room) first s =
    elim (if ltb 0 room then colon_first first s >>= read_ipv4 else none) [
      | some found ↦ of_ipv4 found
      | none ↦ elim (colon_first first s >>= read_group) [
        | none ↦ no_more s
        | some (g, rest) ↦ more_groups g (read_groups room false rest)
      ]
    ]

abbrev pub zeros : ℕ → List ℕ
zeros zero = []
zeros (suc n) = 0 ∷ zeros n

abbrev after_colons : Groups → Option Bytes → Option (List ℕ × Bytes)
after_colons head none = none
after_colons head (some s) =
    let room = 7 - length head.groups in
    let tail = read_groups room true s in
    some (
      head.groups ++ (zeros (8 - (length head.groups + length tail.groups)) ++ tail.groups),
      tail.rest,
    )

unfoldable pub read_ipv6 : Bytes → Option (List ℕ × Bytes)
unfolding read_groups
read_ipv6 s =
    let head = read_groups 8 true s in
    if eqb (length head.groups) 8
    then some (head.groups, head.rest)
    else if head.ended_by_ipv4
    then none
    else after_colons head (skip_byte 58 head.rest >>= skip_byte 58)

unfoldable pub parse_ipv6 : Bytes → Option (List ℕ)
unfolding read_ipv6
parse_ipv6 s = whole (read_ipv6 s)
