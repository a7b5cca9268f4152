-- ===== src/Schedules/Internal.antt =====
-- URLs that name an address of a private network by its four numbers
-- (crates/gateway/src/runtime/schedules/validation.rs).
use serial_agent.Prelude.{
  ℕ, zero, suc, ◌≤◌, ◌<◌, ◌≡◌, refl, sym, ap, ◌∙◌, Bool, true, false, ◌&&◌, ◌||◌, Option, some,
  none, [], ◌∷◌, ◌++◌, Bool-cases, inl, inr, Bytes, arith, eqb, ltb, leb, length, length-append,
  All,
}
use mathlib.Core.List.{append_assoc, append-nil}
use serial_agent.ContextPack.Builder.{decimal}
use serial_agent.Strings.{is_digit, split_on, is_empty}
use serial_agent.Strings.Decimal.{
  IsDigits, StartsWithDigit, decimal-IsDigits, decimal-StartsWithDigit,
}
use serial_agent.Strings.Pieces.{Lacks, Lacks-append, some_piece}
use serial_agent.Schedules.Address.{
  Ipv4, span, value_of, decimal_digit, is_octet, read_octet, read_ipv4, parse_ipv4,
}
use serial_agent.Schedules.Url.{
  UrlError, to_ascii_lowercase, piece_before, first_of, starts_with_bracket, host_of,
  is_internal_name, check_rest, is_blocked_ipv4, check_host, validate_url,
}
use serial_agent.Schedules.Userinfo.{
  scheme, validate_url-scheme, Lacks-to_ascii_lowercase, after_userinfo-alone,
}

-- Every number below 256 is one octet in decimal, of one to three digits.
abbrev octet_ok : ℕ → Bool
octet_ok n = is_octet (decimal n) && eqb (value_of decimal_digit 10 0 (decimal n)) n

all_below : ℕ → (ℕ → Bool) → Bool
all_below zero p = true
all_below (suc n) p = p n && all_below n p

all_below_lem : (n : ℕ) (p : ℕ → Bool) (x : ℕ) → all_below n p ≡ true → x < n → p x ≡ true
unfolding all_below
all_below_lem zero p x h lt = absurd (omega arith)
all_below_lem (suc n) p x h lt = ground (arith, all_below_lem n p x)

octets : all_below 256 octet_ok ≡ true
unfolding all_below is_octet value_of decimal
octets = refl

octet_ok-true : (n : ℕ) → n < 256 → octet_ok n ≡ true
octet_ok-true n small = all_below_lem 256 octet_ok n octets small

-- What follows a number does not start with a digit.
abbrev NoDigit : Bytes → Type 0
NoDigit [] = Unit
NoDigit (b ∷ s) = is_digit b ≡ false

span-digits : (s t : Bytes) → IsDigits s → NoDigit t → span is_digit (s ++ t) ≡ (s, t)
unfolding span
span-digits [] [] d n = refl
span-digits [] (b ∷ t) d n = rw n refl
span-digits (b ∷ s) t d n = rw (d.0, span-digits s t d.1 n) refl

read_octet-decimal :
    (n : ℕ) (t : Bytes) → n < 256 → NoDigit t → read_octet (decimal n ++ t) ≡ some (n, t)
unfolding read_octet
read_octet-decimal n t small none_left =
    let ok = octet_ok-true n small in
    let fits : is_octet (decimal n) ≡ true = ground (arith, ok) in
    let value : value_of decimal_digit 10 0 (decimal n) ≡ n = ground (arith, ok) in
    rw (span-digits (decimal n) t (decimal-IsDigits n) none_left, fits, value) refl

abbrev pub dotted : Ipv4 → Bytes
dotted ip =
    decimal ip.a ++ (46 ∷ (decimal ip.b ++ (46 ∷ (decimal ip.c ++ (46 ∷ (decimal ip.d ++ []))))))

pub record IsIpv4 (ip : Ipv4) : Type 0 where
  pub a : ip.a < 256
  pub b : ip.b < 256
  pub c : ip.c < 256
  pub d : ip.d < 256

read_ipv4-dotted : (ip : Ipv4) → IsIpv4 ip → read_ipv4 (dotted ip) ≡ some (ip, [])
unfolding read_ipv4
read_ipv4-dotted ip h =
    rw
      (
        read_octet-decimal ip.a _ h.a refl,
        read_octet-decimal ip.b _ h.b refl,
        read_octet-decimal ip.c _ h.c refl,
        read_octet-decimal ip.d [] h.d tt,
      )
      refl

length-decimal : (n : ℕ) → n < 256 → length (decimal n) ≤ 3
unfolding is_octet
length-decimal n small = ground (arith, octet_ok-true n small)

length-dotted : (ip : Ipv4) → IsIpv4 ip → length (dotted ip) ≤ 15
length-dotted ip h = omega (
  arith,
  length-append (decimal ip.a)
      (46 ∷ (decimal ip.b ++ (46 ∷ (decimal ip.c ++ (46 ∷ (decimal ip.d ++ [])))))),
  length-append (decimal ip.b) (46 ∷ (decimal ip.c ++ (46 ∷ (decimal ip.d ++ [])))),
  length-append (decimal ip.c) (46 ∷ (decimal ip.d ++ [])),
  length-append (decimal ip.d) [],
  length-decimal ip.a h.a,
  length-decimal ip.b h.b,
  length-decimal ip.c h.c,
  length-decimal ip.d h.d,
)

parse_ipv4-dotted : (ip : Ipv4) → IsIpv4 ip → parse_ipv4 (dotted ip) ≡ some ip
unfolding parse_ipv4
parse_ipv4-dotted ip h =
    let short : ltb 15 (length (dotted ip)) ≡ false = ground (arith, length-dotted ip h) in
    rw (short, read_ipv4-dotted ip h) refl

-- The bytes of a dotted address: digits and dots.
abbrev is_dotted : ℕ → Bool
is_dotted b = is_digit b || eqb b 46

abbrev AreDotted : Bytes → Type 0
AreDotted = All (λ b. is_dotted b ≡ true)

digits-AreDotted : (s t : Bytes) → IsDigits s → AreDotted t → AreDotted (s ++ t)
digits-AreDotted [] t d h = h
digits-AreDotted (b ∷ s) t d h = (ground (arith, d.0), digits-AreDotted s t d.1 h)

dotted-AreDotted : (ip : Ipv4) → AreDotted (dotted ip)
dotted-AreDotted ip = digits-AreDotted (decimal ip.a) _ (decimal-IsDigits ip.a) (
  refl,
  digits-AreDotted (decimal ip.b) _ (decimal-IsDigits ip.b) (
    refl,
    digits-AreDotted (decimal ip.c) _ (decimal-IsDigits ip.c)
        (refl, digits-AreDotted (decimal ip.d) [] (decimal-IsDigits ip.d) tt),
  ),
)

AreDotted-Lacks : (c : ℕ) (s : Bytes) → is_dotted c ≡ false → AreDotted s → Lacks c s
AreDotted-Lacks c [] out h = tt
AreDotted-Lacks c (b ∷ s) out h = (ground (arith, h.0), AreDotted-Lacks c s out h.1)

lowercase-AreDotted :
    (s t : Bytes) → AreDotted s → to_ascii_lowercase (s ++ t) ≡ s ++ to_ascii_lowercase t
lowercase-AreDotted [] t h = refl
lowercase-AreDotted (b ∷ s) t h =
    let small : (leb 65 b && leb b 90) ≡ false = ground (arith, h.0) in
    rw (small, lowercase-AreDotted s t h.1) refl

piece_before-append :
    (c : ℕ) (s t : Bytes) → Lacks c s → piece_before c (s ++ t) ≡ s ++ piece_before c t
unfolding piece_before split_on
piece_before-append c [] t h = refl
piece_before-append c (b ∷ s) t h =
    let (p, (ps, e)) = some_piece c (s ++ t) in
    rw (h.0, e) (ap (◌∷◌ b) (sym (ap first_of e) ∙ piece_before-append c s t h.1))

-- What may follow the host: nothing, a path, or a port with what follows it.
pub data Tail : Type 0 where
  nothing : Tail
  path : Bytes → Tail
  port : Bytes → Tail

abbrev pub text_of : Tail → Bytes
text_of nothing = []
text_of (path s) = 47 ∷ s
text_of (port s) = 58 ∷ s

starts_with_bracket-digit : (s t : Bytes) → StartsWithDigit s → starts_with_bracket (s ++ t) ≡ false
starts_with_bracket-digit s t (b, (rest, (e, digit))) =
    let other : eqb b 91 ≡ false = ground (arith, digit) in
    ap (λ u. starts_with_bracket (u ++ t)) e ∙ other

-- A tail has no colon before its first slash that is not its own first byte.
no_host_in_tail :
    (tail : Tail) → piece_before 58 (piece_before 47 (to_ascii_lowercase (text_of tail))) ≡ []
unfolding piece_before split_on
no_host_in_tail nothing = refl
no_host_in_tail (path s) = refl
no_host_in_tail (port s) = let (p, (ps, e)) = some_piece 47 (to_ascii_lowercase s) in rw e refl

-- The host of an authority that is followed by such a tail is the authority's name.
host_of-tail :
    (ip : Ipv4) (tail : Tail)
    → host_of (piece_before 47 (dotted ip ++ to_ascii_lowercase (text_of tail))) ≡ dotted ip
unfolding host_of
host_of-tail ip tail =
    let lacks_slash = AreDotted-Lacks 47 (dotted ip) refl (dotted-AreDotted ip) in
    let lacks_colon = AreDotted-Lacks 58 (dotted ip) refl (dotted-AreDotted ip) in
    let rest = piece_before 47 (to_ascii_lowercase (text_of tail)) in
    let later = 46 ∷ (decimal ip.b ++ (46 ∷ (decimal ip.c ++ (46 ∷ (decimal ip.d ++ []))))) in
    let digit_first : starts_with_bracket (dotted ip ++ rest) ≡ false =
      ap starts_with_bracket (append_assoc (decimal ip.a) later rest)
      ∙ starts_with_bracket-digit (decimal ip.a) (later ++ rest) (decimal-StartsWithDigit ip.a) in
    rw
      (
        piece_before-append 47 (dotted ip) (to_ascii_lowercase (text_of tail)) lacks_slash,
        digit_first,
      )
      (piece_before-append 58 (dotted ip) rest lacks_colon
        ∙ ap (λ s. dotted ip ++ s) (no_host_in_tail tail)
        ∙ append-nil (dotted ip))

abbrev pub is_refused : Option UrlError → Bool
is_refused none = false
is_refused (some e) = true

check_host-dotted :
    (ip : Ipv4) → IsIpv4 ip → is_blocked_ipv4 ip ≡ true → is_refused (check_host (dotted ip)) ≡ true
unfolding check_host
check_host-dotted ip h blocked = elim (Bool-cases (is_empty (dotted ip))) [
  | inl e ↦ rw e refl
  | inr e ↦ elim (Bool-cases (is_internal_name (dotted ip))) [
    | inl i ↦ rw (e, i) refl
    | inr i ↦ rw (e, i, parse_ipv4-dotted ip h, blocked) refl
  ]
]

-- A URL of either scheme whose host is written as the four numbers of a loopback, private, link
-- local, unspecified or broadcast address is refused, with a port or a path after it or without,
-- as long as no at sign follows the host.
pub validate_url-dotted :
    (secure : Bool) (ip : Ipv4) (tail : Tail)
    → IsIpv4 ip
    → is_blocked_ipv4 ip ≡ true
    → Lacks 64 (text_of tail)
    → is_refused (validate_url (scheme secure ++ (dotted ip ++ text_of tail))) ≡ true
validate_url-dotted secure ip tail h blocked no_at =
    let name = dotted-AreDotted ip in
    let after = to_ascii_lowercase (text_of tail) in
    let alone : Lacks 64 (dotted ip ++ after) =
      Lacks-append 64 (dotted ip) after (AreDotted-Lacks 64 (dotted ip) refl name)
        (Lacks-to_ascii_lowercase 64 (text_of tail) (omega arith) no_at) in
    let seen : validate_url (scheme secure ++ (dotted ip ++ text_of tail))
        ≡ check_host (dotted ip) =
      validate_url-scheme secure (dotted ip ++ text_of tail)
      ∙ ap (λ s. check_rest (some s)) (lowercase-AreDotted (dotted ip) (text_of tail) name)
      ∙ ap (λ s. check_host (host_of (piece_before 47 s)))
          (after_userinfo-alone (dotted ip ++ after) alone)
      ∙ ap check_host (host_of-tail ip tail) in
    ap is_refused seen ∙ check_host-dotted ip h blocked
