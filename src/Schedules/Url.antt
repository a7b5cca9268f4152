-- ===== src/Schedules/Url.antt =====
-- The check of URLs in crates/gateway/src/runtime/schedules/validation.rs.
use serial_agent.Prelude.{
  ℕ, ◌+◌, ◌/◌, ◌%◌, Bool, true, false, ◌&&◌, ◌||◌, Option, none, some, List, [], ◌∷◌, map, reverse,
  if◌then◌else◌, Bytes, bytes, bytes_beq, eqb, leb,
}
use serial_agent.Strings.{split_on, split_once, strip_prefix, is_empty}
use serial_agent.Schedules.Address.{
  Ipv4, parse_ipv4, parse_ipv6, is_loopback, is_private, is_link_local, is_unspecified,
  is_broadcast,
}

pub data UrlError : Type 0 where
  bad_scheme empty_host : UrlError
  internal_host : Bytes → UrlError
  private_ip : Ipv4 → UrlError
  private_ipv6 : List ℕ → UrlError

abbrev pub to_ascii_lowercase : Bytes → Bytes
to_ascii_lowercase = map (λ b. if leb 65 b && leb b 90 then b + 32 else b)

-- What follows the scheme.
abbrev pub or_http : Bytes → Option Bytes → Option Bytes
or_http lower (some rest) = some rest
or_http lower none = strip_prefix (bytes "http://") lower

unfoldable pub after_scheme : Bytes → Option Bytes
after_scheme lower = or_http lower (strip_prefix (bytes "https://") lower)

abbrev second_of : Bytes → Option (Bytes × Bytes) → Bytes
second_of s none = s
second_of s (some parts) = parts.1

-- `split_once('@')`: what follows the first at sign.
unfoldable pub after_userinfo : Bytes → Bytes
after_userinfo s = second_of s (split_once 64 s)

abbrev pub first_of : List Bytes → Bytes
first_of [] = []
first_of (piece ∷ pieces) = piece

-- `split(c).next().unwrap_or("")`.
unfoldable pub piece_before : ℕ → Bytes → Bytes
piece_before c s = first_of (split_on c s)

abbrev pub starts_with_bracket : Bytes → Bool
starts_with_bracket [] = false
starts_with_bracket (b ∷ s) = eqb b 91

-- `trim_start_matches('[')`.
abbrev drop_brackets : Bytes → Bytes
drop_brackets [] = []
drop_brackets (b ∷ s) = let rest = drop_brackets s in if eqb b 91 then rest else b ∷ s

unfoldable pub host_of : Bytes → Bytes
unfolding piece_before
host_of authority =
    if starts_with_bracket authority
    then drop_brackets (piece_before 93 authority)
    else piece_before 58 authority

abbrev is_there : Option Bytes → Bool
is_there none = false
is_there (some rest) = true

unfoldable pub ends_with : Bytes → Bytes → Bool
ends_with suffix s = is_there (strip_prefix (reverse suffix) (reverse s))

unfoldable pub is_internal_name : Bytes → Bool
unfolding ends_with
is_internal_name host =
    bytes_beq host (bytes "localhost")
    || (ends_with (bytes ".localhost") host || bytes_beq host (bytes "metadata.google.internal"))

unfoldable pub is_blocked_ipv4 : Ipv4 → Bool
unfolding is_loopback is_private is_link_local is_unspecified is_broadcast
is_blocked_ipv4 ip =
    is_loopback ip
    || (is_private ip || (is_link_local ip || (is_unspecified ip || is_broadcast ip)))

-- The result of the checks: an error, or none.
abbrev pub check_ipv4 : Option Ipv4 → Option UrlError → Option UrlError
check_ipv4 none rest = rest
check_ipv4 (some ip) rest = if is_blocked_ipv4 ip then some (private_ip ip) else rest

unfoldable pub is_blocked_mapped : Ipv4 → Bool
unfolding is_loopback is_private is_link_local is_unspecified
is_blocked_mapped ip = is_loopback ip || (is_private ip || (is_link_local ip || is_unspecified ip))

-- ::ffff:x.x.x.x, by its last two groups.
abbrev mapped_of : List ℕ → Option Ipv4
mapped_of (p ∷ q ∷ r ∷ s ∷ t ∷ u ∷ v ∷ w ∷ []) =
    if eqb p 0 && (eqb q 0 && (eqb r 0 && (eqb s 0 && (eqb t 0 && eqb u 0xffff))))
    then some (record { a = v / 256 % 256; b = v % 256; c = w / 256 % 256; d = w % 256 })
    else none
mapped_of groups = none

abbrev all_zero : List ℕ → Bool
all_zero [] = true
all_zero (g ∷ groups) = eqb g 0 && all_zero groups

abbrev is_one : List ℕ → Bool
is_one [] = false
is_one (g ∷ []) = eqb g 1
is_one (g ∷ h ∷ groups) = eqb g 0 && is_one (h ∷ groups)

abbrev check_mapped : Option Ipv4 → Option UrlError
check_mapped none = none
check_mapped (some ip) = if is_blocked_mapped ip then some (private_ip ip) else none

abbrev pub check_ipv6 : Option (List ℕ) → Option UrlError
check_ipv6 none = none
check_ipv6 (some groups) =
    if is_one groups || all_zero groups
    then some (private_ipv6 groups)
    else check_mapped (mapped_of groups)

unfoldable pub check_host : Bytes → Option UrlError
unfolding is_internal_name is_blocked_ipv4 is_blocked_mapped parse_ipv4 parse_ipv6
check_host host =
    if is_empty host
    then some empty_host
    else if is_internal_name host
    then some (internal_host host)
    else check_ipv4 (parse_ipv4 host) (check_ipv6 (parse_ipv6 host))

abbrev pub check_rest : Option Bytes → Option UrlError
check_rest none = some bad_scheme
check_rest (some rest) = check_host (host_of (piece_before 47 (after_userinfo rest)))

-- `validate_url`: no error is `Ok(())`.
unfoldable pub validate_url : Bytes → Option UrlError
unfolding after_scheme after_userinfo host_of check_host
validate_url url = check_rest (after_scheme (to_ascii_lowercase url))
