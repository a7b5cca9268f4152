-- ===== src/Strings.antt =====
-- What the program uses of Rust's `str`, on the UTF-8 bytes of a text: splitting, prefixes and the
-- parsing of `u32`.
pub mod Decimal
pub mod Pieces
use serial_agent.Prelude.{
  ℕ, zero, suc, ◌+◌, ◌-◌, ◌*◌, ◌^◌, Bool, true, false, ◌&&◌, ◌||◌, Option, none, some, List, [],
  ◌∷◌, if◌then◌else◌, Bytes, eqb, leb, ltb, keep_if,
}
use mathlib.Core.Option

abbrev pub u32_limit : ℕ
u32_limit = 2 ^ 32

abbrev pub is_digit : ℕ → Bool
is_digit b = leb 48 b && leb b 57

abbrev pub is_empty : Bytes → Bool
is_empty [] = true
is_empty (b ∷ s) = false

unfoldable pub parse_digits : ℕ → Bytes → Option ℕ
parse_digits acc [] = some acc
parse_digits acc (b ∷ s) =
    if is_digit b && ltb (acc * 10 + (b - 48)) u32_limit
    then parse_digits (acc * 10 + (b - 48)) s
    else none

-- `parse::<u32>()`: a plus sign may stand first, and a number past the range is an error.
unfoldable pub parse_u32 : Bytes → Option ℕ
unfolding parse_digits
parse_u32 [] = none
parse_u32 (b ∷ s) =
    if eqb b 43 then (if is_empty s then none else parse_digits 0 s) else parse_digits 0 (b ∷ s)

abbrev pub push_first : ℕ → List Bytes → List Bytes
push_first b [] = (b ∷ []) ∷ []
push_first b (piece ∷ pieces) = (b ∷ piece) ∷ pieces

-- `split(c)`.
unfoldable pub split_on : ℕ → Bytes → List Bytes
split_on c [] = [] ∷ []
split_on c (b ∷ s) =
    let pieces = split_on c s in if eqb b c then [] ∷ pieces else push_first b pieces

-- `split_once(c)`.
unfoldable pub split_once : ℕ → Bytes → Option (Bytes × Bytes)
split_once c [] = none
split_once c (b ∷ s) =
    let rest = split_once c s in
    if eqb b c
    then some ([], s)
    else Option.map (λ (parts : Bytes × Bytes). (b ∷ parts.0, parts.1)) rest

unfoldable pub strip_prefix : Bytes → Bytes → Option Bytes
strip_prefix [] s = some s
strip_prefix (p ∷ prefix) [] = none
strip_prefix (p ∷ prefix) (b ∷ s) = if eqb p b then strip_prefix prefix s else none

-- How many bytes the first character has where it is white space, and else 0: the characters of
-- one byte, U+0085 and U+00A0, U+1680, U+2000 to U+200A, U+2028, U+2029, U+202F, U+205F, U+3000.
abbrev space_of_three : ℕ → ℕ → ℕ → Bool
space_of_three a b c =
    (eqb a 0xe1 && (eqb b 0x9a && eqb c 0x80))
    || ((eqb a 0xe2
          && (eqb b 0x80
              && ((leb 0x80 c && leb c 0x8a) || (eqb c 0xa8 || (eqb c 0xa9 || eqb c 0xaf)))))
        || ((eqb a 0xe2 && (eqb b 0x81 && eqb c 0x9f))
            || (eqb a 0xe3 && (eqb b 0x80 && eqb c 0x80))))

abbrev pub is_space : ℕ → Bool
is_space b = (leb 9 b && leb b 13) || eqb b 32

abbrev long_space : Bytes → ℕ
long_space (a ∷ b ∷ c ∷ s) =
    if eqb a 0xc2 && (eqb b 0x85 || eqb b 0xa0) then 2 else if space_of_three a b c then 3 else 0
long_space (a ∷ b ∷ []) = if eqb a 0xc2 && (eqb b 0x85 || eqb b 0xa0) then 2 else 0
long_space (a ∷ []) = 0
long_space [] = 0

unfoldable pub space_length : Bytes → ℕ
space_length [] = 0
space_length (b ∷ s) = if is_space b then 1 else if ltb b 128 then 0 else long_space (b ∷ s)

-- The pieces between white space, the empty ones included, with `skip` bytes of a space to go.
unfoldable pub split_spaces : ℕ → Bytes → List Bytes
unfolding space_length
split_spaces skip [] = [] ∷ []
split_spaces (suc skip) (b ∷ s) = split_spaces skip s
split_spaces zero (b ∷ s) =
    let pieces = split_spaces 0 s in
    let next = split_spaces (space_length (b ∷ s) - 1) s in
    if eqb (space_length (b ∷ s)) 0 then push_first b pieces else [] ∷ next

abbrev pub has_bytes : Bytes → Bool
has_bytes [] = false
has_bytes (b ∷ s) = true

unfoldable pub split_whitespace : Bytes → List Bytes
unfolding split_spaces
split_whitespace s = keep_if has_bytes (split_spaces 0 s)

-- `lines()`: the texts before each line feed, without a carriage return at the end, and what is
-- left after the last one, if anything is.
abbrev pub strip_cr : Bytes → Bytes
strip_cr [] = []
strip_cr (b ∷ []) = if eqb b 13 then [] else b ∷ []
strip_cr (b ∷ c ∷ s) = b ∷ strip_cr (c ∷ s)

abbrev pub finish_lines : List Bytes → List Bytes
finish_lines [] = []
finish_lines (last ∷ []) = if is_empty last then [] else last ∷ []
finish_lines (line ∷ next ∷ more) = strip_cr line ∷ finish_lines (next ∷ more)

unfoldable pub text_lines : Bytes → List Bytes
unfolding split_on
text_lines s = finish_lines (split_on 10 s)

-- `trim().is_empty()`: no character but white space.
abbrev pub none_left : List Bytes → Bool
none_left [] = true
none_left (word ∷ words) = false

unfoldable pub is_blank : Bytes → Bool
unfolding split_whitespace
is_blank s = none_left (split_whitespace s)

-- `trim()`: white space is dropped at both ends.
unfoldable pub trim_start : ℕ → Bytes → Bytes
trim_start skip [] = []
trim_start (suc skip) (b ∷ s) = trim_start skip s
trim_start zero (b ∷ s) =
    let rest = trim_start (space_length (b ∷ s) - 1) s in
    if eqb (space_length (b ∷ s)) 0 then b ∷ s else rest

unfoldable pub trim_end : Bytes → Bytes
unfolding is_blank
trim_end [] = []
trim_end (b ∷ s) = let rest = trim_end s in if is_blank (b ∷ s) then [] else b ∷ rest

unfoldable pub trim : Bytes → Bytes
unfolding trim_start trim_end
trim s = trim_end (trim_start 0 s)
