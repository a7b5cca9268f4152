-- ===== src/ContextPack.antt =====
-- crates/contextpack/src/truncation.rs: the sections of the context that every session starts
-- with, cut at character boundaries to a size per file and to a total. Lengths are bytes.
pub mod Tests
pub mod Cut
pub mod Cap
pub mod Builder
pub mod Assembly
pub mod Report
use serial_agent.Prelude.{
  ℕ, zero, suc, ◌+◌, ◌-◌, ◌≤◌, ◌≡◌, Bool, true, false, ◌||◌, Option, none, some, List, [], ◌∷◌,
  ◌++◌, ltb, leb, eqb, if◌then◌else◌, Bytes, bytes, length, get_elem?, take,
}

pub record Section : Type 0 where
  pub filename : Bytes
  pub content : Bytes
  pub raw_chars : ℕ
  pub truncated_per_file : Bool
  pub truncated_total_cap : Bool
  pub included : Bool
  pub missing : Bool

abbrev begins_char : Option ℕ → Bool
begins_char none = false
begins_char (some b) = ltb b 128 || leb 192 b

-- `str::is_char_boundary`: the ends, and every byte that is no continuation byte.
unfoldable pub is_char_boundary : Bytes → ℕ → Bool
is_char_boundary s i = eqb i 0 || (eqb i (length s) || begins_char (get_elem? s i))

abbrev pub floor_from : Bytes → ℕ → ℕ
unfolding is_char_boundary
floor_from s zero = zero
floor_from s (suc i) =
    let below = floor_from s i in if is_char_boundary s (suc i) then suc i else below

-- `str::floor_char_boundary`.
unfoldable pub floor_char_boundary : Bytes → ℕ → ℕ
floor_char_boundary s i = if leb (length s) i then length s else floor_from s i

abbrev pub file_marker : Bytes
file_marker = 10 ∷ 10 ∷ bytes "[TRUNCATED]" ++ 10 ∷ []

abbrev pub cap_marker : Bytes
cap_marker = 10 ∷ 10 ∷ bytes "[TRUNCATED_TOTAL_CAP]" ++ 10 ∷ []

unfoldable pub truncate_per_file : Bytes → ℕ → Bytes × Bool
unfolding floor_char_boundary
truncate_per_file content max_chars =
    if leb (length content) max_chars
    then (content, false)
    else (take (floor_char_boundary content max_chars) content ++ file_marker, true)

-- A section that crosses the cap, cut to what is left of it.
abbrev pub cut_section : Section → ℕ → Section
unfolding floor_char_boundary
cut_section s remaining = record s {
  content = take (floor_char_boundary s.content remaining) s.content ++ cap_marker;
  truncated_total_cap = true;
}

abbrev pub drop_section : Section → Section
drop_section s = record s { content = []; included = false }

-- One round of the loop: the section as it is left, and the bytes accumulated.
unfoldable pub cap_section : ℕ → ℕ → Section → Section × ℕ
cap_section total accumulated s =
    if s.included
    then if leb (accumulated + length s.content) total
      then (s, accumulated + length s.content)
      else if ltb accumulated total
      then (cut_section s (total - accumulated), total)
      else (drop_section s, accumulated)
    else (s, accumulated)

unfoldable pub cap_loop : ℕ → ℕ → List Section → List Section
unfolding cap_section
cap_loop total accumulated [] = []
cap_loop total accumulated (s ∷ sections) =
    let (t, after) = cap_section total accumulated s in t ∷ cap_loop total after sections

unfoldable pub apply_total_cap : List Section → ℕ → List Section
unfolding cap_loop
apply_total_cap sections total = cap_loop total 0 sections
