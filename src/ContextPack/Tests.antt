-- ===== src/ContextPack/Tests.antt =====
-- The context pack of crates/contextpack on small examples.
use serial_agent.Prelude.{
  ◌+◌, ◌≤◌, ◌≡◌, refl, arith, true, false, some, List, [], ◌∷◌, map, bytes, length,
}
use serial_agent.ContextPack.{
  Section, is_char_boundary, file_marker, cap_marker, truncate_per_file, apply_total_cap, cap_loop,
  cap_section, floor_char_boundary, cut_section,
}
use serial_agent.ContextPack.Cap.{total_kept, apply_total_cap-bounded}
use serial_agent.ContextPack.Builder.{WorkspaceFile, normalize, decimal, digits}

-- A two-byte character is not cut in half.
whole_character : (truncate_per_file (97 ∷ 195 ∷ 169 ∷ 98 ∷ []) 2).0 ≡ 97 ∷ file_marker
unfolding truncate_per_file floor_char_boundary is_char_boundary
whole_character = refl

shows_two_digits : decimal 42 ≡ bytes "42"
unfolding decimal digits
shows_two_digits = refl

line_ends : normalize (97 ∷ 13 ∷ 10 ∷ 13 ∷ []) ≡ 97 ∷ 10 ∷ 13 ∷ []
unfolding normalize
line_ends = refl

abbrev section_a : Section
section_a = record {
  filename = bytes "A.md";
  content = bytes "aaaa";
  raw_chars = 4;
  truncated_per_file = false;
  truncated_total_cap = false;
  included = true;
  missing = false;
}

abbrev section_b : Section
section_b = record {
  filename = bytes "B.md";
  content = bytes "bbbbbb";
  raw_chars = 6;
  truncated_per_file = false;
  truncated_total_cap = false;
  included = true;
  missing = false;
}

abbrev sections : List Section
sections = section_a ∷ section_b ∷ section_a ∷ []

-- The first section passes, the second is cut and the third is dropped.
cap_of_eight : map (λ s. s.included) (apply_total_cap sections 8) ≡ true ∷ true ∷ false ∷ []
unfolding apply_total_cap cap_loop cap_section cut_section
cap_of_eight = refl

apply_total_cap-bounded_example : total_kept (apply_total_cap sections 8) ≤ 8 + length cap_marker
apply_total_cap-bounded_example = apply_total_cap-bounded sections 8

sections_size : total_kept sections ≤ 20
unfolding total_kept
sections_size = omega arith

abbrev files : List WorkspaceFile
files = record { name = bytes "SOUL.md"; content = some (bytes "soul") } ∷ []
