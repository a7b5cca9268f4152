-- ===== src/ContextPack/Cut.antt =====
-- crates/contextpack/src/truncation.rs, `truncate_per_file`, and the cut at a character boundary.
use mathlib.Core.List.{append-nil}
use serial_agent.Prelude.{
  ℕ, zero, suc, ◌≤◌, ◌≡◌, refl, sym, true, [], ◌++◌, arith, ltb, leb, if◌then◌else◌, Bytes, length,
  take, min, eqb_iff, ℕ_discrete, take_of_length-le, Bool-cases, inl, inr,
}
use serial_agent.ContextPack.{
  is_char_boundary, floor_from, floor_char_boundary, file_marker, truncate_per_file,
}

pub floor_from-le : (s : Bytes) (i : ℕ) → floor_from s i ≤ i
unfolding floor_from
floor_from-le s zero = omega arith
floor_from-le s (suc i) = ground (arith, floor_from-le s i)

floor_from-boundary : (s : Bytes) (i : ℕ) → is_char_boundary s (floor_from s i) ≡ true
unfolding floor_from is_char_boundary
floor_from-boundary s zero = refl
floor_from-boundary s (suc i) = elim (Bool-cases (is_char_boundary s (suc i))) [
  | inl here ↦ rw here here
  | inr not_here ↦ rw not_here (floor_from-boundary s i)
]

floor_from-largest :
    (s : Bytes) (i j : ℕ) → j ≤ i → is_char_boundary s j ≡ true → j ≤ floor_from s i
unfolding floor_from
floor_from-largest s zero j h b = h
floor_from-largest s (suc i) j h b = elim (Bool-cases (is_char_boundary s (suc i))) [
  | inl here ↦ rw here h
  | inr not_here ↦ elim (ℕ_discrete j (suc i)) [
    | yes same ↦ absurd (ground (arith, rw same at b))
    | no other ↦ rw not_here (floor_from-largest s i j (omega arith) b)
  ]
]

end_is_boundary : (s : Bytes) → is_char_boundary s (length s) ≡ true
unfolding is_char_boundary
end_is_boundary s = ground (arith, eqb_iff (length s) (length s))

-- The floor of an index in a text is a boundary of the text, no later than the index, and no
-- boundary up to the index is later.
pub floor_char_boundary_lem :
    (s : Bytes) (i j : ℕ)
    → j ≤ i
    → j ≤ length s
    → is_char_boundary s j ≡ true
    → let b = floor_char_boundary s i in
      (is_char_boundary s b ≡ true) × (b ≤ i) × (b ≤ length s) × (j ≤ b)
unfolding floor_char_boundary
floor_char_boundary_lem s i j h k bound = elim (Bool-cases (leb (length s) i)) [
  | inl all ↦ rw all (end_is_boundary s, ground arith, omega arith, k)
  | inr less ↦
      let b = floor_from-le s i in
      rw less (floor_from-boundary s i, b, ground (arith, b), floor_from-largest s i j h bound)
]

-- A file that fits is passed on as it is. Else the flag is set, and what is passed on is the
-- content up to a character boundary no later than the size, with the marker after it.
pub truncate_per_file_lem :
    (content : Bytes) (max_chars : ℕ)
    → ((truncate_per_file content max_chars).1 ≡ ltb max_chars (length content))
      × (b : ℕ) × (b ≤ min max_chars (length content))
      × (is_char_boundary content b ≡ true)
      × ((truncate_per_file content max_chars).0
          ≡ take b content ++ (if (truncate_per_file content max_chars).1 then file_marker else []))
unfolding truncate_per_file is_char_boundary
truncate_per_file_lem content max_chars = elim (Bool-cases (leb (length content) max_chars)) [
  | inl fits ↦ rw fits (
    ground arith,
    length content,
    ground arith,
    end_is_boundary content,
    sym (rw (take_of_length-le (length content) content (omega arith), append-nil) refl),
  )
  | inr long ↦
      let cut = floor_from-le content max_chars in
      rw long (
        ground arith,
        floor_from content max_chars,
        ground (arith, cut),
        floor_from-boundary content max_chars,
        refl,
      )
]
