-- ===== src/ContextPack/Cap.antt =====
-- crates/contextpack/src/truncation.rs, `apply_total_cap`.
use serial_agent.Prelude.{
  ℕ, ◌+◌, ◌-◌, ◌≤◌, ◌<◌, ◌≡◌, refl, ap, true, false, List, [], ◌∷◌, arith, ltb, leb, map,
  if◌then◌else◌, length, take, length-append, length-take, Bool-cases, inl, inr, ◌⊎◌,
}
use serial_agent.ContextPack.Cut.{floor_from-le}
use serial_agent.ContextPack.{
  Section, floor_char_boundary, cap_marker, cut_section, cap_section, cap_loop, apply_total_cap,
}

-- The bytes of a section that are injected, and those of all.
abbrev pub kept : Section → ℕ
kept s = if s.included then length s.content else 0

unfoldable pub total_kept : List Section → ℕ
total_kept [] = 0
total_kept (s ∷ sections) = kept s + total_kept sections

length-cut :
    (s : Section) (remaining : ℕ)
    → remaining < length s.content
    → length (cut_section s remaining).content ≤ remaining + 24
unfolding floor_char_boundary
length-cut s remaining h =
    let cut = floor_char_boundary s.content remaining in
    ground (
      arith,
      length-append (take cut s.content) cap_marker,
      length-take cut s.content,
      floor_from-le s.content remaining,
    )

leb_of : (b a : ℕ) → a ≤ b → leb a b ≡ true
leb_of b a h = ground arith

-- What a round does to a section that is injected: it passes, it is cut and fills the cap, or it
-- is dropped.
passes :
    (total accumulated : ℕ) (s : Section)
    → accumulated + kept s ≤ total
    → cap_section total accumulated s ≡ (s, accumulated + kept s)
unfolding cap_section
passes total accumulated s h = elim (Bool-cases s.included) [
  | inl on ↦ rw on (rw (leb_of total (accumulated + length s.content) (ground arith)) refl)
  | inr off ↦ rw off (ap (λ n. (record s { included = false }, n)) (omega arith))
]

full_section :
    (total : ℕ) (s : Section)
    → ((cap_section total total s).1 ≡ total) × (kept (cap_section total total s).0 ≡ 0)
unfolding cap_section
full_section total s = ground arith

total_kept-full :
    (total : ℕ) (sections : List Section) → total_kept (cap_loop total total sections) ≡ 0
unfolding total_kept cap_loop
total_kept-full total [] = refl
total_kept-full total (s ∷ sections) =
    let (same, nothing) = full_section total s in
    rw (nothing, same) (omega (arith, total_kept-full total sections))

cap_section-cases :
    (total accumulated : ℕ) (s : Section)
    → accumulated ≤ total
    → let (t, after) = cap_section total accumulated s in
      ((after ≤ total) × (accumulated + kept t ≡ after))
      ⊎ ((after ≡ total) × (accumulated + kept t ≤ total + 24))
unfolding cap_section
cap_section-cases total accumulated s h = ground (arith, length-cut s (total - accumulated))

total_kept-cap_loop :
    (total accumulated : ℕ) (sections : List Section)
    → accumulated ≤ total
    → accumulated + total_kept (cap_loop total accumulated sections) ≤ total + 24
unfolding total_kept cap_loop
total_kept-cap_loop total accumulated [] h = omega arith
total_kept-cap_loop total accumulated (s ∷ sections) h =
    let (t, after) = cap_section total accumulated s in
    elim (cap_section-cases total accumulated s h) [
      | inl (room, sum) ↦ omega (arith, total_kept-cap_loop total after sections room, sum)
      | inr (filled, over) ↦ rw filled (omega (arith, total_kept-full total sections, over))
    ]

-- Whatever the sections, those that are left hold no more bytes than the cap and one marker.
pub apply_total_cap-bounded :
    (sections : List Section) (total : ℕ)
    → total_kept (apply_total_cap sections total) ≤ total + length cap_marker
unfolding apply_total_cap
apply_total_cap-bounded sections total =
    omega (arith, total_kept-cap_loop total 0 sections (omega arith))

cap_loop-fits :
    (total accumulated : ℕ) (sections : List Section)
    → accumulated + total_kept sections ≤ total
    → cap_loop total accumulated sections ≡ sections
unfolding total_kept cap_loop
cap_loop-fits total accumulated [] h = refl
cap_loop-fits total accumulated (s ∷ sections) h =
    rw (passes total accumulated s (omega arith))
      (ap (◌∷◌ s) (cap_loop-fits total (accumulated + kept s) sections (omega arith)))

-- Where all sections fit, each is left as it was.
pub apply_total_cap-fits :
    (sections : List Section) (total : ℕ)
    → total_kept sections ≤ total
    → apply_total_cap sections total ≡ sections
unfolding apply_total_cap
apply_total_cap-fits sections total h = cap_loop-fits total 0 sections (omega (arith, h))

name-cap_section :
    (total accumulated : ℕ) (s : Section)
    → (cap_section total accumulated s).0.filename ≡ s.filename
unfolding cap_section cut_section
name-cap_section total accumulated s = elim (Bool-cases s.included) [
  | inl on ↦ elim (Bool-cases (leb (accumulated + length s.content) total)) [
    | inl fits ↦ rw (on, fits) refl
    | inr crosses ↦ elim (Bool-cases (ltb accumulated total)) [
      | inl room ↦ rw (on, crosses, room) refl
      | inr full ↦ rw (on, crosses, full) refl
    ]
  ]
  | inr off ↦ rw off refl
]

names-cap_loop :
    (total accumulated : ℕ) (sections : List Section)
    → map (λ s. s.filename) (cap_loop total accumulated sections) ≡ map (λ s. s.filename) sections
unfolding cap_loop
names-cap_loop total accumulated [] = refl
names-cap_loop total accumulated (s ∷ sections) =
    rw (name-cap_section total accumulated s)
      (ap (◌∷◌ s.filename) (names-cap_loop total (cap_section total accumulated s).1 sections))

pub names-apply_total_cap :
    (sections : List Section) (total : ℕ)
    → map (λ s. s.filename) (apply_total_cap sections total) ≡ map (λ s. s.filename) sections
unfolding apply_total_cap
names-apply_total_cap sections total = names-cap_loop total 0 sections
