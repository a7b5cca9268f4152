-- ===== src/ContextPack/Report.antt =====
-- crates/contextpack/src/builder.rs: the report of a build next to the text it assembles.
use serial_agent.Prelude.{
  ℕ, zero, suc, ◌+◌, ◌*◌, ◌/◌, ◌%◌, ◌-◌, ◌≤◌, ◌<◌, ◌≡◌, refl, ap, ◌∙◌, Bool, Option, none, some,
  List, [], ◌∷◌, map, arith, ltb, Bytes, length, Map, get, bytes_eq, Bool-cases, inl, inr,
}
use serial_agent.ContextPack.{Section, cap_marker, apply_total_cap}
use serial_agent.ContextPack.Cap.{total_kept, apply_total_cap-bounded, names-apply_total_cap}
use serial_agent.ContextPack.Builder.{
  WorkspaceFile, SessionMode, file_names, index_files, sections_of, section_of, content_of, digits,
  decimal,
}
use serial_agent.ContextPack.Assembly.{FileReport, report_of, assemble, build}

pub total_injected : List FileReport → ℕ
total_injected [] = 0
total_injected (r ∷ reports) = r.injected_chars + total_injected reports

name-section_of :
    (max_per_file : ℕ) (name : Bytes) (o : Option Bytes)
    → (section_of max_per_file name o).filename ≡ name
name-section_of max_per_file name none = refl
name-section_of max_per_file name (some raw) = refl

names-sections_of :
    (max_per_file : ℕ) (m : Map Bytes WorkspaceFile) (names : List Bytes)
    → map (λ s. s.filename) (sections_of max_per_file m names) ≡ names
names-sections_of max_per_file m [] = refl
names-sections_of max_per_file m (name ∷ names) =
    rw (name-section_of max_per_file name (content_of (get name m)))
      (ap (◌∷◌ name) (names-sections_of max_per_file m names))

names-assemble :
    (sections : List Section)
    → map (λ r. r.filename) (assemble sections).1 ≡ map (λ s. s.filename) sections
unfolding assemble report_of
names-assemble [] = refl
names-assemble (s ∷ sections) = ap (◌∷◌ s.filename) (names-assemble sections)

injected-assemble :
    (sections : List Section) → total_injected (assemble sections).1 ≤ total_kept sections
unfolding assemble report_of total_injected total_kept
injected-assemble [] = omega arith
injected-assemble (s ∷ sections) = ground (arith, injected-assemble sections)

-- The report of a build lists the files of the mode in their order; the bytes of files that were
-- injected come to no more than the total and one marker; and the size it gives is that of the text.
pub build_lem :
    (max_per_file total_max : ℕ) (files : List WorkspaceFile) (mode : SessionMode)
    (is_first_run : Bool) (skills_index user_facts : Option Bytes)
    → let (text, report) =
        build max_per_file total_max files mode is_first_run skills_index user_facts in
      (map (λ r. r.filename) report.files ≡ file_names mode is_first_run)
      × (total_injected report.files ≤ total_max + length cap_marker)
      × (report.total_injected_chars ≡ length text)
unfolding build
build_lem max_per_file total_max files mode is_first_run skills_index user_facts =
    let read = sections_of max_per_file (index_files files []) (file_names mode is_first_run) in
    let sections = apply_total_cap read total_max in
    (
      names-assemble sections
          ∙ names-apply_total_cap read total_max
          ∙ names-sections_of max_per_file (index_files files []) (file_names mode is_first_run),
      omega (arith, injected-assemble sections, apply_total_cap-bounded read total_max),
      refl,
    )

-- The number that digits stand for, after a number read before them.
pub read_digits : ℕ → Bytes → ℕ
read_digits n [] = n
read_digits n (d ∷ ds) = read_digits (n * 10 + (d - 48)) ds

read_digits-digits :
    (fuel n : ℕ) (shown : Bytes)
    → n < fuel
    → read_digits 0 (digits fuel n shown) ≡ read_digits n shown
unfolding read_digits digits
read_digits-digits zero n shown h = absurd (omega arith)
read_digits-digits (suc fuel) n shown h = elim (Bool-cases (ltb n 10)) [
  | inl one ↦ rw one (ap (λ k. read_digits k shown) (omega arith))
  | inr several ↦ rw several (
      read_digits-digits fuel (n / 10) ((48 + n % 10) ∷ shown) (ground arith)
      ∙ ap (λ k. read_digits k shown) (omega arith))
]

-- The decimal text of a size, as the section headings print it, reads back as the size.
pub read_digits-decimal : (n : ℕ) → read_digits 0 (decimal n) ≡ n
unfolding decimal read_digits
read_digits-decimal n = read_digits-digits (suc n) n [] (omega arith)
