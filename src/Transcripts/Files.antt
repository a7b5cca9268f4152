-- ===== src/Transcripts/Files.antt =====
-- Lines that are written as JSON and read back (crates/sessions/src/transcript.rs).
use serial_agent.Prelude.{◌≡◌, refl, sym, ap, ◌∙◌, false, some, List, [], ◌∷◌, ◌++◌, Bytes}
use mathlib.Core.List.{append_assoc}
use serial_agent.Strings.{split_on, text_lines, finish_lines, strip_cr, is_blank}
use serial_agent.Strings.Pieces.{Lacks, split_on-append, some_piece}
use serial_agent.Compaction.{TranscriptLine}
use serial_agent.Transcripts.{Json, serialize_lines, parse_lines, read_jsonl_file}

-- What the program relies on of serde_json: a line is read back as it was written; its text has no
-- line feed and no carriage return, which JSON escapes, and is not blank.
pub record IsFaithful (j : Json) : Type 0 where
  pub reads_back : (l : TranscriptLine) → j.from_json (j.to_json l) ≡ some l
  pub one_line : (l : TranscriptLine) → Lacks 10 (j.to_json l)
  pub no_return : (l : TranscriptLine) → Lacks 13 (j.to_json l)
  pub not_blank : (l : TranscriptLine) → is_blank (j.to_json l) ≡ false

strip_cr-Lacks : (s : Bytes) → Lacks 13 s → strip_cr s ≡ s
strip_cr-Lacks [] h = refl
strip_cr-Lacks (b ∷ []) h = rw h.0 refl
strip_cr-Lacks (b ∷ c ∷ s) h = ap (◌∷◌ b) (strip_cr-Lacks (c ∷ s) h.1)

text_lines-append :
    (s t : Bytes) → Lacks 10 s → Lacks 13 s → text_lines (s ++ (10 ∷ t)) ≡ s ∷ text_lines t
unfolding text_lines
text_lines-append s t h k =
    let (p, (ps, e)) = some_piece 10 t in
    ap finish_lines (split_on-append 10 s t h ∙ ap (◌∷◌ s) e)
    ∙ rw (strip_cr-Lacks s k) (ap (λ pieces. s ∷ finish_lines pieces) (sym e))

module _ (j : Json) (f : IsFaithful j) where
  pub read_jsonl_file-serialize_lines :
      (lines : List TranscriptLine) → read_jsonl_file j (some (serialize_lines j lines)) ≡ lines
  unfolding read_jsonl_file serialize_lines parse_lines
  read_jsonl_file-serialize_lines [] = unfold text_lines split_on in refl
  read_jsonl_file-serialize_lines (l ∷ lines) =
      let rest = read_jsonl_file-serialize_lines lines in
      let texts =
        text_lines-append (j.to_json l) (serialize_lines j lines) (f.one_line l) (f.no_return l) in
      ap (parse_lines j) texts ∙ rw (f.not_blank l, f.reads_back l) (ap (◌∷◌ l) rest)

pub serialize_lines-append :
    (j : Json) (lines more : List TranscriptLine)
    → serialize_lines j (lines ++ more) ≡ serialize_lines j lines ++ serialize_lines j more
unfolding serialize_lines
serialize_lines-append j [] more = refl
serialize_lines-append j (l ∷ lines) more =
    rw (serialize_lines-append j lines more)
      (sym (append_assoc (j.to_json l) (10 ∷ serialize_lines j lines) (serialize_lines j more)))
