-- ===== src/Compaction/Lost.antt =====
-- crates/gateway/src/runtime/compact.rs, `run_compaction`, and the history that the next turn of
-- turn.rs reads.
use serial_agent.Prelude.{
  suc, ◌≡◌, ◌≢◌, refl, ap, ◌∙◌, arith, true, some, List, [], ◌∷◌, ◌++◌, Bytes, length, count_if,
  get_elem?, drop, get, length-append, bytes_eq,
}
use serial_agent.Compaction.{
  TranscriptLine, CompactionConfig, is_user, is_compaction_marker, boundary_scan,
  compaction_boundary, compaction_line, append_marker, split_for_compaction, run_compaction,
  history_of,
}

get_elem?-last :
    (ls : List TranscriptLine) (l : TranscriptLine) → get_elem? (ls ++ l ∷ []) (length ls) ≡ some l
get_elem?-last [] l = refl
get_elem?-last (k ∷ ls) l = get_elem?-last ls l

drop-last :
    (ls : List TranscriptLine) (l : TranscriptLine) → drop (length ls) (ls ++ l ∷ []) ≡ l ∷ []
drop-last [] l = refl
drop-last (k ∷ ls) l = drop-last ls l

boundary-marker :
    (ls : List TranscriptLine) (l : TranscriptLine)
    → is_compaction_marker l ≡ true
    → compaction_boundary (ls ++ l ∷ []) ≡ length ls
unfolding compaction_boundary boundary_scan
boundary-marker ls l h =
    let one_more : length (ls ++ l ∷ []) ≡ suc (length ls) =
      omega (arith, length-append ls (l ∷ [])) in
    ap (boundary_scan (ls ++ l ∷ [])) one_more ∙ rw (get_elem?-last ls l) (rw h refl)

-- Where there is something to compact and the model answers, the history of the next turn is the
-- summary alone: of the lines that the split was to keep, none is left.
pub history_of-run_compaction :
    (config : CompactionConfig) (now summary : Bytes) (lines : List TranscriptLine)
    → (split_for_compaction lines config.keep_last_turns).0 ≢ []
    → history_of (run_compaction config now (some summary) lines)
      ≡ compaction_line now summary
          (count_if is_user (split_for_compaction lines config.keep_last_turns).0)
        ∷ []
unfolding history_of run_compaction is_compaction_marker compaction_line get
history_of-run_compaction config now summary lines some_old =
    go (split_for_compaction lines config.keep_last_turns).0 some_old
  where
    go :
        (old : List TranscriptLine)
        → old ≢ []
        → history_of (append_marker old lines now (some summary))
          ≡ compaction_line now summary (count_if is_user old) ∷ []
    go [] h = absurd (h refl)
    go (l ∷ ls) h =
        let marker = compaction_line now summary (count_if is_user (l ∷ ls)) in
        let marked : is_compaction_marker marker ≡ true = refl in
        ap (λ n. drop n (lines ++ marker ∷ [])) (boundary-marker lines marker marked)
        ∙ drop-last lines marker
