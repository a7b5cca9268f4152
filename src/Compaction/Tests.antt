-- ===== src/Compaction/Tests.antt =====
-- crates/gateway/src/runtime/compact.rs on a transcript of three turns.
use serial_agent.Prelude.{
  ◌≡◌, ◌≢◌, refl, ap, arith, true, none, some, List, [], ◌∷◌, ◌++◌, min, Bytes, bytes, bytes_eq,
  length, drop, count_if,
}
use serial_agent.Compaction.{
  TranscriptLine, CompactionConfig, is_user, is_compaction_marker, boundary_scan,
  compaction_boundary, active_start, keep_scan, split_for_compaction, compaction_line,
  run_compaction, history_of,
}
use serial_agent.Compaction.Split.{split_for_compaction_lem}
use serial_agent.Compaction.Lost.{history_of-run_compaction}

abbrev line_of : Bytes → Bytes → TranscriptLine
line_of role content = record {
  timestamp = bytes "t";
  role = role;
  content = content;
  metadata = none;
}

abbrev transcript : List TranscriptLine
transcript =
    line_of (bytes "user") (bytes "1")
    ∷ line_of (bytes "assistant") (bytes "a")
    ∷ line_of (bytes "user") (bytes "2")
    ∷ line_of (bytes "user") (bytes "3")
    ∷ []

abbrev config : CompactionConfig
config = record { auto = true; max_turns = 2; keep_last_turns = 2 }

-- Two lines are to be compacted and two to be kept.
two_and_two : length (split_for_compaction transcript 2).0 ≡ 2
unfolding split_for_compaction compaction_boundary boundary_scan is_compaction_marker keep_scan
two_and_two = refl

split_for_compaction_lem_example :
    let (to_compact, to_keep) = split_for_compaction transcript 2 in
    let active = drop (active_start transcript) transcript in
    (to_compact ++ to_keep ≡ active) × (count_if is_user to_keep ≡ min 2 (count_if is_user active))
split_for_compaction_lem_example = split_for_compaction_lem transcript 2 (omega arith)

some_old : (split_for_compaction transcript config.keep_last_turns).0 ≢ []
some_old e = absurd (omega (arith, two_and_two, ap length e))

history_of-run_compaction_example :
    history_of (run_compaction config (bytes "t") (some (bytes "sum")) transcript)
    ≡ compaction_line
        (bytes "t")
        (bytes "sum")
        (count_if is_user (split_for_compaction transcript 2).0)
      ∷ []
history_of-run_compaction_example =
    history_of-run_compaction config (bytes "t") (bytes "sum") transcript some_old
