-- ===== src/Compaction.antt =====
-- crates/gateway/src/runtime/compact.rs: the summary that takes the place of old turns of a
-- transcript, and what a turn then reads (crates/gateway/src/runtime/turn.rs). The transcript file
-- is its list of lines.
pub mod Split
pub mod Lost
pub mod Tests
use serial_agent.Prelude.{
  ℕ, zero, suc, ◌+◌, ◌≡◌, Bool, true, false, ◌&&◌, Option, none, some, List, [], ◌∷◌, ◌++◌, ltb,
  leb, if◌then◌else◌, Bytes, bytes, bytes_beq, bytes_eq, length, get_elem?, take, drop, count_if,
  Map, get,
}

-- A value of a JSON object, as far as the code looks at it.
pub data JsonValue : Type 0 where
  bool : Bool → JsonValue
  number : ℕ → JsonValue
  other : Bytes → JsonValue

-- `TranscriptLine`; metadata that is no object has no entries.
pub record TranscriptLine : Type 0 where
  pub timestamp : Bytes
  pub role : Bytes
  pub content : Bytes
  pub metadata : Option (Map Bytes JsonValue)

pub record CompactionConfig : Type 0 where
  pub auto : Bool
  pub max_turns : ℕ
  pub keep_last_turns : ℕ

abbrev as_bool : Option JsonValue → Bool
as_bool none = false
as_bool (some (bool b)) = b
as_bool (some (number n)) = false
as_bool (some (other text)) = false

abbrev entry : Option (Map Bytes JsonValue) → Bytes → Option JsonValue
entry none key = none
entry (some m) key = get key m

unfoldable pub is_compaction_marker : TranscriptLine → Bool
is_compaction_marker l = as_bool (entry l.metadata (bytes "compaction"))

abbrev pub is_user : TranscriptLine → Bool
is_user l = bytes_beq l.role (bytes "user")

abbrev pub holds_at : (TranscriptLine → Bool) → Option TranscriptLine → Bool
holds_at p none = false
holds_at p (some l) = p l

-- The loop from the end for the last marker.
unfoldable pub boundary_scan : List TranscriptLine → ℕ → ℕ
unfolding is_compaction_marker
boundary_scan lines zero = 0
boundary_scan lines (suc i) =
    let before = boundary_scan lines i in
    if holds_at is_compaction_marker (get_elem? lines i) then i else before

unfoldable pub compaction_boundary : List TranscriptLine → ℕ
unfolding boundary_scan
compaction_boundary lines = boundary_scan lines (length lines)

unfoldable pub active_turn_count_from : List TranscriptLine → ℕ → ℕ
active_turn_count_from lines boundary = count_if is_user (drop boundary lines)

unfoldable pub should_compact_with_boundary : List TranscriptLine → CompactionConfig → ℕ → Bool
unfolding active_turn_count_from
should_compact_with_boundary lines config boundary =
    if config.auto then ltb config.max_turns (active_turn_count_from lines boundary) else false

unfoldable pub active_turn_count : List TranscriptLine → ℕ
unfolding active_turn_count_from compaction_boundary
active_turn_count lines = active_turn_count_from lines (compaction_boundary lines)

unfoldable pub should_compact : List TranscriptLine → CompactionConfig → Bool
unfolding active_turn_count
should_compact lines config =
    if config.auto then ltb config.max_turns (active_turn_count lines) else false

-- Where the active lines start: after the marker, if there is one.
abbrev pub active_start : List TranscriptLine → ℕ
unfolding compaction_boundary is_compaction_marker
active_start lines =
    let start = compaction_boundary lines in
    if holds_at is_compaction_marker (get_elem? lines start) then start + 1 else start

-- The loop from the end for the line from which turns are kept.
unfoldable pub keep_scan : ℕ → List TranscriptLine → ℕ → ℕ → ℕ
keep_scan keep active zero user_count = 0
keep_scan keep active (suc i) user_count =
    let counting = keep_scan keep active i (user_count + 1) in
    let passing = keep_scan keep active i user_count in
    if holds_at is_user (get_elem? active i)
    then if leb keep (user_count + 1) then i else counting
    else passing

unfoldable pub split_for_compaction :
    List TranscriptLine → ℕ → List TranscriptLine × List TranscriptLine
unfolding keep_scan active_start
split_for_compaction lines keep_last_turns =
    let active = drop (active_start lines) lines in
    let keep_from = keep_scan keep_last_turns active (length active) 0 in
    (take keep_from active, drop keep_from active)

-- `compaction_line`; the time is given.
unfoldable pub compaction_line : Bytes → Bytes → ℕ → TranscriptLine
compaction_line now summary turns_compacted = record {
  timestamp = now;
  role = bytes "system";
  content = summary;
  metadata =
      some
        ((bytes "compaction", bool true) ∷ (bytes "turns_compacted", number turns_compacted) ∷ []);
}

-- `run_compaction`: the transcript after it, where `summary` is the answer of the model, or none
-- on an error; the file is appended to and never rewritten.
abbrev append_marker :
    List TranscriptLine → List TranscriptLine → Bytes → Option Bytes → List TranscriptLine
unfolding compaction_line
append_marker [] lines now summary = lines
append_marker (l ∷ ls) lines now none = lines
append_marker (l ∷ ls) lines now (some text) =
    lines ++ compaction_line now text (count_if is_user (l ∷ ls)) ∷ []

unfoldable pub run_compaction :
    CompactionConfig → Bytes → Option Bytes → List TranscriptLine → List TranscriptLine
unfolding split_for_compaction append_marker
run_compaction config now summary lines =
    append_marker (split_for_compaction lines config.keep_last_turns).0 lines now summary

-- The history that a turn reads: the lines from the last marker on.
unfoldable pub history_of : List TranscriptLine → List TranscriptLine
unfolding compaction_boundary
history_of lines = drop (compaction_boundary lines) lines
