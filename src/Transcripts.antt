-- ===== src/Transcripts.antt =====
-- crates/sessions/src/transcript.rs: the JSONL files of the sessions and the cache of their lines.
-- JSON is a parameter: how a line is written, and how it is read.
mod Files
mod Coherence
mod Codec
mod Tests
use serial_agent.Prelude.{
  ℕ, Bool, true, false, Option, none, some, List, [], ◌∷◌, ◌++◌, if◌then◌else◌, Bytes, bytes_eq,
  Map, get, insert, remove, unwrap_or,
}
use serial_agent.Strings.{text_lines, is_blank}
use serial_agent.Compaction.{TranscriptLine}

-- The files by session id, and the cache.
pub record TranscriptWriter : Type 0 where
  pub files : Map Bytes Bytes
  pub cache : Map Bytes (List TranscriptLine)

-- `to_json` and `from_json` stand for serde_json on a line.
pub record Json : Type 0 where
  pub to_json : TranscriptLine → Bytes
  pub from_json : Bytes → Option TranscriptLine

module _ (j : Json) where
  unfoldable pub serialize_lines : List TranscriptLine → Bytes
  serialize_lines [] = []
  serialize_lines (l ∷ lines) = j.to_json l ++ (10 ∷ serialize_lines lines)

  abbrev pub push_parsed : Option TranscriptLine → List TranscriptLine → List TranscriptLine
  push_parsed none lines = lines
  push_parsed (some l) lines = l ∷ lines

  -- Blank lines and lines that do not parse are skipped.
  unfoldable pub parse_lines : List Bytes → List TranscriptLine
  unfolding is_blank
  parse_lines [] = []
  parse_lines (text ∷ texts) =
      let lines = parse_lines texts in
      if is_blank text then lines else push_parsed (j.from_json text) lines

  -- A file that is not there has no lines.
  unfoldable pub read_jsonl_file : Option Bytes → List TranscriptLine
  unfolding parse_lines text_lines
  read_jsonl_file none = []
  read_jsonl_file (some raw) = parse_lines (text_lines raw)

  unfoldable pub write_to_disk : Bytes → List TranscriptLine → TranscriptWriter → TranscriptWriter
  unfolding serialize_lines
  write_to_disk id lines w = record w {
    files = insert id (unwrap_or (get id w.files) [] ++ serialize_lines lines) w.files;
  }

  -- `append`: nothing for no lines; where the write fails, as `writes` tells, the cache stays. The
  -- entry of the cache that is missing starts empty.
  unfoldable pub append :
      Bool → Bytes → List TranscriptLine → TranscriptWriter → TranscriptWriter × Bool
  unfolding write_to_disk
  append writes id [] w = (w, true)
  append writes id (l ∷ lines) w =
      if writes
      then (
        record (write_to_disk id (l ∷ lines) w) {
          cache = insert id (unwrap_or (get id w.cache) [] ++ l ∷ lines) w.cache;
        },
        true,
      )
      else (w, false)

  abbrev remembered :
      Bytes
      → TranscriptWriter
      → Option (List TranscriptLine)
      → TranscriptWriter × List TranscriptLine
  remembered id w (some lines) = (w, lines)
  remembered id w none =
      let lines = read_jsonl_file (get id w.files) in
      (record w { cache = insert id lines w.cache }, lines)

  -- `read`, from the cache or else from the file.
  unfoldable pub read : Bytes → TranscriptWriter → TranscriptWriter × List TranscriptLine
  unfolding read_jsonl_file
  read id w = remembered id w (get id w.cache)

unfoldable pub invalidate_cache : Bytes → TranscriptWriter → TranscriptWriter
invalidate_cache id w = record w { cache = remove id w.cache }
