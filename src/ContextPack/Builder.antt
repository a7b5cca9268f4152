-- ===== src/ContextPack/Builder.antt =====
-- crates/contextpack/src/builder.rs, injection.rs and report.rs: which workspace files a session
-- is given, the text that is assembled from them, and the report on it.
use serial_agent.Prelude.{
  ℕ, zero, suc, ◌+◌, ◌%◌, ◌/◌, Bool, true, false, not, ◌&&◌, Option, none, some, List, [], ◌∷◌,
  ◌++◌, ltb, eqb, if◌then◌else◌, Bytes, bytes, bytes_eq, length, Map, get, insert,
}
use serial_agent.ContextPack.{Section, truncate_per_file}

-- `DEFAULT_FILES` and the conditional files.
abbrev pub default_files : List Bytes
default_files =
    bytes "AGENTS.md"
    ∷ bytes "SOUL.md"
    ∷ bytes "USER.md"
    ∷ bytes "IDENTITY.md"
    ∷ bytes "TOOLS.md"
    ∷ []

abbrev pub bootstrap_file : Bytes
bootstrap_file = bytes "BOOTSTRAP.md"

abbrev pub heartbeat_file : Bytes
heartbeat_file = bytes "HEARTBEAT.md"

abbrev pub memory_file : Bytes
memory_file = bytes "MEMORY.md"

pub record WorkspaceFile : Type 0 where
  pub name : Bytes
  pub content : Option Bytes

pub data SessionMode : Type 0 where
  normal private heartbeat bootstrap : SessionMode

-- The files that the mode asks for, and the bootstrap file on a first run.
abbrev pub files_of_mode : SessionMode → List Bytes
files_of_mode normal = default_files
files_of_mode private = default_files ++ memory_file ∷ []
files_of_mode heartbeat = default_files ++ heartbeat_file ∷ []
files_of_mode bootstrap = bytes "AGENTS.md" ∷ bootstrap_file ∷ []

abbrev pub is_bootstrap : SessionMode → Bool
is_bootstrap bootstrap = true
is_bootstrap _ = false

unfoldable pub file_names : SessionMode → Bool → List Bytes
file_names mode is_first_run =
    if is_first_run && not (is_bootstrap mode)
    then files_of_mode mode ++ bootstrap_file ∷ []
    else files_of_mode mode

-- The files by name; of two with the same name the later one stands.
abbrev pub index_files : List WorkspaceFile → Map Bytes WorkspaceFile → Map Bytes WorkspaceFile
index_files [] m = m
index_files (f ∷ files) m = index_files files (insert f.name f m)

abbrev starts_line_feed : Bytes → Bool
starts_line_feed [] = false
starts_line_feed (c ∷ s) = eqb c 10

-- `replace("\r\n", "\n")`: a carriage return before a line feed goes.
unfoldable pub normalize : Bytes → Bytes
normalize [] = []
normalize (c ∷ s) =
    let rest = normalize s in if eqb c 13 && starts_line_feed s then rest else c ∷ rest

abbrev pub content_of : Option WorkspaceFile → Option Bytes
content_of none = none
content_of (some f) = f.content

-- The section of a file that is there, or the marker of one that is missing.
abbrev pub section_of : ℕ → Bytes → Option Bytes → Section
section_of max_per_file name none = record {
  filename = name;
  content = [];
  raw_chars = 0;
  truncated_per_file = false;
  truncated_total_cap = false;
  included = true;
  missing = true;
}
section_of max_per_file name (some raw) =
    let (content, cut) = truncate_per_file (normalize raw) max_per_file in
    record {
      filename = name;
      content = content;
      raw_chars = length raw;
      truncated_per_file = cut;
      truncated_total_cap = false;
      included = true;
      missing = false;
    }

abbrev pub sections_of : ℕ → Map Bytes WorkspaceFile → List Bytes → List Section
sections_of max_per_file m [] = []
sections_of max_per_file m (name ∷ names) =
    section_of max_per_file name (content_of (get name m)) ∷ sections_of max_per_file m names

-- The digits of a number in decimal; as many rounds as the number are more than enough.
unfoldable pub digits : ℕ → ℕ → Bytes → Bytes
digits zero n shown = shown
digits (suc fuel) n shown =
    let more = digits fuel (n / 10) ((48 + n % 10) ∷ shown) in
    if ltb n 10 then (48 + n) ∷ shown else more

unfoldable pub decimal : ℕ → Bytes
unfolding digits
decimal n = digits (suc n) n []

abbrev show_bool : Bool → Bytes
show_bool true = bytes "true"
show_bool false = bytes "false"

abbrev line : Bytes → Bytes → Bytes
line text rest = text ++ 10 ∷ rest

abbrev heading : Bytes → Bytes
heading filename = bytes "=== WORKSPACE_FILE: " ++ filename ++ bytes " ==="

unfoldable pub format_workspace_section : Bytes → Bytes → ℕ → Bool → Bool → Bytes
unfolding decimal
format_workspace_section filename content raw_chars per_file total_cap = line (heading filename) (
    line (bytes "RAW_CHARS: " ++ decimal raw_chars) (
      line (bytes "INJECTED_CHARS: " ++ decimal (length content)) (
        line (bytes "TRUNCATED_PER_FILE: " ++ show_bool per_file) (
          line (bytes "TRUNCATED_TOTAL_CAP: " ++ show_bool total_cap)
            (line (bytes "--- BEGIN ---") (line content (line (bytes "--- END ---") [])))))))

unfoldable pub format_missing_marker : Bytes → Bytes
format_missing_marker filename = line (heading filename) (
    line (bytes "MISSING: true") (
      line (bytes "--- BEGIN ---")
        (line (bytes "[FILE NOT FOUND]") (line (bytes "--- END ---") []))))

unfoldable pub format_skills_index : Bytes → Bytes
format_skills_index content =
    line (bytes "=== SKILLS_INDEX ===") (line content (line (bytes "=== END_SKILLS_INDEX ===") []))

unfoldable pub format_user_facts : Bytes → Bytes
format_user_facts content =
    line (bytes "=== USER_FACTS ===") (line content (line (bytes "=== END_USER_FACTS ===") []))
