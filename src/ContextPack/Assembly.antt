-- ===== src/ContextPack/Assembly.antt =====
-- The assembly and the report of crates/contextpack/src/builder.rs.
use serial_agent.Prelude.{
  ℕ, Bool, true, false, not, ◌&&◌, Option, none, some, List, [], ◌∷◌, ◌++◌, if◌then◌else◌, Bytes,
  bytes_beq, length, any,
}
use serial_agent.ContextPack.{Section, apply_total_cap}
use serial_agent.ContextPack.Builder.{
  WorkspaceFile, SessionMode, bootstrap_file, file_names, index_files, sections_of,
  format_workspace_section, format_missing_marker, format_skills_index, format_user_facts,
}

pub record FileReport : Type 0 where
  pub filename : Bytes
  pub raw_chars : ℕ
  pub injected_chars : ℕ
  pub truncated_per_file : Bool
  pub truncated_total_cap : Bool
  pub included : Bool
  pub missing : Bool

pub record ContextReport : Type 0 where
  pub files : List FileReport
  pub skills_index_chars : ℕ
  pub user_facts_chars : ℕ
  pub total_injected_chars : ℕ
  pub bootstrap_included : Bool
  pub first_run : Bool

unfoldable pub report_of : Section → FileReport
report_of s = record {
  filename = s.filename;
  raw_chars = s.raw_chars;
  injected_chars = if s.included && not s.missing then length s.content else 0;
  truncated_per_file = s.truncated_per_file;
  truncated_total_cap = s.truncated_total_cap;
  included = s.included;
  missing = s.missing;
}

abbrev is_empty : Bytes → Bool
is_empty [] = true
is_empty (b ∷ s) = false

-- What one round of the assembly appends.
abbrev pub text_of : Section → Bytes
text_of s =
    if s.missing && s.included
    then format_missing_marker s.filename ++ 10 ∷ []
    else if s.included && not (is_empty s.content)
    then format_workspace_section s.filename s.content s.raw_chars s.truncated_per_file
        s.truncated_total_cap
      ++ 10 ∷ []
    else []

unfoldable pub assemble : List Section → Bytes × List FileReport
unfolding report_of
assemble [] = ([], [])
assemble (s ∷ sections) =
    let (text, reports) = assemble sections in (text_of s ++ text, report_of s ∷ reports)

abbrev size_of : Option Bytes → ℕ
size_of none = 0
size_of (some text) = length text

abbrev pub appended : (Bytes → Bytes) → Option Bytes → Bytes
appended format none = []
appended format (some text) = if is_empty text then [] else format text ++ 10 ∷ []

-- `ContextPackBuilder::build`.
unfoldable pub build :
    ℕ
    → ℕ
    → List WorkspaceFile
    → SessionMode
    → Bool
    → Option Bytes
    → Option Bytes
    → Bytes × ContextReport
unfolding file_names assemble apply_total_cap
build max_per_file total_max files mode is_first_run skills_index user_facts =
    let read = sections_of max_per_file (index_files files []) (file_names mode is_first_run) in
    let sections = apply_total_cap read total_max in
    let (pack, reports) = assemble sections in
    let text =
      pack ++ appended format_skills_index skills_index ++ appended format_user_facts user_facts in
    (
      text,
      record {
        files = reports;
        skills_index_chars = size_of skills_index;
        user_facts_chars = size_of user_facts;
        total_injected_chars = length text;
        bootstrap_included =
            is_first_run && any (λ s. bytes_beq s.filename bootstrap_file && s.included) sections;
        first_run = is_first_run;
      },
    )
