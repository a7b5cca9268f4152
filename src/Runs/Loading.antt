-- ===== src/Runs/Loading.antt =====
-- `RunStore::load_recent` and `RunStore::new`: the store that is read back from the JSONL file.
-- The file is its list of lines; `parse` stands for `serde_json::from_str::<Run>`.
use mathlib.Core.List.{reverse-cons, append-nil, append_assoc}
use serial_agent.Prelude.{
  ℕ, ◌≡◌, refl, sym, ap, Option, none, some, List, [], ◌∷◌, ◌++◌, reverse, ltb, length, take,
  keep_last, take-reverse, Bytes, if◌then◌else◌,
}
use serial_agent.Runs.{Run, RunStoreInner, new_inner}

abbrev prepend : Option Run → List Run → List Run
prepend none runs = runs
prepend (some r) runs = r ∷ runs

-- The loop over the lines taken from the end; a line that does not parse is skipped.
pub load_loop : (Bytes → Option Run) → List Bytes → List Run → List Run
load_loop parse [] runs = runs
load_loop parse (line ∷ lines) runs = load_loop parse lines (prepend (parse line) runs)

-- The runs and the number of lines; `none` is a file that cannot be read.
unfoldable pub load_recent : (Bytes → Option Run) → ℕ → Option (List Bytes) → List Run × ℕ
unfolding load_loop
load_recent parse capacity none = ([], 0)
load_recent parse capacity (some lines) =
    (load_loop parse (take capacity (reverse lines)) [], length lines)

-- `RunStore::new`: the inner state, and the runs to rewrite the file with where it held more.
unfoldable pub open_store :
    (Bytes → Option Run) → ℕ → Option (List Bytes) → RunStoreInner × Option (List Run)
unfolding load_recent new_inner
open_store parse capacity file =
    let (runs, total) = load_recent parse capacity file in
    (new_inner runs, if ltb (length runs) total then some runs else none)

-- The specification: parse the lines in order.
pub parse_all : (Bytes → Option Run) → List Bytes → List Run
parse_all parse [] = []
parse_all parse (line ∷ lines) = prepend (parse line) (parse_all parse lines)

prepend-append : (o : Option Run) (xs ys : List Run) → prepend o xs ++ ys ≡ prepend o (xs ++ ys)
prepend-append none xs ys = refl
prepend-append (some r) xs ys = refl

parse_all-append :
    (parse : Bytes → Option Run) (xs ys : List Bytes)
    → parse_all parse (xs ++ ys) ≡ parse_all parse xs ++ parse_all parse ys
unfolding parse_all
parse_all-append parse [] ys = refl
parse_all-append parse (x ∷ xs) ys =
    rw (parse_all-append parse xs ys) (sym (prepend-append (parse x) _ _))

load_loop-parse_all :
    (parse : Bytes → Option Run) (lines : List Bytes) (runs : List Run)
    → load_loop parse lines runs ≡ parse_all parse (reverse lines) ++ runs
unfolding load_loop parse_all
load_loop-parse_all parse [] runs = refl
load_loop-parse_all parse (l ∷ lines) runs =
    rw
      (
        load_loop-parse_all parse lines (prepend (parse l) runs),
        reverse-cons l lines,
        parse_all-append parse (reverse lines) (l ∷ []),
        append_assoc,
      )
      (ap (◌++◌ (parse_all parse (reverse lines))) (sym (prepend-append (parse l) [] runs)))

-- What is loaded is the last `capacity` lines, parsed in the order of the file; the count is of all
-- lines.
pub load_recent_lem :
    (parse : Bytes → Option Run) (capacity : ℕ) (lines : List Bytes)
    → load_recent parse capacity (some lines)
      ≡ (parse_all parse (keep_last capacity lines), length lines)
unfolding load_recent
load_recent_lem parse capacity lines = rw (
  load_loop-parse_all parse (take capacity (reverse lines)) [],
  take-reverse capacity lines,
  append-nil,
)
