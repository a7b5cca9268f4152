-- ===== src/Runs.antt =====
-- crates/gateway/src/runtime/runs.rs: the records of agent turns, and the bounded ring of recent
-- runs with its index. Times are milliseconds since the epoch; the clock and the fresh UUID are
-- arguments. An `f64` is kept as its bit pattern, so 0.0 is 0.
pub mod Tests
pub mod Index
pub mod Ring
pub mod History
pub mod Loading
pub mod Listing
use serial_agent.Prelude.{
  ℕ, zero, suc, ◌+◌, ◌-◌, ◌≤◌, ◌<◌, ◌≡◌, refl, Bool, true, false, not, ◌&&◌, Option, none, some,
  List, [], ◌∷◌, ◌++◌, reverse, arith, ltb, leb, eqb, if◌then◌else◌, Eq, Bytes, bytes, bytes_beq,
  length, get_elem?, take, drop, modify, keep_if, Map, get, insert, remove, nat_eq, nat_eq,
}

pub data RunStatus : Type 0 where
  queued running completed failed stopped : RunStatus

unfoldable pub is_terminal : RunStatus → Bool
is_terminal completed = true
is_terminal failed = true
is_terminal stopped = true
is_terminal _ = false

abbrev pub status_beq : RunStatus → RunStatus → Bool
status_beq queued queued = true
status_beq running running = true
status_beq completed completed = true
status_beq failed failed = true
status_beq stopped stopped = true
status_beq _ _ = false

pub data NodeKind : Type 0 where
  llm_request tool_call : NodeKind

pub record RunNode : Type 0 where
  pub node_id : ℕ
  pub kind : NodeKind
  pub name : Bytes
  pub status : RunStatus
  pub started_at : ℕ
  pub ended_at : Option ℕ
  pub duration_ms : Option ℕ
  pub input_preview : Option Bytes
  pub output_preview : Option Bytes
  pub is_error : Bool
  pub input_tokens : ℕ
  pub output_tokens : ℕ

pub record Run : Type 0 where
  pub run_id : ℕ
  pub session_key : Bytes
  pub session_id : Bytes
  pub status : RunStatus
  pub agent_id : Option Bytes
  pub model : Option Bytes
  pub started_at : ℕ
  pub ended_at : Option ℕ
  pub duration_ms : Option ℕ
  pub input_tokens : ℕ
  pub output_tokens : ℕ
  pub total_tokens : ℕ
  pub input_preview : Option Bytes
  pub output_preview : Option Bytes
  pub error : Option Bytes
  pub nodes : List RunNode
  pub loop_count : ℕ
  pub estimated_cost_usd : ℕ

-- `Run::finish`; `now` is read once here, and the difference is held at 0.
unfoldable pub finish : ℕ → RunStatus → Run → Run
finish now status r = record r {
  status = status;
  ended_at = some now;
  duration_ms = some (now - r.started_at);
}

-- `MAX_RUNS_IN_MEMORY`.
abbrev pub max_runs_in_memory : ℕ
max_runs_in_memory = 2000

-- `RunStoreInner`: the front of the deque is the head of the list.
pub record RunStoreInner : Type 0 where
  pub runs : List Run
  pub index : Map ℕ ℕ
  pub base_seq : ℕ

-- The loop of `RunStoreInner::new`: each run's position is written under its id.
unfoldable pub index_runs : ℕ → List Run → Map ℕ ℕ → Map ℕ ℕ
index_runs i [] index = index
index_runs i (r ∷ rs) index = index_runs (i + 1) rs (insert r.run_id i index)

unfoldable pub new_inner : List Run → RunStoreInner
unfolding index_runs
new_inner runs = record { runs = runs; index = index_runs 0 runs []; base_seq = 0 }

-- `seq - base_seq` on `usize`: `none` stands for the underflow, which panics in a debug build.
unfoldable pub deque_idx : RunStoreInner → ℕ → Option ℕ
deque_idx s seq = if leb s.base_seq seq then some (seq - s.base_seq) else none

abbrev at : RunStoreInner → Option ℕ → Option Run
at s none = none
at s (some idx) = get_elem? s.runs idx

abbrev resolve : RunStoreInner → Option ℕ → Option ℕ
resolve s none = none
resolve s (some seq) = deque_idx s seq

-- `RunStoreInner::get`.
unfoldable pub get_run : ℕ → RunStoreInner → Option Run
unfolding deque_idx
get_run id s = at s (resolve s (get id s.index))

unfoldable pub push_back : Run → RunStoreInner → RunStoreInner
push_back r s = record {
  runs = s.runs ++ r ∷ [];
  index = insert r.run_id (s.base_seq + length s.runs) s.index;
  base_seq = s.base_seq;
}

abbrev pop_from : List Run → RunStoreInner → RunStoreInner × Option Run
pop_from [] s = (s, none)
pop_from (r ∷ rs) s =
    (record { runs = rs; index = remove r.run_id s.index; base_seq = s.base_seq + 1 }, some r)

unfoldable pub pop_front : RunStoreInner → RunStoreInner × Option Run
pop_front s = pop_from s.runs s

-- `RunStore::insert`, over a variable capacity; the program's is `max_runs_in_memory`.
unfoldable pub insert_run : ℕ → Run → RunStoreInner → RunStoreInner
unfolding push_back pop_front
insert_run capacity r s =
    let t = push_back r s in if ltb capacity (length t.runs) then (pop_front t).0 else t

abbrev update_at : Option ℕ → (Run → Run) → RunStoreInner → RunStoreInner × Bool
update_at none f s = (s, false)
update_at (some idx) f s =
    if ltb idx (length s.runs) then (record s { runs = modify idx f s.runs }, true) else (s, false)

-- `RunStore::update`.
unfoldable pub update_run : ℕ → (Run → Run) → RunStoreInner → RunStoreInner × Bool
unfolding deque_idx
update_run id f s = update_at (resolve s (get id s.index)) f s
