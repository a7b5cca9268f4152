-- ===== src/Runs/Tests.antt =====
-- The run store of crates/gateway/src/runtime/runs.rs on small examples.
use serial_agent.Prelude.{
  ℕ, ◌≡◌, refl, Option, none, some, List, [], ◌∷◌, Bytes, bytes, keep_last, eqb, if◌then◌else◌, get,
  insert, remove,
}
use serial_agent.Positions.{find_by, amend}
use serial_agent.Runs.{
  Run, queued, completed, new_inner, index_runs, get_run, insert_run, update_run, push_back,
  pop_front, RunStoreInner, max_runs_in_memory,
}
use serial_agent.Runs.Index.{IsIndexed, find_run}
use serial_agent.Runs.Ring.{new_inner-IsIndexed}
use serial_agent.Runs.History.{
  RunOp, inserts, updates, step, log_step, replay, replay_log, AreFair, Keeps, get_run-replay,
}
use serial_agent.Runs.Listing.{status_eq}

abbrev run_of : ℕ → Bytes → Run
run_of id key = record {
  run_id = id;
  session_key = key;
  session_id = bytes "s";
  status = queued;
  agent_id = none;
  model = none;
  started_at = 100;
  ended_at = none;
  duration_ms = none;
  input_tokens = 0;
  output_tokens = 0;
  total_tokens = 0;
  input_preview = none;
  output_preview = none;
  error = none;
  nodes = [];
  loop_count = 0;
  estimated_cost_usd = 0;
}

abbrev first : Run
first = run_of 1 (bytes "a")

abbrev second : Run
second = run_of 2 (bytes "b")

abbrev third : Run
third = run_of 3 (bytes "a")

abbrev end : Run → Run
end r = record r { status = completed; ended_at = some 500 }

abbrev calls : List RunOp
calls = inserts first ∷ inserts second ∷ updates 1 end ∷ inserts third ∷ []

calls-AreFair : AreFair [] calls
unfolding find_by log_step amend
calls-AreFair = (refl, (refl, ((λ r. refl), (refl, tt))))

start-Keeps : Keeps 2 (new_inner []) []
start-Keeps = record { indexed = new_inner-IsIndexed [] tt; last = unfold new_inner in refl }

-- Of three runs in a ring of two, the first is gone and the third is there.
evicted : get_run 1 (replay 2 (new_inner []) calls) ≡ none
unfolding get_run replay step new_inner index_runs insert_run update_run push_back pop_front get
    insert remove
evicted = refl

get_run-replay_example :
    get_run 1 (replay max_runs_in_memory (new_inner []) calls)
    ≡ find_run 1 (keep_last max_runs_in_memory (replay_log [] calls))
get_run-replay_example = get_run-replay 1 calls calls-AreFair

abbrev two_runs : RunStoreInner
two_runs = new_inner (first ∷ second ∷ [])

two_runs-IsIndexed : IsIndexed two_runs
unfolding find_by
two_runs-IsIndexed = new_inner-IsIndexed (first ∷ second ∷ []) (refl, (refl, tt))

abbrev lines : List Bytes
lines = bytes "1" ∷ bytes "?" ∷ bytes "3" ∷ []

-- A parser that takes a line that starts with a digit.
abbrev parse_line : Bytes → Option Run
parse_line [] = none
parse_line (b ∷ bs) = if eqb b 63 then none else some (run_of b (bytes "a"))
