-- ===== src/Runs/History.antt =====
-- crates/gateway/src/runtime/runs.rs: sequences of calls of `RunStore`, next to a log in which every
-- run is kept.
use serial_agent.Prelude.{
  ℕ, ◌-◌, ◌≤◌, ◌≡◌, refl, sym, subst, ap, ◌∙◌, none, List, [], ◌∷◌, ◌++◌, arith, length, drop,
  length-keep_last, keep_last, keep_last-append, Option-cases, inl, inr,
}
use serial_agent.Positions.{
  amend, find_by-drop, amend-drop, amend-absent, amend-modify, length-amend, place_of-none,
}
use serial_agent.Runs.{
  Run, RunStoreInner, new_inner, get_run, insert_run, update_run, max_runs_in_memory,
}
use serial_agent.Runs.Index.{
  find_run, seq_of, IsIndexed, get_run-find_run, update_run-IsIndexed, update_run_absent,
  update_run_present,
}
use serial_agent.Runs.Ring.{insert_run-IsIndexed, runs-insert_run, new_inner-IsIndexed}

-- The calls of `RunStore` that change the ring.
pub data RunOp : Type 0 where
  inserts : Run → RunOp
  updates : ℕ → (Run → Run) → RunOp

unfoldable pub step : ℕ → RunStoreInner → RunOp → RunStoreInner
step capacity s (inserts r) = insert_run capacity r s
step capacity s (updates id f) = (update_run id f s).0

unfoldable pub replay : ℕ → RunStoreInner → List RunOp → RunStoreInner
replay capacity s [] = s
replay capacity s (op ∷ ops) = replay capacity (step capacity s op) ops

-- The specification: a log that forgets nothing.
unfoldable pub log_step : List Run → RunOp → List Run
log_step log (inserts r) = log ++ r ∷ []
log_step log (updates id f) = amend (λ r. r.run_id) id f log

unfoldable pub replay_log : List Run → List RunOp → List Run
replay_log log [] = log
replay_log log (op ∷ ops) = replay_log (log_step log op) ops

-- A new run has an id that the log has not seen, and an update keeps the id.
abbrev pub IsFair : List Run → RunOp → Type 0
IsFair log (inserts r) = find_run r.run_id log ≡ none
IsFair log (updates id f) = (r : Run) → (f r).run_id ≡ r.run_id

abbrev pub AreFair : List Run → List RunOp → Type 0
AreFair log [] = Unit
AreFair log (op ∷ ops) = IsFair log op × AreFair (log_step log op) ops

-- What the store keeps of a log.
pub record Keeps (capacity : ℕ) (s : RunStoreInner) (log : List Run) : Type 0 where
  pub indexed : IsIndexed s
  pub last : s.runs ≡ keep_last capacity log

bounded :
    (capacity : ℕ) (s : RunStoreInner) (log : List Run)
    → Keeps capacity s log
    → length s.runs ≤ capacity
bounded capacity s log k = omega (arith, ap length k.last, length-keep_last capacity log)

insert_run-Keeps :
    (capacity : ℕ) (r : Run) (s : RunStoreInner) (log : List Run)
    → find_run r.run_id log ≡ none
    → Keeps capacity s log
    → Keeps capacity (insert_run capacity r s) (log ++ r ∷ [])
insert_run-Keeps capacity r s log fresh k = record {
  indexed =
      insert_run-IsIndexed capacity r s
        (subst (λ l. find_run r.run_id l ≡ none) (sym k.last)
          (find_by-drop (λ r. r.run_id) r.run_id (length log - capacity) log fresh))
        k.indexed;
  last =
      runs-insert_run capacity r s (bounded capacity s log k)
      ∙ ap (λ l. keep_last capacity (l ++ r ∷ [])) k.last
      ∙ keep_last-append capacity log (r ∷ []);
}

runs-update_run :
    (id : ℕ) (f : Run → Run) (s : RunStoreInner)
    → IsIndexed s
    → (update_run id f s).0.runs ≡ amend (λ r. r.run_id) id f s.runs
runs-update_run id f s v = elim (Option-cases (seq_of id s.base_seq s.runs)) [
  | inl e ↦ rw (update_run_absent id f s v e) (
      sym (
        amend-absent (λ r. r.run_id) id f s.runs
          (place_of-none (λ r. r.run_id) id s.base_seq s.runs e)))
  | inr (n, e) ↦
      rw (update_run_present id n f s v e)
        (sym (amend-modify (λ r. r.run_id) id s.base_seq n f s.runs v.distinct e))
]

update_run-Keeps :
    (capacity id : ℕ) (f : Run → Run) (s : RunStoreInner) (log : List Run)
    → ((r : Run) → (f r).run_id ≡ r.run_id)
    → Keeps capacity s log
    → Keeps capacity (update_run id f s).0 (amend (λ r. r.run_id) id f log)
update_run-Keeps capacity id f s log keep k = record {
  indexed = update_run-IsIndexed id f s keep k.indexed;
  last =
      runs-update_run id f s k.indexed
      ∙ ap (amend (λ r. r.run_id) id f) k.last
      ∙ amend-drop (λ r. r.run_id) id (length log - capacity) f log
      ∙ ap (λ n. drop (n - capacity) (amend (λ r. r.run_id) id f log))
          (sym (length-amend (λ r. r.run_id) id f log));
}

step-Keeps :
    (capacity : ℕ) (s : RunStoreInner) (log : List Run) (op : RunOp)
    → IsFair log op
    → Keeps capacity s log
    → Keeps capacity (step capacity s op) (log_step log op)
unfolding step log_step
step-Keeps capacity s log (inserts r) fair k = insert_run-Keeps capacity r s log fair k
step-Keeps capacity s log (updates id f) fair k = update_run-Keeps capacity id f s log fair k

-- Any fair sequence of calls keeps a store and its log together: the store stays indexed, and its
-- ring holds exactly the last `capacity` runs of the log, as they were last updated.
pub replay-Keeps :
    (capacity : ℕ) (s : RunStoreInner) (log : List Run) (ops : List RunOp)
    → AreFair log ops
    → Keeps capacity s log
    → Keeps capacity (replay capacity s ops) (replay_log log ops)
unfolding replay replay_log
replay-Keeps capacity s log [] fair k = k
replay-Keeps capacity s log (op ∷ ops) fair k =
    replay-Keeps capacity (step capacity s op) (log_step log op) ops fair.1
      (step-Keeps capacity s log op fair.0 k)

-- So, from an empty store, a read returns a run exactly when it is among the last
-- `max_runs_in_memory` runs of the log, as it was last updated.
pub get_run-replay :
    (id : ℕ) (ops : List RunOp)
    → AreFair [] ops
    → get_run id (replay max_runs_in_memory (new_inner []) ops)
      ≡ find_run id (keep_last max_runs_in_memory (replay_log [] ops))
get_run-replay id ops fair =
    let kept = replay-Keeps max_runs_in_memory (new_inner []) [] ops fair start in
    get_run-find_run id _ kept.indexed ∙ ap (find_run id) kept.last
  where
    start : Keeps max_runs_in_memory (new_inner []) []
    start = record { indexed = new_inner-IsIndexed [] tt; last = unfold new_inner in refl }
