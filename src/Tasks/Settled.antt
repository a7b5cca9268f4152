-- ===== src/Tasks/Settled.antt =====
-- crates/gateway/src/runtime/tasks.rs: `TaskStore::cancel`, and terminal statuses under the worker.
use mathlib.Core.Option
use serial_agent.Prelude.{
  ℕ, ◌≡◌, refl, Bool, true, false, Option, none, some, List, arith, get, nat_eq, get-adjust,
  get-retain, HasDistinctKeys, adjust-HasDistinctKeys, retain-HasDistinctKeys, Option-cases,
  Bool-cases, inl, inr, not, ◌&&◌, eqb_iff, eqb, if◌then◌else◌,
}
use serial_agent.Tasks.{
  Task, TaskStatus, TaskStore, is_terminal, status_beq, update_task, cancel_task, cancelled_task,
  evict_terminal, link_run, TurnEvent, tally, no_events, finish_task, past, stays,
}
use serial_agent.Tasks.Worker.{
  Phase, waiting, checked, Step, close, check, start, link, finish, stop, evict, Steps, here, more,
}

abbrev pub live : Option Task → Bool
unfolding is_terminal
live none = false
live (some t) = not (is_terminal t.status)

abbrev pub status_of : Option Task → Option TaskStatus
status_of none = none
status_of (some t) = some t.status

-- A cancellation is accepted exactly for a task that is there and not over: that task is then
-- cancelled at the given time. In every other case, and for every other task, nothing changes.
pub cancel_task_lem :
    (now id j : ℕ) (s : TaskStore)
    → ((cancel_task now id s).1 ≡ live (get id s))
      × (get j (cancel_task now id s).0 ≡ (
          if live (get id s) && eqb id j
          then Option.map (cancelled_task now) (get j s)
          else get j s))
unfolding cancel_task
cancel_task_lem now id j s = elim (Option-cases (get id s)) [
  | inl e ↦ rw e (refl, refl)
  | inr (t, e) ↦ elim (Bool-cases (is_terminal t.status)) [
    | inl done ↦ rw e (rw done (refl, refl))
    | inr alive ↦ rw e (rw alive (refl, get-adjust id j (cancelled_task now) s))
  ]
]

abbrev pub is_past_start : Phase → Bool
is_past_start waiting = false
is_past_start checked = false
is_past_start _ = true

-- The task is gone, or has the status still.
abbrev pub has_or_gone : TaskStatus → Option Task → Bool
has_or_gone status none = true
has_or_gone status (some t) = status_beq t.status status

cancel_task-HasDistinctKeys :
    (now id : ℕ) (s : TaskStore) → HasDistinctKeys s → HasDistinctKeys (cancel_task now id s).0
unfolding cancel_task
cancel_task-HasDistinctKeys now id s d = elim (Option-cases (get id s)) [
  | inl e ↦ rw e d
  | inr (t, e) ↦ elim (Bool-cases (is_terminal t.status)) [
    | inl done ↦ rw e (rw done d)
    | inr alive ↦ rw e (rw alive (adjust-HasDistinctKeys id (cancelled_task now) s d))
  ]
]

kept_by_update :
    (id : ℕ) (f : Task → Task) (s : TaskStore) (status : TaskStatus)
    → ((t : Task) → status_beq t.status status ≡ true → status_beq (f t).status status ≡ true)
    → has_or_gone status (get id s) ≡ true
    → has_or_gone status (get id (update_task id f s).0) ≡ true
unfolding update_task
kept_by_update id f s status same h = elim (Option-cases (get id s)) [
  | inl e ↦ ground (arith, get-adjust id id f s, eqb_iff id id)
  | inr (t, e) ↦ ground (arith, get-adjust id id f s, eqb_iff id id, same t)
]

terminal_beq :
    (s t : TaskStatus) → is_terminal t ≡ true → status_beq s t ≡ true → is_terminal s ≡ true
unfolding is_terminal
terminal_beq s t h e = ground arith

kept_by_stop :
    (now id : ℕ) (s : TaskStore) (status : TaskStatus)
    → is_terminal status ≡ true
    → has_or_gone status (get id s) ≡ true
    → has_or_gone status (get id (cancel_task now id s).0) ≡ true
unfolding cancel_task
kept_by_stop now id s status done h = elim (Option-cases (get id s)) [
  | inl e ↦ rw e h
  | inr (t, e) ↦ rw e (rw (terminal_beq t.status status done (ground arith)) h)
]

kept_by_evict :
    (cutoff id : ℕ) (s : TaskStore) (status : TaskStatus)
    → HasDistinctKeys s
    → has_or_gone status (get id s) ≡ true
    → has_or_gone status (get id (evict_terminal cutoff s)) ≡ true
unfolding evict_terminal
kept_by_evict cutoff id s status d h = elim (Option-cases (get id s)) [
  | inl e ↦ ground (arith, get-retain id (stays cutoff) s d)
  | inr (t, e) ↦ ground (arith, get-retain id (stays cutoff) s d)
]

finish_task-status :
    (now : ℕ) (events : List TurnEvent) (status : TaskStatus) (t : Task)
    → is_terminal status ≡ true
    → status_beq t.status status ≡ true
    → status_beq (finish_task now (tally events no_events) t).status status ≡ true
unfolding finish_task
finish_task-status now events status t done e = rw (terminal_beq t.status status done e) e

Step-kept :
    {id : ℕ} {p : Phase} {s : TaskStore} {q : Phase} {t : TaskStore}
    → Step id p s q t
    → (status : TaskStatus) → is_terminal status ≡ true
    → is_past_start p ≡ true
    → HasDistinctKeys s
    → has_or_gone status (get id s) ≡ true
    → (is_past_start q ≡ true) × HasDistinctKeys t × (has_or_gone status (get id t) ≡ true)
unfolding update_task cancel_task evict_terminal link_run
Step-kept (close now) status done past d h = ground arith
Step-kept check status done past d h = ground arith
Step-kept (start now) status done past d h = ground arith
Step-kept (link {id} {s} run) status done past d h = (
  refl,
  adjust-HasDistinctKeys id (link_run run) s d,
  kept_by_update id (link_run run) s status (λ t e. e) h,
)
Step-kept (finish {id} {s} now events) status done past d h =
    let f = finish_task now (tally events no_events) in
    (
      refl,
      adjust-HasDistinctKeys id f s d,
      kept_by_update id f s status (λ t e. finish_task-status now events status t done e) h,
    )
Step-kept (stop {id} {p} {s} now) status done past d h =
    (past, cancel_task-HasDistinctKeys now id s d, kept_by_stop now id s status done h)
Step-kept (evict {id} {p} {s} cutoff) status done past d h =
    (past, retain-HasDistinctKeys (stays cutoff) s d, kept_by_evict cutoff id s status d h)

-- Once the worker has started its task, a terminal status is final: whatever follows, the task is
-- evicted or has that status.
pub Steps-kept :
    {id : ℕ} {p : Phase} {s : TaskStore} {q : Phase} {t : TaskStore}
    → Steps id p s q t
    → (status : TaskStatus) → is_terminal status ≡ true
    → is_past_start p ≡ true
    → HasDistinctKeys s
    → has_or_gone status (get id s) ≡ true
    → has_or_gone status (get id t) ≡ true
Steps-kept here status done past d h = h
Steps-kept (more step steps) status done past d h =
    let (past', d', h') = Step-kept step status done past d h in
    Steps-kept steps status done past' d' h'
