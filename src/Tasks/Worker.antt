-- ===== src/Tasks/Worker.antt =====
-- crates/gateway/src/runtime/tasks.rs, `TaskRunner::enqueue`: the worker of one task as a step
-- relation. Each step is one locked access of the store; between two of them the API may cancel
-- the task and the store may evict old tasks.
use serial_agent.Prelude.{ℕ, Option, none, some, List, get, nat_eq, if◌then◌else◌}
use serial_agent.Tasks.{
  Task, cancelled, TaskStore, status_beq, update_task, cancel_task, evict_terminal, mark_running,
  link_run, semaphore_closed, TurnEvent, tally, no_events, finish_task,
}

-- Where the worker is between two accesses of the store.
pub data Phase : Type 0 where
  waiting checked started linked over : Phase

-- The check once the permit is there: the worker leaves when the task is gone or cancelled.
unfoldable pub check_queued : Option Task → Phase
check_queued none = over
check_queued (some t) = if status_beq t.status cancelled then over else checked

-- One access of the store by the worker of a task, by the cancel API or by the eviction.
pub data Step : ℕ → Phase → TaskStore → Phase → TaskStore → Type 0 where
  close :
      {id : ℕ} {s : TaskStore} (now : ℕ)
      → Step id waiting s over (update_task id (semaphore_closed now) s).0
  check : {id : ℕ} {s : TaskStore} → Step id waiting s (check_queued (get id s)) s
  start :
      {id : ℕ} {s : TaskStore} (now : ℕ)
      → Step id checked s started (update_task id (mark_running now) s).0
  link :
      {id : ℕ} {s : TaskStore} (run : ℕ)
      → Step id started s linked (update_task id (link_run run) s).0
  finish :
      {id : ℕ} {s : TaskStore} (now : ℕ) (events : List TurnEvent)
      → Step id linked s over (update_task id (finish_task now (tally events no_events)) s).0
  stop : {id : ℕ} {p : Phase} {s : TaskStore} (now : ℕ) → Step id p s p (cancel_task now id s).0
  evict :
      {id : ℕ} {p : Phase} {s : TaskStore} (cutoff : ℕ) → Step id p s p (evict_terminal cutoff s)

pub data Steps : ℕ → Phase → TaskStore → Phase → TaskStore → Type 0 where
  here : {id : ℕ} {p : Phase} {s : TaskStore} → Steps id p s p s
  more :
      {id : ℕ} {p q r : Phase} {s t u : TaskStore}
      → Step id p s q t
      → Steps id q t r u
      → Steps id p s r u
