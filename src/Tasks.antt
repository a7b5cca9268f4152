-- ===== src/Tasks.antt =====
-- crates/gateway/src/runtime/tasks.rs: the tasks in memory, and the worker that runs one. Times
-- are milliseconds; the clock is an argument.
pub mod Tests
pub mod Lifecycle
pub mod LostCancel
pub mod Settled
pub mod Worker
use serial_agent.Prelude.{
  ℕ, suc, ◌+◌, ◌-◌, ◌≡◌, Bool, true, false, not, ◌&&◌, ◌||◌, Option, none, some, List, [], ◌∷◌,
  ◌++◌, ltb, eqb, if◌then◌else◌, is_some, Bytes, bytes, bytes_beq, nat_eq, length, take, drop, Map,
  get, insert, adjust, retain, min, max,
}

pub data TaskStatus : Type 0 where
  queued running completed failed cancelled : TaskStatus

unfoldable pub is_terminal : TaskStatus → Bool
is_terminal completed = true
is_terminal failed = true
is_terminal cancelled = true
is_terminal _ = false

abbrev pub status_beq : TaskStatus → TaskStatus → Bool
status_beq queued queued = true
status_beq running running = true
status_beq completed completed = true
status_beq failed failed = true
status_beq cancelled cancelled = true
status_beq _ _ = false

pub record Task : Type 0 where
  pub id : ℕ
  pub session_key : Bytes
  pub session_id : Bytes
  pub status : TaskStatus
  pub created_at : ℕ
  pub started_at : Option ℕ
  pub completed_at : Option ℕ
  pub run_id : Option ℕ
  pub result : Option Bytes
  pub error : Option Bytes

-- `Task::new`; the UUID and the time are given.
unfoldable pub new_task : ℕ → ℕ → Bytes → Bytes → Task
new_task id now session_key session_id = record {
  id = id;
  session_key = session_key;
  session_id = session_id;
  status = queued;
  created_at = now;
  started_at = none;
  completed_at = none;
  run_id = none;
  result = none;
  error = none;
}

abbrev pub TaskStore : Type 0
TaskStore = Map ℕ Task

unfoldable pub insert_task : Task → TaskStore → TaskStore
insert_task t s = insert t.id t s

-- `TaskStore::update`: whether the task is there.
unfoldable pub update_task : ℕ → (Task → Task) → TaskStore → TaskStore × Bool
update_task id f s = (adjust id f s, is_some (get id s))

abbrev cancelled_task : ℕ → Task → Task
cancelled_task now t = record t { status = cancelled; completed_at = some now }

abbrev cancel_found : ℕ → ℕ → Option Task → TaskStore → TaskStore × Bool
cancel_found now id none s = (s, false)
cancel_found now id (some t) s =
    if is_terminal t.status then (s, false) else (adjust id (cancelled_task now) s, true)

-- `TaskStore::cancel`.
unfoldable pub cancel_task : ℕ → ℕ → TaskStore → TaskStore × Bool
unfolding is_terminal
cancel_task now id s = cancel_found now id (get id s) s

abbrev pub past : Option ℕ → ℕ → Bool
past none cutoff = true
past (some t) cutoff = ltb cutoff t

abbrev pub stays : ℕ → ℕ → Task → Bool
unfolding is_terminal
stays cutoff id t = not (is_terminal t.status) || past t.completed_at cutoff

-- `TaskStore::evict_terminal`, with the cutoff computed by the caller's clock.
unfoldable pub evict_terminal : ℕ → TaskStore → TaskStore
evict_terminal cutoff s = retain (stays cutoff) s

-- `TaskRunner::new`: the permits of a session, held to 1..=20.
unfoldable pub clamp_concurrency : ℕ → ℕ
clamp_concurrency n = if ltb n 1 then 1 else if ltb 20 n then 20 else n

-- The changes that the worker makes to its task.
unfoldable pub mark_running : ℕ → Task → Task
mark_running now t = record t { status = running; started_at = some now }

unfoldable pub link_run : ℕ → Task → Task
link_run run t = record t { run_id = some run }

unfoldable pub semaphore_closed : ℕ → Task → Task
semaphore_closed now t = record t {
  status = failed;
  error = some (bytes "semaphore closed");
  completed_at = some now;
}

-- What the turn's events add up to: the last content, whether an error came, the last message.
pub record TurnTally : Type 0 where
  pub final_content : Bytes
  pub had_error : Bool
  pub error_msg : Option Bytes

pub data TurnEvent : Type 0 where
  final stopped error : Bytes → TurnEvent
  other : TurnEvent

abbrev tally_event : TurnEvent → TurnTally → TurnTally
tally_event (final content) a = record a { final_content = content }
tally_event (stopped content) a = record a { final_content = content }
tally_event (error message) a = record a { had_error = true; error_msg = some message }
tally_event other a = a

-- The loop that forwards the events of the turn.
unfoldable pub tally : List TurnEvent → TurnTally → TurnTally
tally [] a = a
tally (e ∷ es) a = tally es (tally_event e a)

abbrev pub no_events : TurnTally
no_events = record { final_content = []; had_error = false; error_msg = none }

abbrev unless_empty : Bytes → Option Bytes → Option Bytes
unless_empty [] old = old
unless_empty (b ∷ bs) old = some (b ∷ bs)

abbrev or_keep : Option Bytes → Option Bytes → Option Bytes
or_keep none old = old
or_keep (some m) old = some m

-- The last update: a task that is already over keeps its status.
unfoldable pub finish_task : ℕ → TurnTally → Task → Task
unfolding is_terminal
finish_task now a t = if is_terminal t.status then t else record t {
  status = if a.had_error then failed else completed;
  completed_at = some now;
  result = unless_empty a.final_content t.result;
  error = or_keep a.error_msg t.error;
}
