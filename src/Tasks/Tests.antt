-- ===== src/Tasks/Tests.antt =====
-- The tasks of crates/gateway/src/runtime/tasks.rs on small examples.
use serial_agent.Prelude.{
  ◌≡◌, refl, true, some, [], ◌∷◌, bytes, nat_eq, get, insert, adjust, HasDistinctKeys,
}
use serial_agent.Tasks.{
  Task, queued, running, completed, cancelled, TaskStore, new_task, insert_task, cancel_task,
  cancelled_task, update_task, mark_running, is_terminal,
}
use serial_agent.Tasks.Worker.{
  waiting, checked, started, over, Step, check, start, Steps, here, more, check_queued,
}
use serial_agent.Tasks.Lifecycle.{allowed, Steps-allowed_status}
use serial_agent.Tasks.Settled.{has_or_gone, status_of}
use serial_agent.Tasks.LostCancel.{lost_cancel}

abbrev fresh : Task
fresh = new_task 7 100 (bytes "k") (bytes "s")

abbrev queue : TaskStore
queue = insert_task fresh []

queue_task : (get 7 queue ≡ some fresh) × (fresh.status ≡ queued)
unfolding insert_task new_task get insert
queue_task = (refl, refl)

lost_cancel_example :
    let cancelled_s = (cancel_task 200 7 queue).0 in
    Step 7 waiting queue checked queue
    × ((cancel_task 200 7 queue).1 ≡ true)
    × (status_of (get 7 cancelled_s) ≡ some cancelled)
    × ((running_s : TaskStore) × Step 7 checked cancelled_s started running_s
        × (status_of (get 7 running_s) ≡ some running)
        × ((t : TaskStore) × Steps 7 started running_s over t
            × (status_of (get 7 t) ≡ some completed)))
lost_cancel_example = lost_cancel 7 queue fresh 200 201 300 1 (bytes "ok") queue_task.0 queue_task.1

queue_started : Steps 7 waiting queue started (update_task 7 (mark_running 201) queue).0
unfolding check_queued insert_task new_task get insert
queue_started = more check (more (start 201) here)

queue_running : get 7 (update_task 7 (mark_running 201) queue).0 ≡ some (mark_running 201 fresh)
unfolding insert_task new_task get insert update_task adjust mark_running
queue_running = refl

Steps-allowed_status_example : allowed started (mark_running 201 fresh).status ≡ true
Steps-allowed_status_example =
    Steps-allowed_status 7 100 (bytes "k") (bytes "s") [] (mark_running 201 fresh) tt queue_started
      queue_running

abbrev stopped : TaskStore
stopped = (7, cancelled_task 250 fresh) ∷ []

stopped_keys : HasDistinctKeys stopped
unfolding get
stopped_keys = (refl, tt)

stopped_has : has_or_gone cancelled (get 7 stopped) ≡ true
unfolding get
stopped_has = refl

cancelled_is_terminal : is_terminal cancelled ≡ true
unfolding is_terminal
cancelled_is_terminal = refl
