-- ===== src/Tasks/LostCancel.antt =====
-- crates/gateway/src/runtime/tasks.rs, `TaskRunner::enqueue`: a cancellation between the check of the
-- status and the start, which are under two locks.
use serial_agent.Prelude.{
  ℕ, ◌≡◌, refl, true, some, [], ◌∷◌, Bytes, get, nat_eq, get-adjust, ap, eqb_iff, subst, ◌∙◌,
}
use serial_agent.Tasks.{
  Task, queued, running, completed, cancelled, TaskStore, is_terminal, update_task, cancel_task,
  cancelled_task, mark_running, link_run, final, tally, no_events, finish_task,
}
use serial_agent.Tasks.Worker.{
  waiting, checked, started, over, check_queued, Step, check, start, link, finish, Steps, here,
  more,
}
use serial_agent.Tasks.Settled.{status_of, cancel_task_lem}

get-update_task :
    (id : ℕ) (f : Task → Task) (s : TaskStore) (x : Task)
    → get id s ≡ some x
    → get id (update_task id f s).0 ≡ some (f x)
unfolding update_task
get-update_task id f s x e = get-adjust id id f s ∙ rw (e, (eqb_iff id id).1 refl) refl

get-cancel_task :
    (now id : ℕ) (s : TaskStore) (x : Task)
    → get id s ≡ some x
    → x.status ≡ queued
    → get id (cancel_task now id s).0 ≡ some (cancelled_task now x)
unfolding cancel_task is_terminal update_task
get-cancel_task now id s x e q = rw (e, q) (get-update_task id (cancelled_task now) s x e)

check_passes :
    (id : ℕ) (s : TaskStore) (x : Task)
    → get id s ≡ some x
    → x.status ≡ queued
    → Step id waiting s checked s
unfolding check_queued
check_passes id s x e q = subst (λ p. Step id waiting s p s) (ap check_queued e ∙ rw q refl) check

-- A cancellation that falls between the worker's check and its start is accepted, and leaves the
-- task cancelled; the start of the worker makes the task run again, and the rest of the worker, with
-- a turn that answers, ends it as completed.
pub lost_cancel :
    (id : ℕ) (s : TaskStore) (x : Task) (stopped_at started_at ended_at run : ℕ) (content : Bytes)
    → get id s ≡ some x
    → x.status ≡ queued
    → let cancelled_s = (cancel_task stopped_at id s).0 in
      Step id waiting s checked s
      × ((cancel_task stopped_at id s).1 ≡ true)
      × (status_of (get id cancelled_s) ≡ some cancelled)
      × ((running_s : TaskStore) × Step id checked cancelled_s started running_s
          × (status_of (get id running_s) ≡ some running)
          × ((t : TaskStore) × Steps id started running_s over t
              × (status_of (get id t) ≡ some completed)))
unfolding mark_running link_run finish_task is_terminal tally
lost_cancel id s x stopped_at started_at ended_at run content e q =
    let ending = finish_task ended_at (tally (final content ∷ []) no_events) in
    let s1 = (cancel_task stopped_at id s).0 in
    let s2 = (update_task id (mark_running started_at) s1).0 in
    let s3 = (update_task id (link_run run) s2).0 in
    let x1 = cancelled_task stopped_at x in
    let x2 = mark_running started_at x1 in
    let g1 = get-cancel_task stopped_at id s x e q in
    let g2 = get-update_task id (mark_running started_at) s1 x1 g1 in
    let g3 = get-update_task id (link_run run) s2 x2 g2 in
    let worked : Steps id started s2 over (update_task id ending s3).0 =
      more (link run) (more (finish ended_at (final content ∷ [])) here) in
    (
      check_passes id s x e q,
      (cancel_task_lem stopped_at id id s).0 ∙ rw (e, q) refl,
      ap status_of g1,
      (
        s2,
        start started_at,
        ap status_of g2,
        (
          (update_task id ending s3).0,
          worked,
          ap status_of (get-update_task id ending s3 (link_run run x2) g3),
        ),
      ),
    )
