-- ===== src/Tasks/Lifecycle.antt =====
-- The worker of crates/gateway/src/runtime/tasks.rs against cancellations and evictions that fall
-- between its accesses: what its task's status can be.
use serial_agent.Prelude.{
  ℕ, ◌≡◌, refl, Bool, true, false, Option, none, some, arith, Bytes, get, nat_eq, get-adjust,
  get-retain, get-insert, HasDistinctKeys, adjust-HasDistinctKeys, retain-HasDistinctKeys,
  insert-HasDistinctKeys, Option-cases, Bool-cases, inl, inr, ◌||◌, eqb_iff, subst,
}
use serial_agent.Tasks.{
  Task, TaskStatus, queued, running, cancelled, TaskStore, is_terminal, status_beq, update_task,
  cancel_task, cancelled_task, evict_terminal, mark_running, link_run, semaphore_closed, tally,
  no_events, finish_task, stays, new_task, insert_task,
}
use serial_agent.Tasks.Worker.{
  Phase, waiting, checked, started, linked, over, check_queued, Step, close, check, start, link,
  finish, stop, evict, Steps, here, more,
}

-- The statuses that the task can have where its worker is.
abbrev pub allowed : Phase → TaskStatus → Bool
unfolding is_terminal
allowed waiting s = status_beq s queued || status_beq s cancelled
allowed checked s = status_beq s queued || status_beq s cancelled
allowed started s = status_beq s running || status_beq s cancelled
allowed linked s = status_beq s running || status_beq s cancelled
allowed over s = is_terminal s

abbrev pub allowed_for : Phase → Option Task → Bool
allowed_for p none = true
allowed_for p (some t) = allowed p t.status

updated :
    (id : ℕ) (f : Task → Task) (s : TaskStore) (p q : Phase)
    → HasDistinctKeys s
    → ((t : Task) → allowed p t.status ≡ true → allowed q (f t).status ≡ true)
    → allowed_for p (get id s) ≡ true
    → (allowed_for q (get id (update_task id f s).0) ≡ true)
      × HasDistinctKeys (update_task id f s).0
unfolding update_task
updated id f s p q d step h = elim (Option-cases (get id s)) [
  | inl e ↦ (ground (arith, get-adjust id id f s, eqb_iff id id), adjust-HasDistinctKeys id f s d)
  | inr (t, e) ↦
      (ground (arith, get-adjust id id f s, eqb_iff id id, step t), adjust-HasDistinctKeys id f s d)
]

cancelled_anywhere :
    (now : ℕ) (p : Phase) (t : Task)
    → allowed p t.status ≡ true
    → is_terminal t.status ≡ false
    → allowed p cancelled ≡ true
unfolding is_terminal
cancelled_anywhere now p t h l = ground arith

stop-allowed :
    (now id : ℕ) (s : TaskStore) (p : Phase)
    → HasDistinctKeys s
    → allowed_for p (get id s) ≡ true
    → (allowed_for p (get id (cancel_task now id s).0) ≡ true)
      × HasDistinctKeys (cancel_task now id s).0
unfolding cancel_task update_task
stop-allowed now id s p d h = elim (Option-cases (get id s)) [
  | inl e ↦ rw e (h, d)
  | inr (t, e) ↦ elim (Bool-cases (is_terminal t.status)) [
    | inl done ↦ rw e (rw done (h, d))
    | inr live ↦ rw e (
        rw live (
          ground (
            arith,
            get-adjust id id (cancelled_task now) s,
            eqb_iff id id,
            cancelled_anywhere now p t,
          ),
          adjust-HasDistinctKeys id (cancelled_task now) s d,
        ))
  ]
]

evict-allowed :
    (cutoff id : ℕ) (s : TaskStore) (p : Phase)
    → HasDistinctKeys s
    → allowed_for p (get id s) ≡ true
    → (allowed_for p (get id (evict_terminal cutoff s)) ≡ true)
      × HasDistinctKeys (evict_terminal cutoff s)
unfolding evict_terminal
evict-allowed cutoff id s p d h = elim (Option-cases (get id s)) [
  | inl e ↦
      (ground (arith, get-retain id (stays cutoff) s d), retain-HasDistinctKeys (stays cutoff) s d)
  | inr (t, e) ↦
      (ground (arith, get-retain id (stays cutoff) s d), retain-HasDistinctKeys (stays cutoff) s d)
]

Step-allowed :
    {id : ℕ} {p : Phase} {s : TaskStore} {q : Phase} {t : TaskStore}
    → Step id p s q t
    → HasDistinctKeys s
    → allowed_for p (get id s) ≡ true
    → (allowed_for q (get id t) ≡ true) × HasDistinctKeys t
unfolding check_queued finish_task semaphore_closed mark_running link_run is_terminal
Step-allowed (close {id} {s} now) d h =
    updated id (semaphore_closed now) s waiting over d (λ t a. refl) h
Step-allowed (check {id} {s}) d h = (ground arith, d)
Step-allowed (start {id} {s} now) d h =
    updated id (mark_running now) s checked started d (λ t a. refl) h
Step-allowed (link {id} {s} run) d h = updated id (link_run run) s started linked d (λ t a. a) h
Step-allowed (finish {id} {s} now events) d h =
    updated id (finish_task now (tally events no_events)) s linked over d (λ t a. ground arith) h
Step-allowed (stop {id} {p} {s} now) d h = stop-allowed now id s p d h
Step-allowed (evict {id} {p} {s} cutoff) d h = evict-allowed cutoff id s p d h

Steps-allowed :
    {id : ℕ} {p : Phase} {s : TaskStore} {q : Phase} {t : TaskStore}
    → Steps id p s q t
    → HasDistinctKeys s
    → allowed_for p (get id s) ≡ true
    → (allowed_for q (get id t) ≡ true) × HasDistinctKeys t
Steps-allowed here d h = (h, d)
Steps-allowed (more step steps) d h = let (a, e) = Step-allowed step d h in Steps-allowed steps e a

-- Whatever cancellations and evictions fall between the accesses of the worker of a new task, the
-- task has the status that its place allows: queued or cancelled before the start, running or
-- cancelled during the turn, and a terminal one when the worker has left.
pub Steps-allowed_status :
    (id now : ℕ) (key session : Bytes) (s : TaskStore) {q : Phase} {t : TaskStore} (x : Task)
    → HasDistinctKeys s
    → Steps id waiting (insert_task (new_task id now key session) s) q t
    → get id t ≡ some x
    → allowed q x.status ≡ true
unfolding insert_task new_task allowed
Steps-allowed_status id now key session s {q} x d steps e =
    let new = new_task id now key session in
    let (a, k) =
      Steps-allowed steps (insert-HasDistinctKeys id new s d)
        (rw (get-insert id id new s, (eqb_iff id id).1 refl) refl) in
    subst (λ o. allowed_for q o ≡ true) e a
