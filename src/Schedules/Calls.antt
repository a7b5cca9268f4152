-- ===== src/Schedules/Calls.antt =====
-- The calls that change the map of the schedule store, and what they keep of it
-- (crates/gateway/src/runtime/schedules/store.rs).
use serial_agent.Prelude.{
  Bool, ℕ, ◌≡◌, refl, sym, subst, inl, inr, true, [], ◌∷◌, arith, if◌then◌else◌, eqb_iff, nat_eq,
  Map, get, insert, remove, adjust, All, Bytes, HasDistinctKeys, insert-HasDistinctKeys,
  remove-HasDistinctKeys, adjust-HasDistinctKeys, Option-cases, Bool-cases, is_some,
}
use serial_agent.Schedules.{Schedule, SourceState, ScheduleEvent, schedule_run_started}
use serial_agent.Schedules.Cron.{Calendar}
use serial_agent.Schedules.Writes.{inner-persist, inner-write_back}
use serial_agent.Schedules.Store.{
  ScheduleStore, send, write_back, write_quietly, update, delete, record_success, record_failure,
  reset_errors, add_usage, update_source_states, insert_schedule, record_run, after_success,
  after_failure, after_run, after_usage, with_states, with_next_run, updated, updated_by,
}

-- Each schedule stands under its own id.
abbrev pub OwnIds : Map ℕ Schedule → Type 0
OwnIds = All (λ (e : ℕ × Schedule). e.1.id ≡ e.0)

insert-OwnIds : (s : Schedule) (m : Map ℕ Schedule) → OwnIds m → OwnIds (insert s.id s m)
unfolding insert
insert-OwnIds s [] own = (refl, tt)
insert-OwnIds s ((i, t) ∷ m) own = ground (arith, eqb_iff i s.id, insert-OwnIds s m own.1)

remove-OwnIds : (id : ℕ) (m : Map ℕ Schedule) → OwnIds m → OwnIds (remove id m)
unfolding remove
remove-OwnIds id [] own = tt
remove-OwnIds id ((i, t) ∷ m) own = ground (arith, remove-OwnIds id m own.1)

adjust-OwnIds :
    (id : ℕ) (f : Schedule → Schedule) (m : Map ℕ Schedule)
    → ((s : Schedule) → (f s).id ≡ s.id)
    → OwnIds m
    → OwnIds (adjust id f m)
unfolding adjust
adjust-OwnIds id f [] keeps own = tt
adjust-OwnIds id f ((i, t) ∷ m) keeps own =
    ground (arith, keeps t, adjust-OwnIds id f m keeps own.1)

pub record IsSound (m : Map ℕ Schedule) : Type 0 where
  pub distinct : HasDistinctKeys m
  pub own : OwnIds m

adjusted-IsSound :
    (id : ℕ) (f : Schedule → Schedule) (m : Map ℕ Schedule)
    → ((t : Schedule) → (f t).id ≡ t.id)
    → IsSound m
    → IsSound (adjust id f m)
adjusted-IsSound id f m keeps h = record {
  distinct = adjust-HasDistinctKeys id f m h.distinct;
  own = adjust-OwnIds id f m keeps h.own;
}

write_back-IsSound :
    (id : ℕ) (f : Schedule → Schedule) (event : Schedule → ScheduleEvent) (s : ScheduleStore)
    → ((t : Schedule) → (f t).id ≡ t.id)
    → IsSound s.inner
    → IsSound (write_back id f event s).inner
write_back-IsSound id f event s keeps h = elim (Option-cases (get id s.inner)) [
  | inl gone ↦ rw (gone, write_back) h
  | inr (old, there) ↦
      subst IsSound (sym (inner-write_back id f event s old there))
        (adjusted-IsSound id f s.inner keeps h)
]

write_quietly-IsSound :
    (id : ℕ) (f : Schedule → Schedule) (s : ScheduleStore)
    → ((t : Schedule) → (f t).id ≡ t.id)
    → IsSound s.inner
    → IsSound (write_quietly id f s).inner
write_quietly-IsSound id f s keeps h = elim (Option-cases (get id s.inner)) [
  | inl gone ↦ rw (gone, write_quietly) h
  | inr (old, there) ↦
      rw (there, write_quietly)
        (subst IsSound (sym (inner-persist (record s { inner = adjust id f s.inner })))
          (adjusted-IsSound id f s.inner keeps h))
]

-- The calls that write, each with the time it comes at.
pub data Call : Type 0 where
  inserting : ℕ → Schedule → Call
  updating : ℕ → ℕ → (Schedule → Schedule) → Call
  deleting : ℕ → Call
  running : ℕ → ℕ → ℕ → Call
  succeeding : ℕ → ℕ → Call
  failing : ℕ → ℕ → Bytes → Call
  resetting : ℕ → ℕ → Call
  using : ℕ → ℕ → ℕ → ℕ → Call
  fetching : ℕ → ℕ → Map Bytes SourceState → Call

-- An update of the API leaves the id.
abbrev pub IsFair : Call → Type 0
IsFair (updating now id f) = (t : Schedule) → (f t).id ≡ t.id
IsFair call = Unit

module _ (c : Calendar) where
  abbrev pub apply : Call → ScheduleStore → ScheduleStore
  apply (inserting now t) s = (insert_schedule c now t s).0
  apply (updating now id f) s = (update now id f s).0
  apply (deleting id) s = (delete id s).0
  apply (running now id run) s = record_run c now id run s
  apply (succeeding now id) s = record_success now id s
  apply (failing now id error) s = record_failure now id error s
  apply (resetting now id) s = (reset_errors now id s).0
  apply (using now id input output) s = add_usage now id input output s
  apply (fetching now id states) s = update_source_states now id states s

  -- Whether the call finds what it changes; else it does nothing.
  abbrev pub finds : Call → ScheduleStore → Bool
  finds (inserting now t) s = true
  finds (updating now id f) s = is_some (get id s.inner)
  finds (deleting id) s = is_some (get id s.inner)
  finds (running now id run) s = is_some (get id s.inner)
  finds (succeeding now id) s = is_some (get id s.inner)
  finds (failing now id error) s = is_some (get id s.inner)
  finds (resetting now id) s = is_some (get id s.inner)
  finds (using now id input output) s = is_some (get id s.inner)
  finds (fetching now id states) s = is_some (get id s.inner)

  insert_schedule-IsSound :
      (now : ℕ) (t : Schedule) (s : ScheduleStore)
      → IsSound s.inner
      → IsSound (insert_schedule c now t s).0.inner
  unfolding insert_schedule send
  insert_schedule-IsSound now t s h =
      let t' = if t.enabled then with_next_run c now t else t in
      subst IsSound (sym (inner-persist (record s { inner = insert t'.id t' s.inner }))) (record {
        distinct = insert-HasDistinctKeys t'.id t' s.inner h.distinct;
        own = insert-OwnIds t' s.inner h.own;
      })

  delete-IsSound : (id : ℕ) (s : ScheduleStore) → IsSound s.inner → IsSound (delete id s).0.inner
  unfolding delete
  delete-IsSound id s h = elim (Bool-cases (is_some (get id s.inner))) [
    | inl there ↦ rw there (
        subst IsSound (sym (inner-persist (record s { inner = remove id s.inner }))) (record {
          distinct = remove-HasDistinctKeys id s.inner h.distinct;
          own = remove-OwnIds id s.inner h.own;
        }))
    | inr gone ↦ rw gone h
  ]

  pub apply-IsSound :
      (call : Call) (s : ScheduleStore)
      → IsFair call
      → IsSound s.inner
      → IsSound (apply call s).inner
  unfolding update record_success record_failure reset_errors add_usage update_source_states
      record_run after_success after_failure after_run after_usage with_states with_next_run
  apply-IsSound (inserting now t) s fair h = insert_schedule-IsSound now t s h
  apply-IsSound (updating now id f) s fair h =
      write_back-IsSound id (updated_by now f) updated s fair h
  apply-IsSound (deleting id) s fair h = delete-IsSound id s h
  apply-IsSound (running now id run) s fair h =
      write_back-IsSound id (after_run c now run) (λ t. schedule_run_started id run) s (λ t. refl) h
  apply-IsSound (succeeding now id) s fair h =
      write_back-IsSound id (after_success now) updated s (λ t. refl) h
  apply-IsSound (failing now id error) s fair h =
      write_back-IsSound id (after_failure now error) updated s (λ t. refl) h
  apply-IsSound (resetting now id) s fair h =
      write_back-IsSound id (after_success now) updated s (λ t. refl) h
  apply-IsSound (using now id input output) s fair h =
      write_quietly-IsSound id (after_usage now input output) s (λ t. refl) h
  apply-IsSound (fetching now id states) s fair h =
      write_quietly-IsSound id (with_states now states) s (λ t. refl) h
