-- ===== src/Schedules/Writes.antt =====
-- What a write of the schedule store leaves in its map.
use mathlib.Core.Option
use serial_agent.Prelude.{
  ℕ, ◌≡◌, refl, sym, ap, ◌∙◌, inl, inr, true, some, arith, if◌then◌else◌, eqb, eqb_iff, nat_eq, get,
  adjust, get-adjust, Option-cases, Bool-cases,
}
use serial_agent.Schedules.{Schedule, ScheduleEvent}
use serial_agent.Schedules.Store.{ScheduleStore, persist, snapshot, write_file, send, write_back}

pub inner-persist : (st : ScheduleStore) → (persist st).inner ≡ st.inner
unfolding persist snapshot write_file
inner-persist st = elim (Option-cases (snapshot st)) [
  | inl no_text ↦ rw (no_text, persist) refl
  | inr (text, e) ↦ elim (Bool-cases st.writable) [
    | inl can ↦ rw (e, persist, can) refl
    | inr cannot ↦ rw (e, persist, cannot) refl
  ]
]

pub get-write_back :
    (id j : ℕ) (f : Schedule → Schedule) (event : Schedule → ScheduleEvent) (st : ScheduleStore)
    → get j (write_back id f event st).inner
      ≡ (if eqb id j then Option.map f (get j st.inner) else get j st.inner)
unfolding send
get-write_back id j f event st = elim (Option-cases (get id st.inner)) [
  | inl gone ↦
      rw (gone, write_back)
        (elim (Bool-cases (eqb id j)) [
          | inl same ↦ rw (same, sym (ap (λ k. get k st.inner) ((eqb_iff id j).0 same)) ∙ gone) refl
          | inr other ↦ rw other refl
        ])
  | inr (old, there) ↦
      rw (there, write_back)
        (ap (get j) (inner-persist (record st { inner = adjust id f st.inner }))
          ∙ get-adjust id j f st.inner)
]

-- The schedule that is written.
pub get-write_back_self :
    (id : ℕ) (f : Schedule → Schedule) (event : Schedule → ScheduleEvent) (st : ScheduleStore)
    (t : Schedule)
    → get id st.inner ≡ some t
    → get id (write_back id f event st).inner ≡ some (f t)
get-write_back_self id f event st t there =
    let same : eqb id id ≡ true = ground arith in
    get-write_back id id f event st ∙ rw (same, there) refl

pub inner-write_back :
    (id : ℕ) (f : Schedule → Schedule) (event : Schedule → ScheduleEvent) (st : ScheduleStore)
    (t : Schedule)
    → get id st.inner ≡ some t
    → (write_back id f event st).inner ≡ adjust id f st.inner
unfolding send
inner-write_back id f event st t there =
    rw (there, write_back) (inner-persist (record st { inner = adjust id f st.inner }))
