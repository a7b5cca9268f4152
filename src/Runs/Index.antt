-- ===== src/Runs/Index.antt =====
-- crates/gateway/src/runtime/runs.rs: the index of the ring, `get` and `update`.
use mathlib.Core.Option
use serial_agent.Prelude.{
  ℕ, ◌-◌, ◌≤◌, ◌≡◌, sym, ◌∙◌, true, false, Option, none, some, List, arith, eqb, if◌then◌else◌,
  is_some, modify, get, nat_eq, Option-cases, Bool-cases, inl, inr,
}
use serial_agent.Positions.{
  find_by, place_of, HasDistinct, place_of-bounds, place_of-none, find_by-modify, place_of-modify,
  HasDistinct-modify, find_by-is_some,
}
use serial_agent.Runs.{Run, RunStoreInner, deque_idx, get_run, update_run}

-- The specification: the run with the id, found by a search from the front.
abbrev pub find_run : ℕ → List Run → Option Run
find_run = find_by (λ r. r.run_id)

abbrev pub seq_of : ℕ → ℕ → List Run → Option ℕ
seq_of = place_of (λ r. r.run_id)

abbrev pub HasDistinctIds : List Run → Type 0
HasDistinctIds = HasDistinct (λ r. r.run_id)

-- Ids are distinct, and the index holds the sequence number of each run and nothing else.
pub record IsIndexed (s : RunStoreInner) : Type 0 where
  pub distinct : HasDistinctIds s.runs
  pub exact : (id : ℕ) → get id s.index ≡ seq_of id s.base_seq s.runs

resolved : (s : RunStoreInner) (n : ℕ) → s.base_seq ≤ n → deque_idx s n ≡ some (n - s.base_seq)
unfolding deque_idx
resolved s n h = ground arith

-- Where the store is indexed, `get` finds the run with the id wherever it stands in the ring, and
-- nothing exactly when no run has the id.
pub get_run-find_run :
    (id : ℕ) (s : RunStoreInner) → IsIndexed s → get_run id s ≡ find_run id s.runs
unfolding get_run
get_run-find_run id s v = elim (Option-cases (seq_of id s.base_seq s.runs)) [
  | inl e ↦
      rw (v.exact id) (rw (e, get_run) (sym (place_of-none (λ r. r.run_id) id s.base_seq s.runs e)))
  | inr (n, e) ↦
      let place = place_of-bounds (λ r. r.run_id) id s.base_seq n s.runs e in
      rw (v.exact id) (rw (e, get_run) (rw (resolved s n place.0, get_run) place.2))
]

pub update_run_absent :
    (id : ℕ) (f : Run → Run) (s : RunStoreInner)
    → IsIndexed s
    → seq_of id s.base_seq s.runs ≡ none
    → update_run id f s ≡ (s, false)
unfolding update_run
update_run_absent id f s v e = rw (v.exact id) (rw (e, update_run))

pub update_run_present :
    (id n : ℕ) (f : Run → Run) (s : RunStoreInner)
    → IsIndexed s
    → seq_of id s.base_seq s.runs ≡ some n
    → update_run id f s ≡ (record s { runs = modify (n - s.base_seq) f s.runs }, true)
unfolding update_run
update_run_present id n f s v e =
    let place = place_of-bounds (λ r. r.run_id) id s.base_seq n s.runs e in
    rw (v.exact id) (rw (e, update_run) (rw (resolved s n place.0, update_run) (ground arith)))

modified-IsIndexed :
    (n : ℕ) (f : Run → Run) (s : RunStoreInner)
    → ((r : Run) → (f r).run_id ≡ r.run_id)
    → IsIndexed s
    → IsIndexed (record s { runs = modify n f s.runs })
modified-IsIndexed n f s keep v = record {
  distinct = HasDistinct-modify (λ r. r.run_id) f n s.runs keep v.distinct;
  exact = λ id. v.exact id ∙ sym (place_of-modify (λ r. r.run_id) f id s.base_seq n s.runs keep);
}

-- An update that keeps the id keeps the store indexed.
pub update_run-IsIndexed :
    (id : ℕ) (f : Run → Run) (s : RunStoreInner)
    → ((r : Run) → (f r).run_id ≡ r.run_id)
    → IsIndexed s
    → IsIndexed (update_run id f s).0
update_run-IsIndexed id f s keep v = elim (Option-cases (seq_of id s.base_seq s.runs)) [
  | inl e ↦ rw (update_run_absent id f s v e) v
  | inr (n, e) ↦ rw (update_run_present id n f s v e) (modified-IsIndexed _ f s keep v)
]

absent_unchanged :
    (id j : ℕ) (f : Run → Run) (rs : List Run)
    → find_run id rs ≡ none
    → find_run j rs ≡ (if eqb id j then Option.map f (find_run j rs) else find_run j rs)
absent_unchanged id j f rs h = elim (Bool-cases (eqb id j)) [
  | inl same ↦ let e : id ≡ j = ground arith in rw same (rw (← e, h))
  | inr other ↦ rw other
]

-- An update that keeps the id reports whether a run with the id is in the ring; it changes that
-- run and no other.
pub get_run-update_run :
    (id j : ℕ) (f : Run → Run) (s : RunStoreInner)
    → ((r : Run) → (f r).run_id ≡ r.run_id)
    → IsIndexed s
    → ((update_run id f s).1 ≡ is_some (get_run id s))
      × (get_run j (update_run id f s).0
          ≡ (if eqb id j then Option.map f (get_run j s) else get_run j s))
get_run-update_run id j f s keep v =
    rw
      (
        get_run-find_run id s v,
        get_run-find_run j s v,
        get_run-find_run j _ (update_run-IsIndexed id f s keep v),
      )
      (elim (Option-cases (seq_of id s.base_seq s.runs)) [
        | inl e ↦
            let gone = place_of-none (λ r. r.run_id) id s.base_seq s.runs e in
            rw (update_run_absent id f s v e) (rw gone, absent_unchanged id j f s.runs gone)
        | inr (n, e) ↦ rw (update_run_present id n f s v e) (
          sym (find_by-is_some (λ r. r.run_id) id s.base_seq n s.runs e),
          find_by-modify (λ r. r.run_id) f id j n s.base_seq s.runs keep e,
        )
      ])
