-- ===== src/Runs/Ring.antt =====
-- crates/gateway/src/runtime/runs.rs: `push_back`, `pop_front`, `insert` and the ring built from a
-- file.
use serial_agent.Prelude.{
  ℕ, ◌+◌, ◌-◌, ◌≤◌, ◌<◌, ◌≡◌, refl, subst, ◌∙◌, none, List, [], ◌∷◌, ◌++◌, arith, or, or-none,
  keep_last, dec_lt, length, length-append, Map, get, insert, nat_eq, get-insert, get-remove, drop,
}
use serial_agent.Positions.{
  place_of, find_by-none, place_of-append, HasDistinct-append, place_of-tail,
}
use serial_agent.Runs.{
  Run, RunStoreInner, index_runs, new_inner, push_back, pop_front, pop_from, insert_run,
}
use serial_agent.Runs.Index.{find_run, seq_of, HasDistinctIds, IsIndexed}

pub push_back-IsIndexed :
    (r : Run) (s : RunStoreInner)
    → find_run r.run_id s.runs ≡ none
    → IsIndexed s
    → IsIndexed (push_back r s)
unfolding push_back
push_back-IsIndexed r s fresh v = record {
  distinct = HasDistinct-append (λ r. r.run_id) r s.runs fresh v.distinct;
  exact = λ id. ground (
    arith,
    get-insert r.run_id id (s.base_seq + length s.runs) s.index,
    place_of-append (λ (r : Run). r.run_id) id s.base_seq r s.runs,
    v.exact id,
    find_by-none (λ (r : Run). r.run_id) r.run_id s.base_seq s.runs fresh,
  );
}

pop_from-IsIndexed :
    (rs : List Run) (s : RunStoreInner) → s.runs ≡ rs → IsIndexed s → IsIndexed (pop_from rs s).0
pop_from-IsIndexed [] s e v = v
pop_from-IsIndexed (r ∷ rs) s e v = record {
  distinct = held.1;
  exact = λ id. ground (
    arith,
    get-remove r.run_id id s.index,
    subst (λ l. get id s.index ≡ seq_of id s.base_seq l) e (v.exact id),
    place_of-tail (λ (r : Run). r.run_id) id s.base_seq r rs held,
  );
}
  where
    held : HasDistinctIds (r ∷ rs)
    held = subst HasDistinctIds e v.distinct

pub pop_front-IsIndexed : (s : RunStoreInner) → IsIndexed s → IsIndexed (pop_front s).0
unfolding pop_front
pop_front-IsIndexed s v = pop_from-IsIndexed s.runs s refl v

insert_run-full :
    (capacity : ℕ) (r : Run) (s : RunStoreInner)
    → capacity < length (s.runs ++ r ∷ [])
    → insert_run capacity r s ≡ (pop_front (push_back r s)).0
unfolding insert_run
insert_run-full capacity r s h = ground arith

insert_run-roomy :
    (capacity : ℕ) (r : Run) (s : RunStoreInner)
    → length (s.runs ++ r ∷ []) ≤ capacity
    → insert_run capacity r s ≡ push_back r s
unfolding insert_run
insert_run-roomy capacity r s h = ground arith

-- Inserting a run with a fresh id keeps the store indexed, whether or not the ring was full.
pub insert_run-IsIndexed :
    (capacity : ℕ) (r : Run) (s : RunStoreInner)
    → find_run r.run_id s.runs ≡ none
    → IsIndexed s
    → IsIndexed (insert_run capacity r s)
insert_run-IsIndexed capacity r s fresh v =
    let pushed = push_back-IsIndexed r s fresh v in
    elim (dec_lt capacity (length (s.runs ++ r ∷ []))) [
      | yes full ↦
          rw (insert_run-full capacity r s full) (pop_front-IsIndexed (push_back r s) pushed)
      | no roomy ↦ rw (insert_run-roomy capacity r s (omega arith)) pushed
    ]

runs-pop_from :
    (rs : List Run) (s : RunStoreInner) → s.runs ≡ rs → (pop_from rs s).0.runs ≡ drop 1 rs
runs-pop_from [] s e = e
runs-pop_from (r ∷ rs) s e = refl

runs-pop_front-push_back :
    (r : Run) (s : RunStoreInner) → (pop_front (push_back r s)).0.runs ≡ drop 1 (s.runs ++ r ∷ [])
unfolding pop_front push_back
runs-pop_front-push_back r s = runs-pop_from (s.runs ++ r ∷ []) (push_back r s) refl

-- A ring of at most `capacity` runs then holds the last `capacity` of its runs and the new one.
pub runs-insert_run :
    (capacity : ℕ) (r : Run) (s : RunStoreInner)
    → length s.runs ≤ capacity
    → (insert_run capacity r s).runs ≡ keep_last capacity (s.runs ++ r ∷ [])
unfolding push_back
runs-insert_run capacity r s h =
    let size = length-append s.runs (r ∷ []) in
    elim (dec_lt capacity (length (s.runs ++ r ∷ []))) [
      | yes full ↦
          let one : length (s.runs ++ r ∷ []) - capacity ≡ 1 = omega arith in
          rw (insert_run-full capacity r s full, one) (runs-pop_front-push_back r s)
      | no roomy ↦
          let zero : length (s.runs ++ r ∷ []) - capacity ≡ 0 = omega arith in
          rw (insert_run-roomy capacity r s (omega arith), zero)
    ]

index_runs-exact :
    (b : ℕ) (rs : List Run) (m : Map ℕ ℕ) (id : ℕ)
    → HasDistinctIds rs
    → get id (index_runs b rs m) ≡ or (seq_of id b rs) (get id m)
unfolding index_runs place_of
index_runs-exact b [] m id d = refl
index_runs-exact b (r ∷ rs) m id d = ground (
  arith,
  index_runs-exact (b + 1) rs (insert r.run_id b m) id d.1,
  get-insert r.run_id id b m,
  find_by-none (λ (r : Run). r.run_id) r.run_id (b + 1) rs d.0,
)

-- A store built from runs with distinct ids is indexed.
pub new_inner-IsIndexed : (rs : List Run) → HasDistinctIds rs → IsIndexed (new_inner rs)
unfolding new_inner get
new_inner-IsIndexed rs d = record {
  distinct = d;
  exact = λ id. index_runs-exact 0 rs [] id d ∙ or-none (seq_of id 0 rs);
}
