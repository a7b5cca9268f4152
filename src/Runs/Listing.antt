-- ===== src/Runs/Listing.antt =====
-- crates/gateway/src/runtime/runs.rs, `RunStore::list` and `RunStore::status_counts`.
use native.Mathlib.Nat.{zero-add}
use serial_agent.Prelude.{
  ℕ, ◌+◌, ◌-◌, ◌≡◌, sym, ap, ◌∙◌, Bool, true, false, ◌&&◌, Option, none, some, List, [], ◌∷◌, ◌++◌,
  reverse, arith, min, length, take, drop, keep_if, count_if, keep_if-congr, count_if-reverse,
  and_iff, Bytes, Eq, Map, get, insert, get-insert, unwrap_or, bytes_beq, length-take, length-drop,
  take-add, drop-drop, take_of_length-le, ◌↔◌, bytes_beq_iff,
}
use serial_agent.Runs.{Run, RunStatus, status_beq, RunStoreInner}

abbrev same_text : Option Bytes → Bytes → Bool
same_text none b = false
same_text (some a) b = bytes_beq a b

by_status : Option RunStatus → Run → Bool
by_status none r = true
by_status (some s) r = status_beq r.status s

by_session : Option Bytes → Run → Bool
by_session none r = true
by_session (some k) r = bytes_beq r.session_key k

by_agent : Option Bytes → Run → Bool
by_agent none r = true
by_agent (some a) r = same_text r.agent_id a

-- The closure `filter`: a filter that is not given passes every run.
unfoldable pub passes : Option RunStatus → Option Bytes → Option Bytes → Run → Bool
unfolding by_status by_session by_agent
passes status session_key agent_id r =
    by_status status r && (by_session session_key r && by_agent agent_id r)

-- `RunStore::list`: the page and the number of all runs that match.
unfoldable pub list_runs :
    Option RunStatus → Option Bytes → Option Bytes → ℕ → ℕ → RunStoreInner → List Run × ℕ
list_runs status session_key agent_id limit offset s =
    let matching = keep_if (passes status session_key agent_id) (reverse s.runs) in
    (take limit (drop offset matching), length matching)

-- A page holds `limit` runs, or what is left after the offset.
pub length-list_runs :
    (status : Option RunStatus) (key agent : Option Bytes) (limit offset : ℕ) (s : RunStoreInner)
    → let (page, total) = list_runs status key agent limit offset s in
      length page ≡ min limit (total - offset)
unfolding list_runs
length-list_runs status key agent limit offset s =
    let matching = keep_if (passes status key agent) (reverse s.runs) in
    omega (arith, length-take limit (drop offset matching), length-drop offset matching)

-- Reading a page and the next one is reading both at once, and the total is that of the one page
-- that holds every match.
pub list_runs-pages :
    (status : Option RunStatus) (key agent : Option Bytes) (n m offset : ℕ) (s : RunStoreInner)
    → ((list_runs status key agent n offset s).0 ++ (list_runs status key agent m (offset + n) s).0
        ≡ (list_runs status key agent (n + m) offset s).0)
      × ((list_runs status key agent (list_runs status key agent n offset s).1 0 s).0
          ≡ keep_if (passes status key agent) (reverse s.runs))
unfolding list_runs
list_runs-pages status key agent n m offset s =
    let matching = keep_if (passes status key agent) (reverse s.runs) in
    (
      rw (← drop-drop n offset matching) (sym (take-add n m (drop offset matching))),
      take_of_length-le (length matching) matching (omega arith),
    )

-- What a filter asks for: the value of the field, where the filter is given.
abbrev pub Asks {ℓ} : {A : Type ℓ} → Option A → Option A → Type ℓ
Asks none field = Unit
Asks (some a) field = field ≡ some a

pub status_beq_iff : (s t : RunStatus) → (status_beq s t ≡ true) ↔ (s ≡ t)
status_beq_iff s t = ground arith

by_status_iff : (o : Option RunStatus) (r : Run) → (by_status o r ≡ true) ↔ Asks o (some r.status)
unfolding by_status
by_status_iff none r = ground arith
by_status_iff (some s) r = ground (arith, status_beq_iff r.status s)

by_session_iff :
    (o : Option Bytes) (r : Run) → (by_session o r ≡ true) ↔ Asks o (some r.session_key)
unfolding by_session
by_session_iff none r = ground arith
by_session_iff (some k) r = ground (arith, bytes_beq_iff r.session_key k)

same_text_iff : (o : Option Bytes) (b : Bytes) → (same_text o b ≡ true) ↔ (o ≡ some b)
same_text_iff none b = ground arith
same_text_iff (some a) b = ground (arith, bytes_beq_iff a b)

by_agent_iff : (o : Option Bytes) (r : Run) → (by_agent o r ≡ true) ↔ Asks o r.agent_id
unfolding by_agent
by_agent_iff none r = ground arith
by_agent_iff (some a) r = same_text_iff r.agent_id a

-- A run passes exactly when each filter that is given names the value of its field.
pub passes_iff :
    (status : Option RunStatus) (key agent : Option Bytes) (r : Run)
    → (passes status key agent r ≡ true)
      ↔ (Asks status (some r.status) × Asks key (some r.session_key) × Asks agent r.agent_id)
unfolding passes
passes_iff status key agent r = (
  λ h.
      let (p, q) = (and_iff _ _).0 h in
      let (k, a) = (and_iff _ _).0 q in
      ((by_status_iff status r).0 p, (by_session_iff key r).0 k, (by_agent_iff agent r).0 a),
  λ h. (and_iff _ _).1 (
    (by_status_iff status r).1 h.0,
    (and_iff _ _).1 ((by_session_iff key r).1 h.1, (by_agent_iff agent r).1 h.2),
  ),
)

instance abbrev pub status_eq : Eq RunStatus
status_eq = record { beq = status_beq; beq_iff = status_beq_iff }

-- The loop of `RunStore::status_counts`: `*counts.entry(key).or_insert(0) += 1`.
pub count_loop : List Run → Map RunStatus ℕ → Map RunStatus ℕ
count_loop [] counts = counts
count_loop (r ∷ rs) counts =
    count_loop rs (insert r.status (unwrap_or (get r.status counts) 0 + 1) counts)

unfoldable pub status_counts : RunStoreInner → Map RunStatus ℕ
unfolding count_loop
status_counts s = count_loop s.runs []

count_loop_lem :
    (t : RunStatus) (rs : List Run) (counts : Map RunStatus ℕ)
    → unwrap_or (get t (count_loop rs counts)) 0
      ≡ unwrap_or (get t counts) 0 + count_if (λ r. status_beq r.status t) rs
unfolding count_loop
count_loop_lem t [] counts = omega arith
count_loop_lem t (r ∷ rs) counts =
    let counts' = insert r.status (unwrap_or (get r.status counts) 0 + 1) counts in
    ground (
      arith,
      count_loop_lem t rs counts',
      get-insert r.status t (unwrap_or (get r.status counts) 0 + 1) counts,
      status_beq_iff r.status t,
    )

only_status : (t : RunStatus) (r : Run) → status_beq r.status t ≡ passes (some t) none none r
unfolding passes
only_status t r = ground arith

-- The count under a status is that of the page that `list` gives for the status.
pub status_counts-list_runs :
    (t : RunStatus) (s : RunStoreInner)
    → unwrap_or (get t (status_counts s)) 0 ≡ (list_runs (some t) none none 0 0 s).1
unfolding status_counts list_runs get
status_counts-list_runs t s =
    count_loop_lem t s.runs []
    ∙ zero-add _
    ∙ sym (count_if-reverse (λ r. status_beq r.status t) s.runs)
    ∙ ap length (
        keep_if-congr (λ r. status_beq r.status t) (passes (some t) none none) (reverse s.runs)
          (λ r. only_status t r))
