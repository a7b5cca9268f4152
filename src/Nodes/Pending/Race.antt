-- ===== src/Nodes/Pending/Race.antt =====
-- Concurrent dispatches to one node. The check of the limits and the entry of the request take the
-- lock one after the other, so the steps of other calls come between them.
use mathlib.Core.List.{append_assoc, append-nil}
use serial_agent.Prelude.{
  ℕ, suc, ◌+◌, ◌≡◌, refl, ap, ◌∙◌, true, none, some, List, [], ◌∷◌, ◌++◌, arith, if◌then◌else◌,
  is_none, Bytes, bytes_eq, bytes_beq_iff, length, Map, get, insert, get-insert, unwrap_or,
  length-insert_fresh,
}
use serial_agent.Nodes.Pending.{PendingRequest, PendingState, insert_request, node_count}
use serial_agent.Nodes.Pending.Dispatch.{Limits, check_limits, enter_request}

-- The state, and the calls that have passed the check and not yet entered, oldest first.
pub record Race : Type 0 where
  pub state : PendingState
  pub passed : List (Bytes × ℕ)

-- A call, with its request id and channel, checks the limits; the oldest call that has passed
-- enters its request and waits.
pub data RaceStep : Type 0 where
  checks : Bytes → ℕ → RaceStep
  enters : RaceStep

abbrev enter_first : Bytes → List (Bytes × ℕ) → Race → Race
enter_first node [] r = r
enter_first node ((id, tx) ∷ rest) r = record {
  state = (enter_request id node tx (some 0) true r.state).0;
  passed = rest;
}

unfoldable pub race_step : Limits → Bytes → RaceStep → Race → Race
unfolding check_limits enter_request
race_step l node (checks id tx) r =
    if is_none (check_limits l node r.state)
    then record r { passed = r.passed ++ (id, tx) ∷ [] }
    else r
race_step l node enters r = enter_first node r.passed r

unfoldable pub race : Limits → Bytes → List RaceStep → Race → Race
unfolding race_step
race l node [] r = r
race l node (e ∷ es) r = race l node es (race_step l node e r)

-- No two of the ids are the same, and none is in use.
abbrev pub AreFresh : Bytes → List (Bytes × ℕ) → Map Bytes PendingRequest → Type 0
AreFresh node [] m = Unit
AreFresh node ((id, tx) ∷ calls) m =
    (get id m ≡ none) × AreFresh node calls (insert id (record { node_id = node; tx = tx }) m)

abbrev pub all_check : List (Bytes × ℕ) → List RaceStep
all_check [] = []
all_check ((id, tx) ∷ calls) = checks id tx ∷ all_check calls

abbrev pub all_enter : List (Bytes × ℕ) → List RaceStep
all_enter [] = []
all_enter (c ∷ calls) = enters ∷ all_enter calls

race-append :
    (l : Limits) (node : Bytes) (xs ys : List RaceStep) (r : Race)
    → race l node (xs ++ ys) r ≡ race l node ys (race l node xs r)
unfolding race
race-append l node [] ys r = refl
race-append l node (x ∷ xs) ys r = race-append l node xs ys (race_step l node x r)

passing :
    (l : Limits) (node id : Bytes) (tx : ℕ) (r : Race)
    → check_limits l node r.state ≡ none
    → race_step l node (checks id tx) r
      ≡ record { state = r.state; passed = r.passed ++ (id, tx) ∷ [] }
passing l node id tx r h = unfold race_step in rw h

race-all_check :
    (l : Limits) (node : Bytes) (calls : List (Bytes × ℕ)) (r : Race)
    → check_limits l node r.state ≡ none
    → race l node (all_check calls) r ≡ record { state = r.state; passed = r.passed ++ calls }
unfolding race
race-all_check l node [] r h = rw (append-nil r.passed)
race-all_check l node ((id, tx) ∷ calls) r h =
    ap (race l node (all_check calls)) (passing l node id tx r h)
    ∙ race-all_check l node calls (record { state = r.state; passed = r.passed ++ (id, tx) ∷ [] }) h
    ∙ ap (λ p. record { state = r.state; passed = p }) (append_assoc r.passed ((id, tx) ∷ []) calls)

entering :
    (node id : Bytes) (tx : ℕ) (s : PendingState)
    → get id s.requests ≡ none
    → let t = insert_request id (record { node_id = node; tx = tx }) s in
      (length t.requests ≡ suc (length s.requests)) × (node_count node t ≡ suc (node_count node s))
unfolding insert_request node_count
entering node id tx s fresh = (
  length-insert_fresh id (record { node_id = node; tx = tx }) s.requests fresh,
  ground (
    arith,
    bytes_beq_iff node node,
    get-insert node node (unwrap_or (get node s.node_counts) 0 + 1) s.node_counts,
  ),
)

race-all_enter :
    (l : Limits) (node : Bytes) (calls : List (Bytes × ℕ)) (s : PendingState)
    → AreFresh node calls s.requests
    → let t = (race l node (all_enter calls) (record { state = s; passed = calls })).state in
      (length t.requests ≡ length s.requests + length calls)
      × (node_count node t ≡ node_count node s + length calls)
unfolding race insert_request
race-all_enter l node [] s fresh = (omega arith, omega arith)
race-all_enter l node ((id, tx) ∷ calls) s fresh =
    let req : PendingRequest = record { node_id = node; tx = tx } in
    let (all, own) = race-all_enter l node calls (insert_request id req s) fresh.1 in
    let (more, one) = entering node id tx s fresh.0 in
    (omega (arith, all, more), omega (arith, own, one))

-- The limits do not bound concurrent calls: from a state with room for one request, any number of
-- calls that check before any of them enters all pass, and each adds one to the requests and one
-- to the count of the node.
pub race_unbounded :
    (l : Limits) (node : Bytes) (calls : List (Bytes × ℕ)) (s : PendingState)
    → check_limits l node s ≡ none
    → AreFresh node calls s.requests
    → let t =
        (race l node
          (all_check calls ++ all_enter calls)
          (record { state = s; passed = [] })).state in
      (length t.requests ≡ length s.requests + length calls)
      × (node_count node t ≡ node_count node s + length calls)
race_unbounded l node calls s h fresh =
    rw
      (
        race-append l node (all_check calls) (all_enter calls) (record { state = s; passed = [] }),
        race-all_check l node calls (record { state = s; passed = [] }) h,
      )
      (race-all_enter l node calls s fresh)
