-- ===== src/Turn/Assembly.antt =====
-- The arguments of a tool call that comes in pieces (crates/gateway/src/runtime/turn.rs).
use serial_agent.Prelude.{
  ◌≡◌, inl, inr, refl, sym, ap, ◌∙◌, true, some, List, [], ◌∷◌, ◌++◌, if◌then◌else◌, Bytes,
  bytes_beq_iff, bytes_eq, ◌==◌, length, get, get-insert, get-adjust, insert, arith, Bool-cases,
  unwrap_or,
}
use mathlib.Core.List.{append_assoc, append-nil}
use serial_agent.ContextPack.Builder.{decimal}
use serial_agent.Turn.Stream.{
  tool_call_started, tool_call_delta, Streamed, take_event, real_id, push_args,
}

-- Deltas, each with the name that it gives its call.
abbrev pub take_deltas : List (Bytes × Bytes) → Streamed → Streamed
take_deltas [] s = s
take_deltas ((named, delta) ∷ deltas) s =
    take_deltas deltas (take_event (tool_call_delta named delta) s)

-- The pieces that are meant for a call, joined.
abbrev pub meant_for : Bytes → List (Bytes × Bytes) → Streamed → Bytes
meant_for call_id [] s = []
meant_for call_id ((named, delta) ∷ deltas) s =
    let rest = meant_for call_id deltas s in
    if real_id named s == call_id then delta ++ rest else rest

meant_for-delta :
    (call_id named delta : Bytes) (deltas : List (Bytes × Bytes)) (s : Streamed)
    → meant_for call_id deltas (take_event (tool_call_delta named delta) s)
      ≡ meant_for call_id deltas s
unfolding take_event real_id
meant_for-delta call_id named delta [] s = refl
meant_for-delta call_id named delta ((n, d) ∷ deltas) s =
    ap (λ rest. if real_id n s == call_id then d ++ rest else rest)
      (meant_for-delta call_id named delta deltas s)

-- An open call has, after any deltas, the arguments that it had and then those that are meant for
-- it, in their order.
take_deltas-open :
    (call_id tool_name args : Bytes) (deltas : List (Bytes × Bytes)) (s : Streamed)
    → get call_id s.tc_bufs ≡ some (tool_name, args)
    → get call_id (take_deltas deltas s).tc_bufs
      ≡ some (tool_name, args ++ meant_for call_id deltas s)
unfolding take_event
take_deltas-open call_id tool_name args [] s open_ =
    open_ ∙ ap (λ a. some (tool_name, a)) (sym (append-nil args))
take_deltas-open call_id tool_name args ((named, delta) ∷ deltas) s open_ =
    let next = take_event (tool_call_delta named delta) s in
    let same = meant_for-delta call_id named delta deltas s in
    let found = get-adjust (real_id named s) call_id (push_args delta) s.tc_bufs in
    elim (Bool-cases (real_id named s == call_id)) [
      | inl here ↦ rw here (
          take_deltas-open call_id tool_name (args ++ delta) deltas next
            (found ∙ rw (here, open_) refl)
          ∙ ap (λ a. some (tool_name, a))
              (append_assoc args delta (meant_for call_id deltas next)
                ∙ ap (λ a. args ++ (delta ++ a)) same))
      | inr there ↦ rw there (
          take_deltas-open call_id tool_name args deltas next (found ∙ rw (there, open_) refl)
          ∙ ap (λ a. some (tool_name, args ++ a)) same)
    ]

-- A call that starts as the n-th of a response and then gets deltas, among those of other calls,
-- has as its arguments the deltas that are meant for it, joined in their order; its number n as a
-- name stands for its id.
pub take_deltas_lem :
    (call_id tool_name : Bytes) (deltas : List (Bytes × Bytes)) (before : Streamed)
    → let s = take_event (tool_call_started call_id tool_name) before in
      (get call_id (take_deltas deltas s).tc_bufs ≡ some (tool_name, meant_for call_id deltas s))
      × (real_id (decimal (length before.tc_idx_to_id)) s ≡ call_id)
unfolding take_event real_id
take_deltas_lem call_id tool_name deltas before =
    let s = take_event (tool_call_started call_id tool_name) before in
    let n = decimal (length before.tc_idx_to_id) in
    let same_id : (call_id == call_id) ≡ true = ground (arith, bytes_beq_iff call_id call_id) in
    let same_n : (n == n) ≡ true = ground (arith, bytes_beq_iff n n) in
    let named : get n (insert n call_id before.tc_idx_to_id) ≡ some call_id =
      get-insert n n call_id before.tc_idx_to_id ∙ rw same_n refl in
    (
      take_deltas-open call_id tool_name [] deltas s
          (get-insert call_id call_id (tool_name, []) before.tc_bufs ∙ rw same_id refl),
      ap (λ o. unwrap_or o n) named,
    )
