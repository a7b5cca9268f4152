-- ===== src/Cancel/Tests.antt =====
-- The cancel tokens of crates/gateway/src/runtime/cancel.rs on a small example.
use serial_agent.Prelude.{◌≡◌, refl, true, false, ◌∷◌, bytes, bytes_beq, bytes_eq, any, get, insert}
use serial_agent.Cancel.{CancelMap, new_map, register_token, cancel, add_to_group, is_cancelled}
use serial_agent.Cancel.Cascade.{AreOld, children, register_token_lem, cancel_misses}

new_map-AreOld : AreOld new_map
unfolding new_map get
new_map-AreOld key t h = absurd (cc)

abbrev parent_only : CancelMap
parent_only = (register_token (bytes "p") new_map).0

parent_only-AreOld : AreOld parent_only
parent_only-AreOld = (register_token_lem (bytes "p") new_map new_map-AreOld).0

abbrev family : CancelMap
family = add_to_group (bytes "p") (bytes "c") (register_token (bytes "c") parent_only).0

-- A stop of the parent reaches the child.
reaches_child : is_cancelled (cancel (bytes "p") family).0 1 ≡ true
unfolding cancel add_to_group register_token new_map get insert
reaches_child = refl

apart : any (bytes_beq (bytes "s")) (bytes "task:7" ∷ children (bytes "task:7") parent_only) ≡ false
unfolding register_token new_map get
apart = refl

cancel_misses_example :
    is_cancelled
      (cancel (bytes "task:7") (register_token (bytes "s") parent_only).0).0
      (register_token (bytes "s") parent_only).1
    ≡ false
cancel_misses_example =
    cancel_misses (bytes "task:7") (bytes "s") parent_only parent_only-AreOld apart
