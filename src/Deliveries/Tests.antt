-- ===== src/Deliveries/Tests.antt =====
-- The ring of deliveries on a small example.
use serial_agent.Prelude.{
  ℕ, ◌≡◌, refl, false, none, some, [], ◌∷◌, is_some, bytes, nat_eq, get, insert,
}
use serial_agent.Positions.{find_by, place_of}
use serial_agent.Deliveries.{Delivery, DeliveryStore, insert_delivery}
use serial_agent.Deliveries.Ring.{IsIndexed, find_delivery, insert_delivery_lem}
use serial_agent.Deliveries.Deadlock.{
  LockStep, LockSteps, before_insert, before_get, has_ring, has_index, Inserting, Getting,
  insert-get-deadlock,
}

abbrev delivery_of : ℕ → Delivery
delivery_of id = record {
  id = id;
  schedule_id = none;
  schedule_name = none;
  run_id = none;
  created_at = 0;
  title = bytes "t";
  body = bytes "b";
  sources = [];
  read = false;
  input_tokens = 0;
  output_tokens = 0;
  total_tokens = 0;
  metadata = bytes "null";
}

abbrev nothing_yet : DeliveryStore
nothing_yet = record { inner = []; index = []; dirty = false }

nothing_yet-IsIndexed : IsIndexed nothing_yet
unfolding get place_of
nothing_yet-IsIndexed = record { distinct = tt; exact = λ id. refl }

abbrev one : DeliveryStore
one = insert_delivery 2 (delivery_of 1) nothing_yet

new_to_nothing : (id : ℕ) → find_delivery id nothing_yet.inner ≡ none
unfolding find_by
new_to_nothing id = refl

one-IsIndexed : IsIndexed one
one-IsIndexed =
    (insert_delivery_lem 2 1 (delivery_of 1) nothing_yet (new_to_nothing 1) nothing_yet-IsIndexed).0

two_new : find_delivery 2 one.inner ≡ none
unfolding insert_delivery find_by
two_new = refl

abbrev two : DeliveryStore
two = insert_delivery 2 (delivery_of 2) one

two-IsIndexed : IsIndexed two
two-IsIndexed = (insert_delivery_lem 2 1 (delivery_of 2) one two_new one-IsIndexed).0

two_inner : two.inner ≡ delivery_of 1 ∷ delivery_of 2 ∷ []
unfolding insert_delivery
two_inner = refl

one_found : get 1 one.index ≡ some 0
unfolding insert_delivery get insert
one_found = refl

insert-get-deadlock_example :
    LockSteps (is_some (get 1 one.index)) before_insert before_get has_ring has_index
    × ((i : Inserting) (g : Getting)
        → ¬ LockStep (is_some (get 1 one.index)) has_ring has_index i g)
insert-get-deadlock_example = insert-get-deadlock 1 0 one one_found
