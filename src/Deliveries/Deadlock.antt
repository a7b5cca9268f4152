-- ===== src/Deliveries/Deadlock.antt =====
-- The two locks of crates/gateway/src/runtime/deliveries.rs: `insert` takes that of the ring and then
-- that of the index, `get` takes them the other way round.
use serial_agent.Prelude.{ℕ, ◌≡◌, refl, arith, Bool, true, false, some, get, nat_eq, is_some}
use serial_agent.Deliveries.{DeliveryStore}

-- Where a call of `insert` is: before, with the ring, with both locks, and done.
pub data Inserting : Type 0 where
  before_insert has_ring has_both inserted : Inserting

-- Where a call of `get` is: before, with the index, with both locks, and done.
pub data Getting : Type 0 where
  before_get has_index reads_both got : Getting

abbrev writes_ring : Inserting → Bool
writes_ring has_ring = true
writes_ring has_both = true
writes_ring _ = false

abbrev writes_index : Inserting → Bool
writes_index has_both = true
writes_index _ = false

abbrev reads_ring : Getting → Bool
reads_ring reads_both = true
reads_ring _ = false

abbrev reads_index : Getting → Bool
reads_index has_index = true
reads_index reads_both = true
reads_index _ = false

-- One step of either call, where the lock that it waits for is free; `found` is whether the index
-- has the id that `get` looks for.
pub data LockStep (found : Bool) : Inserting → Getting → Inserting → Getting → Type 0 where
  take_ring : {g : Getting} → reads_ring g ≡ false → LockStep found before_insert g has_ring g
  take_index : {g : Getting} → reads_index g ≡ false → LockStep found has_ring g has_both g
  let_go : {g : Getting} → LockStep found has_both g inserted g
  read_index : {i : Inserting} → writes_index i ≡ false → LockStep found i before_get i has_index
  miss : {i : Inserting} → found ≡ false → LockStep found i has_index i got
  read_ring :
      {i : Inserting}
      → found ≡ true
      → writes_ring i ≡ false
      → LockStep found i has_index i reads_both
  answer : {i : Inserting} → LockStep found i reads_both i got

pub data LockSteps (found : Bool) : Inserting → Getting → Inserting → Getting → Type 0 where
  here : {i : Inserting} {g : Getting} → LockSteps found i g i g
  more :
      {i j k : Inserting} {g h l : Getting}
      → LockStep found i g j h
      → LockSteps found j h k l
      → LockSteps found i g k l

stuck :
    (found : Bool) (i : Inserting) (g : Getting) (j : Inserting) (h : Getting)
    → found ≡ true
    → i ≡ has_ring
    → g ≡ has_index
    → ¬ LockStep found i g j h
stuck found _ _ _ _ f i g (take_ring e) = absurd (cc)
stuck found _ _ _ _ f i g (take_index e) = ground arith
stuck found _ _ _ _ f i g let_go = absurd (cc)
stuck found _ _ _ _ f i g (read_index e) = absurd (cc)
stuck found _ _ _ _ f i g (miss e) = absurd (cc)
stuck found _ _ _ _ f i g (read_ring a e) = ground arith
stuck found _ _ _ _ f i g answer = absurd (cc)

-- An insertion and a read of a delivery that is there can come to where each waits for the lock
-- that the other holds: neither is done, and no step is left.
pub insert-get-deadlock :
    (id pos : ℕ) (s : DeliveryStore)
    → get id s.index ≡ some pos
    → let found = is_some (get id s.index) in
      LockSteps found before_insert before_get has_ring has_index
      × ((i : Inserting) (g : Getting) → ¬ LockStep found has_ring has_index i g)
insert-get-deadlock id pos s e = (
  more (take_ring refl) (more (read_index refl) here),
  λ i g. stuck _ has_ring has_index i g (rw e refl) refl refl,
)
