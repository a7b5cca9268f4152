-- ===== src/Deliveries.antt =====
-- crates/gateway/src/runtime/deliveries.rs: the bounded ring of deliveries with its index of
-- positions. The ring and the index have a lock each.
pub mod Ring
pub mod Moved
pub mod Deadlock
pub mod Tests
use serial_agent.Prelude.{
  ℕ, zero, suc, ◌+◌, ◌≡◌, Bool, true, false, not, Option, none, some, List, [], ◌∷◌, ◌++◌, reverse,
  ltb, eqb, if◌then◌else◌, Bytes, length, get_elem?, take, drop, modify, keep_if, count_if, Map,
  get, insert, remove, nat_eq,
}

-- `Delivery`; the metadata is the bytes of its JSON.
pub record Delivery : Type 0 where
  pub id : ℕ
  pub schedule_id : Option ℕ
  pub schedule_name : Option Bytes
  pub run_id : Option ℕ
  pub created_at : ℕ
  pub title : Bytes
  pub body : Bytes
  pub sources : List Bytes
  pub read : Bool
  pub input_tokens : ℕ
  pub output_tokens : ℕ
  pub total_tokens : ℕ
  pub metadata : Bytes

-- `MAX_DELIVERIES`.
abbrev pub max_deliveries : ℕ
max_deliveries = 1000

pub record DeliveryStore : Type 0 where
  pub inner : List Delivery
  pub index : Map ℕ ℕ
  pub dirty : Bool

-- The positions of the deliveries, written under their ids.
unfoldable pub number_from : ℕ → List Delivery → Map ℕ ℕ → Map ℕ ℕ
number_from i [] index = index
number_from i (d ∷ ds) index = number_from (i + 1) ds (insert d.id i index)

-- `while inner.len() > MAX_DELIVERIES { inner.pop_front() }`.
unfoldable pub trim : ℕ → List Delivery → List Delivery
trim capacity [] = []
trim capacity (d ∷ ds) =
    let rest = trim capacity ds in if ltb capacity (length (d ∷ ds)) then rest else d ∷ ds

abbrev prepend : Option Delivery → List Delivery → List Delivery
prepend none ds = ds
prepend (some d) ds = d ∷ ds

-- The lines that parse, in order; `parse` stands for `serde_json::from_str::<Delivery>`.
unfoldable pub parse_lines : (Bytes → Option Delivery) → List Bytes → List Delivery
parse_lines parse [] = []
parse_lines parse (line ∷ lines) = prepend (parse line) (parse_lines parse lines)

-- `DeliveryStore::load`: the store, and the ring that the file is rewritten with where some lines
-- were left out; `none` is a file that cannot be read.
unfoldable pub load :
    (Bytes → Option Delivery) → ℕ → Option (List Bytes) → DeliveryStore × Option (List Delivery)
load parse capacity none = (record { inner = []; index = []; dirty = false }, none)
load parse capacity (some lines) =
    let all = parse_lines parse lines in
    let kept = trim capacity all in
    (
      record { inner = kept; index = number_from 0 kept []; dirty = false },
      if ltb (length kept) (length all) then some kept else none,
    )

-- `DeliveryStore::insert`; where the ring was over full the index is cleared and written anew.
unfoldable pub insert_delivery : ℕ → Delivery → DeliveryStore → DeliveryStore
unfolding trim number_from
insert_delivery capacity d s =
    let pushed = s.inner ++ d ∷ [] in
    if ltb capacity (length pushed)
    then record s { inner = trim capacity pushed; index = number_from 0 (trim capacity pushed) [] }
    else record s { inner = pushed; index = insert d.id (length s.inner) s.index }

abbrev pub delivery_at : Option ℕ → List Delivery → Option Delivery
delivery_at none ds = none
delivery_at (some pos) ds = get_elem? ds pos

-- `DeliveryStore::get`.
unfoldable pub get_delivery : ℕ → DeliveryStore → Option Delivery
get_delivery id s = delivery_at (get id s.index) s.inner

abbrev pub as_read : Delivery → Delivery
as_read d = record d { read = true }

-- The second part of `mark_read`, under the lock of the ring: the position was found before.
unfoldable pub mark_at : Option ℕ → DeliveryStore → DeliveryStore × Bool
mark_at none s = (s, false)
mark_at (some pos) s =
    if ltb pos (length s.inner)
    then (record s { inner = modify pos as_read s.inner; dirty = true }, true)
    else (s, false)

-- `DeliveryStore::mark_read` with no other call between its two locks.
unfoldable pub mark_read : ℕ → DeliveryStore → DeliveryStore × Bool
unfolding mark_at
mark_read id s = mark_at (get id s.index) s

-- `flush_if_dirty`: the ring that is written to the file, where the flag was set.
unfoldable pub flush_if_dirty : DeliveryStore → DeliveryStore × Option (List Delivery)
flush_if_dirty s = if s.dirty then (record s { dirty = false }, some s.inner) else (s, none)

abbrev page : ℕ → ℕ → List Delivery → List Delivery
page limit offset ds = take limit (drop offset (reverse ds))

unfoldable pub list_deliveries : ℕ → ℕ → DeliveryStore → List Delivery × ℕ
list_deliveries limit offset s = (page limit offset s.inner, length s.inner)

abbrev same_schedule : ℕ → Option ℕ → Bool
same_schedule id none = false
same_schedule id (some j) = eqb j id

unfoldable pub list_by_schedule : ℕ → ℕ → ℕ → DeliveryStore → List Delivery × ℕ
list_by_schedule schedule limit offset s =
    let matching = keep_if (λ d. same_schedule schedule d.schedule_id) s.inner in
    (page limit offset matching, length matching)

unfoldable pub unread_count : DeliveryStore → ℕ
unread_count s = count_if (λ d. not d.read) s.inner

unfoldable pub list_with_unread : ℕ → ℕ → DeliveryStore → List Delivery × ℕ × ℕ
unfolding unread_count
list_with_unread limit offset s = (page limit offset s.inner, length s.inner, unread_count s)
