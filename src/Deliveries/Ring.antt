-- ===== src/Deliveries/Ring.antt =====
-- crates/gateway/src/runtime/deliveries.rs: `insert` and `get` next to a search of the ring.
use serial_agent.Prelude.{
  ℕ, zero, suc, ◌+◌, ◌-◌, ◌≡◌, refl, sym, ap, subst, ◌∙◌, arith, Option, none, List, [], ◌∷◌, ◌++◌,
  ltb, or, or-none, length, get_elem?, keep_last, Map, get, insert, nat_eq, get-insert,
  Option-cases, Bool-cases, inl, inr,
}
use serial_agent.Positions.{
  find_by, place_of, HasDistinct, place_of-bounds, place_of-none, find_by-none, place_of-append,
  HasDistinct-append, HasDistinct-drop,
}
use serial_agent.Deliveries.{
  Delivery, DeliveryStore, number_from, trim, insert_delivery, get_delivery,
}

abbrev pub find_delivery : ℕ → List Delivery → Option Delivery
find_delivery = find_by (λ d. d.id)

abbrev pub position_of : ℕ → ℕ → List Delivery → Option ℕ
position_of = place_of (λ d. d.id)

-- Ids are distinct, and the index holds the position of each delivery and nothing else.
pub record IsIndexed (s : DeliveryStore) : Type 0 where
  pub distinct : HasDistinct (λ (d : Delivery). d.id) s.inner
  pub exact : (id : ℕ) → get id s.index ≡ position_of id 0 s.inner

number_from-exact :
    (b : ℕ) (ds : List Delivery) (m : Map ℕ ℕ) (id : ℕ)
    → HasDistinct (λ (d : Delivery). d.id) ds
    → get id (number_from b ds m) ≡ or (position_of id b ds) (get id m)
unfolding number_from place_of
number_from-exact b [] m id d = refl
number_from-exact b (x ∷ ds) m id d = ground (
  arith,
  number_from-exact (b + 1) ds (insert x.id b m) id d.1,
  get-insert x.id id b m,
  find_by-none (λ (y : Delivery). y.id) x.id (b + 1) ds d.0,
)

-- Popping from the front while the ring is over full leaves its last deliveries.
pub trim_lem : (capacity : ℕ) (ds : List Delivery) → trim capacity ds ≡ keep_last capacity ds
unfolding trim
trim_lem capacity [] = let nothing : zero - capacity ≡ 0 = omega arith in rw nothing refl
trim_lem capacity (d ∷ ds) = elim (Bool-cases (ltb capacity (suc (length ds)))) [
  | inl over ↦
      let more : suc (length ds) - capacity ≡ suc (length ds - capacity) = ground arith in
      rw (over, more) (trim_lem capacity ds)
  | inr fits ↦
      let nothing : suc (length ds) - capacity ≡ 0 = ground arith in rw (fits, nothing) refl
]

pub get_delivery_lem :
    (id : ℕ) (s : DeliveryStore) → IsIndexed s → get_delivery id s ≡ find_delivery id s.inner
unfolding get_delivery
get_delivery_lem id s v = elim (Option-cases (position_of id 0 s.inner)) [
  | inl e ↦ rw (v.exact id, e) (sym (place_of-none (λ (d : Delivery). d.id) id 0 s.inner e))
  | inr (n, e) ↦
      let found = (place_of-bounds (λ (d : Delivery). d.id) id 0 n s.inner e).2 in
      let place : n - 0 ≡ n = omega arith in
      rw (v.exact id, e) (ap (get_elem? s.inner) (sym place) ∙ found)
]

pub inner-insert_delivery :
    (capacity : ℕ) (d : Delivery) (s : DeliveryStore)
    → (insert_delivery capacity d s).inner ≡ keep_last capacity (s.inner ++ d ∷ [])
unfolding insert_delivery
inner-insert_delivery capacity d s = elim (Bool-cases (ltb capacity (length (s.inner ++ d ∷ [])))) [
  | inl over ↦ rw over (trim_lem capacity (s.inner ++ d ∷ []))
  | inr fits ↦
      let nothing : length (s.inner ++ d ∷ []) - capacity ≡ 0 = ground arith in
      rw (fits, nothing) refl
]

insert_delivery-IsIndexed :
    (capacity : ℕ) (d : Delivery) (s : DeliveryStore)
    → find_delivery d.id s.inner ≡ none
    → IsIndexed s
    → IsIndexed (insert_delivery capacity d s)
unfolding insert_delivery
insert_delivery-IsIndexed capacity d s fresh v =
    let key : Delivery → ℕ = λ x. x.id in
    let pushed = s.inner ++ d ∷ [] in
    let apart : HasDistinct key pushed = HasDistinct-append key d s.inner fresh v.distinct in
    elim (Bool-cases (ltb capacity (length pushed))) [
      | inl over ↦
          let kept : HasDistinct key (trim capacity pushed) =
            subst (HasDistinct key) (sym (trim_lem capacity pushed))
              (HasDistinct-drop key (length pushed - capacity) pushed apart) in
          rw over (renumbered s (trim capacity pushed) kept)
      | inr fits ↦ rw fits (record {
        distinct = apart;
        exact = λ id. ground (
          arith,
          get-insert d.id id (length s.inner) s.index,
          v.exact id,
          place_of-append key id 0 d s.inner,
          find_by-none key d.id 0 s.inner fresh,
        );
      })
    ]
  where
    renumbered :
        (s : DeliveryStore) (ds : List Delivery)
        → HasDistinct (λ (x : Delivery). x.id) ds
        → IsIndexed (record s { inner = ds; index = number_from 0 ds [] })
    renumbered s ds kept = record {
      distinct = kept;
      exact = λ id. number_from-exact 0 ds [] id kept ∙ unfold get in or-none (position_of id 0 ds);
    }

-- Inserting a delivery with a new id keeps the store indexed, with the last `capacity` deliveries
-- in its ring, and so a read finds a delivery exactly when it is among these.
pub insert_delivery_lem :
    (capacity id : ℕ) (d : Delivery) (s : DeliveryStore)
    → find_delivery d.id s.inner ≡ none
    → IsIndexed s
    → let t = insert_delivery capacity d s in
      IsIndexed t
      × (t.inner ≡ keep_last capacity (s.inner ++ d ∷ []))
      × (get_delivery id t ≡ find_delivery id (keep_last capacity (s.inner ++ d ∷ [])))
insert_delivery_lem capacity id d s fresh v =
    let kept = inner-insert_delivery capacity d s in
    let good = insert_delivery-IsIndexed capacity d s fresh v in
    (
      good,
      kept,
      get_delivery_lem id (insert_delivery capacity d s) good ∙ ap (find_delivery id) kept,
    )
