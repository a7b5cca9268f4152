-- ===== src/Deliveries/Moved.antt =====
-- `mark_read` of crates/gateway/src/runtime/deliveries.rs: it finds a position under the lock of the
-- index, lets go of it, and writes under the lock of the ring.
use mathlib.Core.Option
use serial_agent.Prelude.{
  ℕ, suc, ◌-◌, ◌≡◌, refl, sym, ap, ◌∙◌, arith, Bool, true, false, none, some, List, [], ◌∷◌, ◌++◌,
  ltb, eqb, if◌then◌else◌, is_some, length, length-append, drop, modify, get, nat_eq, Option-cases,
  inl, inr, eqb_iff, subst,
}
use serial_agent.Positions.{
  place_of, place_of-bounds, place_of-none, find_by-modify, find_by-is_some, place_of-modify,
  HasDistinct-modify,
}
use serial_agent.Deliveries.{
  Delivery, DeliveryStore, insert_delivery, get_delivery, as_read, mark_at, mark_read,
}
use serial_agent.Deliveries.Ring.{
  IsIndexed, find_delivery, position_of, get_delivery_lem, inner-insert_delivery,
}

marked-IsIndexed :
    (n : ℕ) (s : DeliveryStore)
    → IsIndexed s
    → IsIndexed (record s { inner = modify n as_read s.inner; dirty = true })
marked-IsIndexed n s v = record {
  distinct = HasDistinct-modify (λ (d : Delivery). d.id) as_read n s.inner (λ d. refl) v.distinct;
  exact = λ id.
      v.exact id
      ∙ sym (place_of-modify (λ (d : Delivery). d.id) as_read id 0 n s.inner (λ d. refl));
}

-- What a mark does where the position was found, and where it was not.
abbrev Marks : ℕ → ℕ → DeliveryStore → DeliveryStore × Bool → Type 0
Marks id j s (t, found) =
    IsIndexed t
    × (found ≡ is_some (get_delivery id s))
    × (get_delivery j t
        ≡ (if eqb id j then Option.map as_read (get_delivery j s) else get_delivery j s))

unmarked :
    (id j : ℕ) (s : DeliveryStore)
    → IsIndexed s
    → position_of id 0 s.inner ≡ none
    → Marks id j s (s, false)
unmarked id j s v e =
    let gone : get_delivery id s ≡ none =
      get_delivery_lem id s v ∙ place_of-none (λ (d : Delivery). d.id) id 0 s.inner e in
    (v, sym (ap is_some gone), ground (arith, gone))

marked :
    (id j n : ℕ) (s : DeliveryStore)
    → IsIndexed s
    → position_of id 0 s.inner ≡ some n
    → Marks id j s (record s { inner = modify n as_read s.inner; dirty = true }, true)
marked id j n s v e =
    let key : Delivery → ℕ = λ d. d.id in
    let good = marked-IsIndexed n s v in
    let place : n - 0 ≡ n = omega arith in
    let moved = find_by-modify key as_read id j n 0 s.inner (λ d. refl) e in
    (
      good,
      sym (ap is_some (get_delivery_lem id s v) ∙ find_by-is_some key id 0 n s.inner e),
      get_delivery_lem j _ good
          ∙ ap (λ k. find_delivery j (modify k as_read s.inner)) (sym place)
          ∙ moved
          ∙ rw (get_delivery_lem j s v) refl,
    )

-- With no other call in between, a mark answers whether the delivery is there, marks that delivery
-- and no other, and keeps the store indexed.
pub mark_read_lem :
    (id j : ℕ) (s : DeliveryStore)
    → IsIndexed s
    → let (t, found) = mark_read id s in
      IsIndexed t
      × (found ≡ is_some (get_delivery id s))
      × (get_delivery j t
          ≡ (if eqb id j then Option.map as_read (get_delivery j s) else get_delivery j s))
unfolding mark_read mark_at
mark_read_lem id j s v = elim (Option-cases (position_of id 0 s.inner)) [
  | inl e ↦
      subst (λ r. Marks id j s r) (sym (ap (λ o. mark_at o s) (v.exact id ∙ e)))
        (unmarked id j s v e)
  | inr (n, e) ↦
      let inside = (place_of-bounds (λ (d : Delivery). d.id) id 0 n s.inner e).1 in
      let within : ltb n (length s.inner) ≡ true = ground arith in
      subst (λ r. Marks id j s r) (sym (ap (λ o. mark_at o s) (v.exact id ∙ e) ∙ rw within refl))
        (marked id j n s v e)
]

-- On a full ring, an insertion between the two locks moves the deliveries: a mark of the oldest one
-- is answered with success, and marks the next one instead.
pub mark_moves :
    (x y d : Delivery) (ds : List Delivery) (s : DeliveryStore)
    → IsIndexed s
    → s.inner ≡ x ∷ y ∷ ds
    → let t = insert_delivery (length s.inner) d s in
      ((mark_at (get x.id s.index) t).1 ≡ true)
      × ((mark_at (get x.id s.index) t).0.inner ≡ as_read y ∷ (ds ++ d ∷ []))
unfolding mark_at
mark_moves x y d ds s v e =
    let first : get x.id s.index ≡ some 0 =
      v.exact x.id
      ∙ ap (position_of x.id 0) e
      ∙ (unfold place_of in rw ((eqb_iff x.id x.id).1 refl) refl) in
    let one_over : length (s.inner ++ d ∷ []) - length s.inner ≡ 1 =
      omega (arith, length-append s.inner (d ∷ [])) in
    let ring : (insert_delivery (length s.inner) d s).inner ≡ y ∷ (ds ++ d ∷ []) =
      inner-insert_delivery (length s.inner) d s
      ∙ ap (λ n. drop n (s.inner ++ d ∷ [])) one_over
      ∙ ap (λ l. drop 1 (l ++ d ∷ [])) e in
    let room : ltb 0 (suc (length (ds ++ d ∷ []))) ≡ true = ground arith in
    rw (first, ring) (rw room (refl, refl))
