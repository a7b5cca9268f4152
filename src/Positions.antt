-- ===== src/Positions.antt =====
-- Searching a sequence of records by a numeric key, and numbering its places: what the indexes
-- of the run store and of the delivery store are specified by.
use serial_agent.Prelude.{
  ℕ, zero, suc, ◌+◌, ◌-◌, ◌≤◌, ◌<◌, ◌≡◌, refl, true, Option, none, some, List, [], ◌∷◌, ◌++◌, arith,
  eqb, if◌then◌else◌, or, Bool-cases, ◌∙◌, ap, is_some, drop, length, get_elem?, modify, inl, inr,
}
use mathlib.Core.Option

module _ {ℓ} {A : Type ℓ} (key : A → ℕ) where
  -- The first item with the key.
  unfoldable pub find_by : ℕ → List A → Option A
  find_by k [] = none
  find_by k (x ∷ xs) = if eqb (key x) k then some x else find_by k xs

  -- The number of that item's place, where the first place has number `b`.
  unfoldable pub place_of : ℕ → ℕ → List A → Option ℕ
  place_of k b [] = none
  place_of k b (x ∷ xs) = if eqb (key x) k then some b else place_of k (b + 1) xs

  -- No key stands twice.
  abbrev pub HasDistinct : List A → Type ℓ
  HasDistinct [] = Unit
  HasDistinct (x ∷ xs) = (find_by (key x) xs ≡ none) × HasDistinct xs

  pub place_of-bounds :
      (k b n : ℕ) (xs : List A)
      → place_of k b xs ≡ some n
      → (b ≤ n) × (n < b + length xs) × (get_elem? xs (n - b) ≡ find_by k xs)
  unfolding place_of find_by
  place_of-bounds k b n [] h = cc
  place_of-bounds k b n (x ∷ xs) h = elim (Bool-cases (eqb (key x) k)) [
    | inl hit ↦
        let e : b ≡ n = ground arith in
        let z : n - b ≡ 0 = omega arith in (omega arith, omega arith, rw (z, hit))
    | inr miss ↦
        let below = place_of-bounds k (b + 1) n xs (ground arith) in
        let later : n - b ≡ suc (n - (b + 1)) = omega arith in
        (omega arith, omega arith, rw (later, miss) below.2)
  ]

  pub place_of-none : (k b : ℕ) (xs : List A) → place_of k b xs ≡ none → find_by k xs ≡ none
  unfolding place_of find_by
  place_of-none k b [] h = refl
  place_of-none k b (x ∷ xs) h = ground (arith, place_of-none k (b + 1) xs)

  pub find_by-none : (k b : ℕ) (xs : List A) → find_by k xs ≡ none → place_of k b xs ≡ none
  unfolding place_of find_by
  find_by-none k b [] h = refl
  find_by-none k b (x ∷ xs) h = ground (arith, find_by-none k (b + 1) xs)

  pub find_by-append :
      (k : ℕ) (x : A) (xs : List A)
      → find_by k (xs ++ x ∷ []) ≡ or (find_by k xs) (if eqb (key x) k then some x else none)
  unfolding find_by
  find_by-append k x [] = refl
  find_by-append k x (y ∷ xs) = ground (arith, find_by-append k x xs)

  pub place_of-append :
      (k b : ℕ) (x : A) (xs : List A)
      → place_of k b (xs ++ x ∷ [])
        ≡ or (place_of k b xs) (if eqb (key x) k then some (b + length xs) else none)
  unfolding place_of
  place_of-append k b x [] = ground arith
  place_of-append k b x (y ∷ xs) = ground (arith, place_of-append k (b + 1) x xs)

  pub HasDistinct-append :
      (x : A) (xs : List A)
      → find_by (key x) xs ≡ none
      → HasDistinct xs
      → HasDistinct (xs ++ x ∷ [])
  unfolding find_by
  HasDistinct-append x [] h d = (refl, tt)
  HasDistinct-append x (y ∷ xs) h d =
      (ground (arith, find_by-append (key y) x xs), HasDistinct-append x xs (ground arith) d.1)

  -- A change that keeps the key changes the item found and no other.
  pub find_by-modify :
      (f : A → A) (k j n b : ℕ) (xs : List A)
      → ((x : A) → key (f x) ≡ key x)
      → place_of k b xs ≡ some n
      → find_by j (modify (n - b) f xs)
        ≡ (if eqb k j then Option.map f (find_by j xs) else find_by j xs)
  unfolding find_by place_of
  find_by-modify f k j n b [] keep h = cc
  find_by-modify f k j n b (x ∷ xs) keep h = elim (Bool-cases (eqb (key x) k)) [
    | inl hit ↦
        let e : b ≡ n = ground arith in
        let z : n - b ≡ 0 = omega arith in rw z (ground (arith, keep x))
    | inr miss ↦
        let below = place_of-bounds k (b + 1) n xs (ground arith) in
        let later : n - b ≡ suc (n - (b + 1)) = omega arith in
        rw later (ground (arith, find_by-modify f k j n (b + 1) xs keep))
  ]

  pub place_of-modify :
      (f : A → A) (k b n : ℕ) (xs : List A)
      → ((x : A) → key (f x) ≡ key x)
      → place_of k b (modify n f xs) ≡ place_of k b xs
  unfolding place_of
  place_of-modify f k b n [] keep = refl
  place_of-modify f k b zero (x ∷ xs) keep = rw (keep x)
  place_of-modify f k b (suc n) (x ∷ xs) keep =
      ground (arith, place_of-modify f k (b + 1) n xs keep)

  pub HasDistinct-modify :
      (f : A → A) (n : ℕ) (xs : List A)
      → ((x : A) → key (f x) ≡ key x)
      → HasDistinct xs
      → HasDistinct (modify n f xs)
  unfolding find_by
  HasDistinct-modify f n [] keep d = tt
  HasDistinct-modify f zero (x ∷ xs) keep d = (rw (keep x) d.0, d.1)
  HasDistinct-modify f (suc n) (x ∷ xs) keep d = (absent, HasDistinct-modify f n xs keep d.1)
    where
      absent : find_by (key x) (modify n f xs) ≡ none
      absent =
          place_of-none (key x) 0 _
            (place_of-modify f (key x) 0 n xs keep ∙ find_by-none (key x) 0 xs d.0)

  -- Without the first item its key is gone, and the other keys keep their numbers.
  pub find_by-tail :
      (k : ℕ) (x : A) (xs : List A)
      → HasDistinct (x ∷ xs)
      → find_by k xs ≡ (if eqb (key x) k then none else find_by k (x ∷ xs))
  unfolding find_by
  find_by-tail k x xs d = elim (Bool-cases (eqb (key x) k)) [
    | inl hit ↦ let e : key x ≡ k = ground arith in rw (hit, ← e) d.0
    | inr miss ↦ rw miss
  ]

  pub place_of-tail :
      (k b : ℕ) (x : A) (xs : List A)
      → HasDistinct (x ∷ xs)
      → place_of k (b + 1) xs ≡ (if eqb (key x) k then none else place_of k b (x ∷ xs))
  unfolding place_of
  place_of-tail k b x xs d = elim (Bool-cases (eqb (key x) k)) [
    | inl hit ↦
        let e : key x ≡ k = ground arith in rw hit (find_by-none k (b + 1) xs (rw e at (d.0)))
    | inr miss ↦ rw miss
  ]

  pub find_by-is_some :
      (k b n : ℕ) (xs : List A) → place_of k b xs ≡ some n → is_some (find_by k xs) ≡ true
  unfolding place_of find_by
  find_by-is_some k b n [] h = cc
  find_by-is_some k b n (x ∷ xs) h = ground (arith, find_by-is_some k (b + 1) n xs)

  pub find_by-drop : (k n : ℕ) (xs : List A) → find_by k xs ≡ none → find_by k (drop n xs) ≡ none
  unfolding find_by
  find_by-drop k zero xs h = h
  find_by-drop k (suc n) [] h = refl
  find_by-drop k (suc n) (x ∷ xs) h = find_by-drop k n xs (ground arith)

  -- Changes every item with the key.
  unfoldable pub amend : ℕ → (A → A) → List A → List A
  amend k f [] = []
  amend k f (x ∷ xs) = (if eqb (key x) k then f x else x) ∷ amend k f xs

  pub amend-absent : (k : ℕ) (f : A → A) (xs : List A) → find_by k xs ≡ none → amend k f xs ≡ xs
  unfolding amend find_by
  amend-absent k f [] h = refl
  amend-absent k f (x ∷ xs) h = ground (arith, amend-absent k f xs)

  -- Where keys are distinct that is the change of one place.
  pub amend-modify :
      (k b n : ℕ) (f : A → A) (xs : List A)
      → HasDistinct xs
      → place_of k b xs ≡ some n
      → amend k f xs ≡ modify (n - b) f xs
  unfolding amend place_of
  amend-modify k b n f [] d h = cc
  amend-modify k b n f (x ∷ xs) d h = elim (Bool-cases (eqb (key x) k)) [
    | inl hit ↦
        let e : key x ≡ k = ground arith in
        let here : b ≡ n = ground arith in
        let z : n - b ≡ 0 = omega arith in
        let gone : find_by k xs ≡ none = rw e at (d.0) in
        rw (z, hit) (ap (◌∷◌ (f x)) (amend-absent k f xs gone))
    | inr miss ↦
        let below = place_of-bounds k (b + 1) n xs (ground arith) in
        let later : n - b ≡ suc (n - (b + 1)) = omega arith in
        rw (later, miss) (ap (◌∷◌ x) (amend-modify k (b + 1) n f xs d.1 (ground arith)))
  ]

  pub amend-drop :
      (k n : ℕ) (f : A → A) (xs : List A) → amend k f (drop n xs) ≡ drop n (amend k f xs)
  unfolding amend
  amend-drop k zero f xs = refl
  amend-drop k (suc n) f [] = refl
  amend-drop k (suc n) f (x ∷ xs) = amend-drop k n f xs

  pub length-amend : (k : ℕ) (f : A → A) (xs : List A) → length (amend k f xs) ≡ length xs
  unfolding amend
  length-amend k f [] = refl
  length-amend k f (x ∷ xs) = ap suc (length-amend k f xs)

  pub HasDistinct-drop : (n : ℕ) (xs : List A) → HasDistinct xs → HasDistinct (drop n xs)
  HasDistinct-drop zero xs d = d
  HasDistinct-drop (suc n) [] d = tt
  HasDistinct-drop (suc n) (x ∷ xs) d = HasDistinct-drop n xs d.1
