-- ===== src/Prelude/Maps.antt =====
-- Rust's `HashMap` as an association list. A missing key reads as `none`; a key is written in
-- place or added at the end, and removing a key removes all that is under it. The order stands
-- for the order of iteration, which Rust leaves open.

use Prim.Native.Nat.{suc, ◌≤◌}
use mathlib.Core.Path.{◌≡◌, refl}
use mathlib.Core.List.{List, [], ◌∷◌}
use mathlib.Core.Bool.{Bool}
use mathlib.Core.Option
use mathlib.Core.Option.{Option, none, some}
use mathlib.Core.Logic.{inl, inr}
use native.Mathlib.Omega.{arith}
use serial_agent.Prelude.Tests.{if◌then◌else◌, Bool-cases}
use serial_agent.Prelude.Keys.{Eq, ◌==◌}
use serial_agent.Prelude.Lists.{In, length}

abbrev pub keep_value {ℓ} : {A : Type ℓ} → (A → Bool) → Option A → Option A
keep_value p none = none
keep_value p (some a) = if p a then some a else none

abbrev pub Map {ℓ κ} : Type ℓ → Type κ → Type (ℓ ⊔ κ)
Map K V = List (K × V)

module _ {ℓ κ} {K : Type ℓ} {V : Type κ} ⦃e : Eq K⦄ where
  unfoldable pub get : K → Map K V → Option V
  get k [] = none
  get k ((j, v) ∷ m) = if j == k then some v else get k m

  unfoldable pub insert : K → V → Map K V → Map K V
  insert k v [] = (k, v) ∷ []
  insert k v ((j, w) ∷ m) = if j == k then (k, v) ∷ m else (j, w) ∷ insert k v m

  unfoldable pub remove : K → Map K V → Map K V
  remove k [] = []
  remove k ((j, v) ∷ m) = let rest = remove k m in if j == k then rest else (j, v) ∷ rest

  -- `get_mut(k)` and a write through the reference.
  unfoldable pub adjust : K → (V → V) → Map K V → Map K V
  adjust k f [] = []
  adjust k f ((j, v) ∷ m) = if j == k then (j, f v) ∷ m else (j, v) ∷ adjust k f m

  unfoldable pub retain : (K → V → Bool) → Map K V → Map K V
  retain p [] = []
  retain p ((j, v) ∷ m) = let rest = retain p m in if p j v then (j, v) ∷ rest else rest

  -- No key stands twice.
  abbrev pub HasDistinctKeys : Map K V → Type κ
  HasDistinctKeys [] = Unit
  HasDistinctKeys ((k, v) ∷ m) = (get k m ≡ none) × HasDistinctKeys m

  pub get-insert :
      (k j : K) (v : V) (m : Map K V) → get j (insert k v m) ≡ (if k == j then some v else get j m)
  unfolding get insert
  get-insert k j v [] = refl
  get-insert k j v ((i, w) ∷ m) =
      ground (arith, e.beq_iff k j, e.beq_iff i k, e.beq_iff i j, get-insert k j v m)

  pub get-remove : (k j : K) (m : Map K V) → get j (remove k m) ≡ (if k == j then none else get j m)
  unfolding get remove
  get-remove k j [] = ground arith
  get-remove k j ((i, w) ∷ m) =
      ground (arith, e.beq_iff k j, e.beq_iff i k, e.beq_iff i j, get-remove k j m)

  pub get-adjust :
      (k j : K) (f : V → V) (m : Map K V)
      → get j (adjust k f m) ≡ (if k == j then Option.map f (get j m) else get j m)
  unfolding get adjust
  get-adjust k j f [] = ground arith
  get-adjust k j f ((i, w) ∷ m) =
      ground (arith, e.beq_iff k j, e.beq_iff i k, e.beq_iff i j, get-adjust k j f m)

  pub get-retain :
      (k : K) (p : K → V → Bool) (m : Map K V)
      → HasDistinctKeys m
      → get k (retain p m) ≡ keep_value (p k) (get k m)
  unfolding get retain
  get-retain k p [] d = refl
  get-retain k p ((i, w) ∷ m) d = ground (arith, e.beq_iff i k, get-retain k p m d.1)

  pub insert-HasDistinctKeys :
      (k : K) (v : V) (m : Map K V) → HasDistinctKeys m → HasDistinctKeys (insert k v m)
  unfolding insert get
  insert-HasDistinctKeys k v [] d = (refl, tt)
  insert-HasDistinctKeys k v ((j, w) ∷ m) d =
      ground
        (arith, e.beq_iff j k, e.beq_iff k j, get-insert k j v m, insert-HasDistinctKeys k v m d.1)

  pub remove-HasDistinctKeys :
      (k : K) (m : Map K V) → HasDistinctKeys m → HasDistinctKeys (remove k m)
  unfolding remove
  remove-HasDistinctKeys k [] d = tt
  remove-HasDistinctKeys k ((j, w) ∷ m) d =
      ground (arith, e.beq_iff j k, e.beq_iff k j, get-remove k j m, remove-HasDistinctKeys k m d.1)

  pub In-get : (k : K) (v : V) (m : Map K V) → get k m ≡ some v → In (k, v) m
  unfolding get
  In-get k v [] h = cc
  In-get k v ((j, w) ∷ m) h = elim (Bool-cases (j == k)) [
    | inl hit ↦
        let same : j ≡ k = (e.beq_iff j k).0 hit in
        let here : w ≡ v = ground arith in inl (ground arith)
    | inr miss ↦ inr (In-get k v m (ground arith))
  ]

  pub get_of_In : (k : K) (v : V) (m : Map K V) → HasDistinctKeys m → In (k, v) m → get k m ≡ some v
  unfolding get
  get_of_In k v [] d h = elim h [ ]
  get_of_In k v ((j, w) ∷ m) d (inl h) = ground (arith, e.beq_iff j k)
  get_of_In k v ((j, w) ∷ m) d (inr h) = ground (arith, e.beq_iff j k, get_of_In k v m d.1 h)

  pub adjust-HasDistinctKeys :
      (k : K) (f : V → V) (m : Map K V) → HasDistinctKeys m → HasDistinctKeys (adjust k f m)
  unfolding adjust
  adjust-HasDistinctKeys k f [] d = tt
  adjust-HasDistinctKeys k f ((j, w) ∷ m) d =
      ground
        (arith, e.beq_iff j k, e.beq_iff k j, get-adjust k j f m, adjust-HasDistinctKeys k f m d.1)

  pub retain-HasDistinctKeys :
      (p : K → V → Bool) (m : Map K V) → HasDistinctKeys m → HasDistinctKeys (retain p m)
  unfolding retain
  retain-HasDistinctKeys p [] d = tt
  retain-HasDistinctKeys p ((j, w) ∷ m) d =
      ground (arith, get-retain j p m d.1, retain-HasDistinctKeys p m d.1)

  pub length-retain-le : (p : K → V → Bool) (m : Map K V) → length (retain p m) ≤ length m
  unfolding retain
  length-retain-le p [] = omega arith
  length-retain-le p ((j, w) ∷ m) = ground (arith, length-retain-le p m)

  -- What loses no entry is unchanged.
  pub retain_all :
      (p : K → V → Bool) (m : Map K V) → length m ≤ length (retain p m) → retain p m ≡ m
  unfolding retain
  retain_all p [] h = refl
  retain_all p ((j, w) ∷ m) h = ground (arith, length-retain-le p m, retain_all p m)

  pub length-insert_fresh :
      (k : K) (v : V) (m : Map K V) → get k m ≡ none → length (insert k v m) ≡ suc (length m)
  unfolding insert get
  length-insert_fresh k v [] h = refl
  length-insert_fresh k v ((j, w) ∷ m) h = ground (arith, length-insert_fresh k v m)

  pub length-remove-le : (k : K) (m : Map K V) → length (remove k m) ≤ length m
  unfolding remove
  length-remove-le k [] = omega arith
  length-remove-le k ((j, w) ∷ m) = ground (arith, length-remove-le k m)

  -- To take back what was just added is to have done nothing.
  pub remove-insert_fresh :
      (k : K) (v : V) (m : Map K V) → get k m ≡ none → remove k (insert k v m) ≡ m
  unfolding remove insert get
  remove-insert_fresh k v [] h = ground (arith, e.beq_iff k k)
  remove-insert_fresh k v ((j, w) ∷ m) h = ground (arith, e.beq_iff j k, remove-insert_fresh k v m)
