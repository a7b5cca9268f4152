-- ===== src/Strings/Pieces.antt =====
-- Splitting a text that was joined from pieces without the separator.
use serial_agent.Prelude.{
  ℕ, ◌≡◌, refl, Bool, true, false, none, some, [], ◌∷◌, ◌++◌, arith, Bytes, eqb, ltb, not, ◌&&◌,
  All, Bool-cases, inl, inr, List,
}
use serial_agent.Strings.{
  split_on, split_once, split_spaces, split_whitespace, space_length, is_space, has_bytes,
}

-- No byte of the text is the separator.
abbrev pub Lacks : ℕ → Bytes → Type 0
Lacks c = All (λ b. eqb b c ≡ false)

pub Lacks-append : (c : ℕ) (s t : Bytes) → Lacks c s → Lacks c t → Lacks c (s ++ t)
Lacks-append c [] t h k = k
Lacks-append c (b ∷ s) t h k = (h.0, Lacks-append c s t h.1 k)

-- The pieces of a text are never none.
pub some_piece : (c : ℕ) (s : Bytes) → (p : Bytes) × ((ps : List Bytes) × (split_on c s ≡ p ∷ ps))
unfolding split_on
some_piece c [] = ([], ([], refl))
some_piece c (b ∷ s) =
    let (p, (ps, e)) = some_piece c s in
    elim (Bool-cases (eqb b c)) [
      | inl cut ↦ ([], (split_on c s, rw cut refl))
      | inr joined ↦ (b ∷ p, (ps, rw (joined, e) refl))
    ]

pub split_on-alone : (c : ℕ) (s : Bytes) → Lacks c s → split_on c s ≡ s ∷ []
unfolding split_on
split_on-alone c [] h = refl
split_on-alone c (b ∷ s) h = rw (h.0, split_on-alone c s h.1) refl

pub split_on-append :
    (c : ℕ) (s t : Bytes) → Lacks c s → split_on c (s ++ (c ∷ t)) ≡ s ∷ split_on c t
unfolding split_on
split_on-append c [] t h = let same : eqb c c ≡ true = ground arith in rw same refl
split_on-append c (b ∷ s) t h = rw (h.0, split_on-append c s t h.1) refl

pub split_once-alone : (c : ℕ) (s : Bytes) → Lacks c s → split_once c s ≡ none
unfolding split_once
split_once-alone c [] h = refl
split_once-alone c (b ∷ s) h = rw (h.0, split_once-alone c s h.1) refl

pub split_once-append :
    (c : ℕ) (s t : Bytes) → Lacks c s → split_once c (s ++ (c ∷ t)) ≡ some (s, t)
unfolding split_once
split_once-append c [] t h = let same : eqb c c ≡ true = ground arith in rw same refl
split_once-append c (b ∷ s) t h = rw (h.0, split_once-append c s t h.1) refl

-- ASCII text without white space.
abbrev plain : ℕ → Bool
plain b = ltb b 128 && not (is_space b)

abbrev pub IsWord : Bytes → Type 0
IsWord = All (λ b. plain b ≡ true)

pub IsWord-append : (s t : Bytes) → IsWord s → IsWord t → IsWord (s ++ t)
IsWord-append [] t h k = k
IsWord-append (b ∷ s) t h k = (h.0, IsWord-append s t h.1 k)

space_length-plain : (b : ℕ) (s : Bytes) → plain b ≡ true → space_length (b ∷ s) ≡ 0
unfolding space_length
space_length-plain b s h = ground arith

split_spaces-alone : (s : Bytes) → IsWord s → split_spaces 0 s ≡ s ∷ []
unfolding split_spaces
split_spaces-alone [] h = refl
split_spaces-alone (b ∷ s) h = rw (space_length-plain b s h.0, split_spaces-alone s h.1) refl

split_spaces-append :
    (s t : Bytes) → IsWord s → split_spaces 0 (s ++ (32 ∷ t)) ≡ s ∷ split_spaces 0 t
unfolding split_spaces space_length
split_spaces-append [] t h = refl
split_spaces-append (b ∷ s) t h =
    rw (space_length-plain b (s ++ (32 ∷ t)) h.0, split_spaces-append s t h.1) refl

pub split_whitespace-alone :
    (s : Bytes) → IsWord s → has_bytes s ≡ true → split_whitespace s ≡ s ∷ []
unfolding split_whitespace
split_whitespace-alone s h some_byte = rw (split_spaces-alone s h, some_byte) refl

pub split_whitespace-append :
    (s t : Bytes)
    → IsWord s
    → has_bytes s ≡ true
    → split_whitespace (s ++ (32 ∷ t)) ≡ s ∷ split_whitespace t
unfolding split_whitespace
split_whitespace-append s t h some_byte = rw (split_spaces-append s t h, some_byte) refl
