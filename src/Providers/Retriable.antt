-- ===== src/Providers/Retriable.antt =====
-- The errors that send a request on to the next model, by what they are
-- (crates/providers/src/router.rs, `is_retriable`).
use serial_agent.Prelude.{
  ◌≡◌, ◌↔◌, inl, inr, refl, sym, ap, ◌∙◌, true, [], ◌∷◌, ◌++◌, Bytes, bytes, bytes_eq, eqb_iff,
  arith, Bool-cases, Never,
}
use mathlib.Core.List.{append_assoc}
use serial_agent.Strings.{strip_prefix}
use serial_agent.Providers.{
  Error, io, json, http, timeout, provider, serial_memory, skill_not_found, config, auth, other,
  is_there, contains, is_retriable,
}

-- `needle` stands somewhere in `s`.
abbrev pub Contains : Bytes → Bytes → Type 0
Contains needle s = (before : Bytes) × (after : Bytes) × (s ≡ before ++ (needle ++ after))

-- A time-out, an error of HTTP, and a message of a provider that tells of a status from 500 on.
abbrev pub IsRetriable : Error → Type 0
IsRetriable (timeout message) = Unit
IsRetriable (http message) = Unit
IsRetriable (provider name message) = Contains (bytes "HTTP 5") message
IsRetriable (io message) = Never
IsRetriable (json message) = Never
IsRetriable (serial_memory message) = Never
IsRetriable (skill_not_found message) = Never
IsRetriable (config message) = Never
IsRetriable (auth message) = Never
IsRetriable (other message) = Never

starts :
    (needle s : Bytes)
    → is_there (strip_prefix needle s) ≡ true
    → (after : Bytes) × (s ≡ needle ++ after)
unfolding strip_prefix
starts [] s h = (s, refl)
starts (p ∷ needle) [] h = absurd (ground (arith, h))
starts (p ∷ needle) (b ∷ s) h =
    let same : p ≡ b = ground (arith, h, eqb_iff p b) in
    let (after, e) = starts needle s (ground (arith, h)) in
    (after, ap (λ t. b ∷ t) e ∙ ap (λ c. c ∷ (needle ++ after)) (sym same))

strip_prefix-there :
    (needle after : Bytes) → is_there (strip_prefix needle (needle ++ after)) ≡ true
unfolding strip_prefix
strip_prefix-there [] after = refl
strip_prefix-there (p ∷ needle) after = ground (arith, strip_prefix-there needle after)

contains-Contains : (needle s : Bytes) → contains needle s ≡ true → Contains needle s
unfolding contains
contains-Contains needle [] h = let (after, e) = starts needle [] h in ([], after, e)
contains-Contains needle (b ∷ s) h = elim (Bool-cases (is_there (strip_prefix needle (b ∷ s)))) [
  | inl here ↦ let (after, e) = starts needle (b ∷ s) here in ([], after, e)
  | inr not_here ↦
      let (before, after, e) = contains-Contains needle s (rw not_here at h) in
      (b ∷ before, after, ap (λ t. b ∷ t) e)
]

contains-here :
    (needle s : Bytes) → is_there (strip_prefix needle s) ≡ true → contains needle s ≡ true
unfolding contains
contains-here needle [] h = h
contains-here needle (b ∷ s) h = rw h refl

contains-append :
    (needle before after : Bytes) → contains needle (before ++ (needle ++ after)) ≡ true
unfolding contains
contains-append needle [] after =
    contains-here needle (needle ++ after) (strip_prefix-there needle after)
contains-append needle (b ∷ before) after = ground (arith, contains-append needle before after)

-- A message with a longer status has the beginning of it.
shorter :
    (needle more message : Bytes)
    → contains (needle ++ more) message ≡ true
    → Contains needle message
shorter needle more message h =
    let (before, after, e) = contains-Contains (needle ++ more) message h in
    (before, more ++ after, e ∙ ap (λ t. before ++ t) (append_assoc needle more after))

is_retriable-IsRetriable : (e : Error) → is_retriable e ≡ true → IsRetriable e
unfolding is_retriable
is_retriable-IsRetriable (timeout message) h = tt
is_retriable-IsRetriable (http message) h = tt
is_retriable-IsRetriable (provider name message) h =
    elim (Bool-cases (contains (bytes "HTTP 5") message)) [
      | inl c ↦ contains-Contains (bytes "HTTP 5") message c
      | inr c ↦ elim (Bool-cases (contains (bytes "HTTP 502") message)) [
        | inl d ↦ shorter (bytes "HTTP 5") (bytes "02") message d
        | inr d ↦ elim (Bool-cases (contains (bytes "HTTP 503") message)) [
          | inl e ↦ shorter (bytes "HTTP 5") (bytes "03") message e
          | inr e ↦ elim (Bool-cases (contains (bytes "HTTP 504") message)) [
            | inl f ↦ shorter (bytes "HTTP 5") (bytes "04") message f
            | inr f ↦ elim (Bool-cases (contains (bytes "HTTP 500") message)) [
              | inl g ↦ shorter (bytes "HTTP 5") (bytes "00") message g
              | inr g ↦ shorter (bytes "HTTP 5") (bytes "29") message (rw (c, d, e, f, g) at h)
            ]
          ]
        ]
      ]
    ]
is_retriable-IsRetriable (io message) h = absurd (ground (arith, h))
is_retriable-IsRetriable (json message) h = absurd (ground (arith, h))
is_retriable-IsRetriable (serial_memory message) h = absurd (ground (arith, h))
is_retriable-IsRetriable (skill_not_found message) h = absurd (ground (arith, h))
is_retriable-IsRetriable (config message) h = absurd (ground (arith, h))
is_retriable-IsRetriable (auth message) h = absurd (ground (arith, h))
is_retriable-IsRetriable (other message) h = absurd (ground (arith, h))

IsRetriable-is_retriable : (e : Error) → IsRetriable e → is_retriable e ≡ true
unfolding is_retriable
IsRetriable-is_retriable (timeout message) h = refl
IsRetriable-is_retriable (http message) h = refl
IsRetriable-is_retriable (provider name message) (before, after, e) =
    let found : contains (bytes "HTTP 5") message ≡ true =
      ap (contains (bytes "HTTP 5")) e ∙ contains-append (bytes "HTTP 5") before after in
    rw found refl
IsRetriable-is_retriable (io message) h = elim h [ ]
IsRetriable-is_retriable (json message) h = elim h [ ]
IsRetriable-is_retriable (serial_memory message) h = elim h [ ]
IsRetriable-is_retriable (skill_not_found message) h = elim h [ ]
IsRetriable-is_retriable (config message) h = elim h [ ]
IsRetriable-is_retriable (auth message) h = elim h [ ]
IsRetriable-is_retriable (other message) h = elim h [ ]

pub is_retriable_iff : (e : Error) → (is_retriable e ≡ true) ↔ IsRetriable e
is_retriable_iff e = (is_retriable-IsRetriable e, IsRetriable-is_retriable e)
