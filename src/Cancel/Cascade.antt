-- ===== src/Cancel/Cascade.antt =====
-- crates/gateway/src/runtime/cancel.rs: `register`, `add_to_group` and the cascade of `cancel`.
use serial_agent.Prelude.{
  ℕ, ◌<◌, ◌≡◌, refl, ap, ◌∙◌, Bool, true, false, not, ◌&&◌, ◌||◌, Option, none, some, List, [], ◌∷◌,
  arith, eqb, Bytes, bytes_beq, bytes_beq_iff, bytes_eq, any, get, insert, unwrap_or, get-insert,
  Option-cases, Bool-cases, inl, inr, ◌⊎◌,
}
use serial_agent.Cancel.{
  CancelMap, cancel_token, cancel_keys, register_token, cancel, is_running, add_to_group,
  is_cancelled, add_key,
}

abbrev pub holds : Option ℕ → ℕ → Bool
holds none t = false
holds (some u) t = eqb u t

-- The children of a session.
abbrev pub children : Bytes → CancelMap → List Bytes
children key m = unwrap_or (get key m.groups) []

-- Whether one of the sessions holds the token.
abbrev pub any_holds : List Bytes → CancelMap → ℕ → Bool
any_holds keys m t = any (λ key. holds (get key m.tokens) t) keys

flags-cancel_keys :
    (keys : List Bytes) (m : CancelMap) (t : ℕ)
    → is_cancelled (cancel_keys keys m) t ≡ (any_holds keys m t || is_cancelled m t)
flags-cancel_keys [] m t = refl
flags-cancel_keys (key ∷ keys) m t = elim (Option-cases (get key m.tokens)) [
  | inl e ↦ rw e (flags-cancel_keys keys m t)
  | inr (u, e) ↦ rw e (flags-cancel_keys keys (cancel_token (some u) m) t ∙ ground arith)
]

-- After a cancellation exactly these tokens are set: those that were, that of the session, and
-- those of its children. The answer tells whether the session had a token.
pub cancel_lem :
    (key : Bytes) (m : CancelMap) (t : ℕ)
    → (is_cancelled (cancel key m).0 t ≡ (any_holds (key ∷ children key m) m t || is_cancelled m t))
      × ((cancel key m).1 ≡ is_running key m)
unfolding cancel is_running
cancel_lem key m t = elim (Option-cases (get key m.tokens)) [
  | inl e ↦ rw (e, cancel) (flags-cancel_keys (children key m) m t, refl)
  | inr (u, e) ↦
      rw (e, cancel)
        (flags-cancel_keys (children key m) (cancel_token (some u) m) t ∙ ground arith, refl)
]

-- Tokens are numbered below the next one.
abbrev pub AreOld : CancelMap → Type 0
AreOld m = (key : Bytes) (t : ℕ) → get key m.tokens ≡ some t → t < m.next

-- A new token is not set, is held by its session and by no other, and leaves the other tokens and
-- their holders as they were.
pub register_token_lem :
    (key : Bytes) (m : CancelMap)
    → AreOld m
    → let (n, t) = register_token key m in
      AreOld n
      × (is_cancelled n t ≡ false)
      × ((j : Bytes) → holds (get j n.tokens) t ≡ bytes_beq key j)
      × ((u : ℕ) → is_cancelled n u ≡ (not (eqb u t) && is_cancelled m u))
unfolding register_token
register_token_lem key m old = (
  λ j t h. ground (arith, get-insert key j m.next m.tokens, old j t),
  ground arith,
  λ j. alone j (Option-cases (get j m.tokens)),
  λ u. ground arith,
)
  where
    alone :
        (j : Bytes)
        → ((get j m.tokens ≡ none) ⊎ ((t : ℕ) × (get j m.tokens ≡ some t)))
        → holds (get j (insert key m.next m.tokens)) m.next ≡ bytes_beq key j
    alone j (inl e) = ground (arith, get-insert key j m.next m.tokens)
    alone j (inr (t, e)) = ground (arith, get-insert key j m.next m.tokens, old j t e)

any-add_key :
    (key : Bytes) (keys : List Bytes) (p : Bytes → Bool)
    → any p (add_key key keys) ≡ (p key || any p keys)
any-add_key key keys p = elim (Bool-cases (any (λ k. bytes_beq k key) keys)) [
  | inl there ↦ rw there (inside keys there)
  | inr new ↦ rw new
]
  where
    inside :
        (ks : List Bytes) → any (λ k. bytes_beq k key) ks ≡ true → any p ks ≡ (p key || any p ks)
    inside [] h = cc
    inside (k ∷ ks) h = elim (Bool-cases (bytes_beq k key)) [
      | inl same ↦ rw ((bytes_beq_iff k key).0 same) (ground arith)
      | inr other ↦ ground (arith, inside ks)
    ]

-- Once a child is in the group of its parent, a stop of the parent sets the child's token as well,
-- whoever else is in the group.
pub cancel-add_to_group :
    (parent child : Bytes) (m : CancelMap) (t : ℕ)
    → get child m.tokens ≡ some t
    → is_cancelled (cancel parent (add_to_group parent child m)).0 t ≡ true
unfolding add_to_group
cancel-add_to_group parent child m t h =
    (cancel_lem parent (add_to_group parent child m) t).0
    ∙ ap (λ b. (holds (get parent m.tokens) t || b) || is_cancelled m t) reached
    ∙ ground arith
  where
    holder : Bytes → Bool
    holder key = holds (get key m.tokens) t

    keys : List Bytes
    keys = unwrap_or (get parent m.groups) []

    reached :
        any holder (unwrap_or (get parent (insert parent (add_key child keys) m.groups)) []) ≡ true
    reached = ground (
      arith,
      get-insert parent parent (add_key child keys) m.groups,
      bytes_beq_iff parent parent,
      any-add_key child keys holder,
    )

any-congr :
    (p q : Bytes → Bool) (keys : List Bytes)
    → ((key : Bytes) → p key ≡ q key)
    → any p keys ≡ any q keys
any-congr p q [] same = refl
any-congr p q (key ∷ keys) same = rw (same key, any-congr p q keys same) refl

-- A stop by the key of a task does not reach the token that its turn registered: the turn's token
-- stands under the session's key, and stays unset where that key is neither the task's nor that of
-- a child in the task's group.
pub cancel_misses :
    (task_key session_key : Bytes) (m : CancelMap)
    → AreOld m
    → any (bytes_beq session_key) (task_key ∷ children task_key m) ≡ false
    → let (n, t) = register_token session_key m in is_cancelled (cancel task_key n).0 t ≡ false
unfolding register_token
cancel_misses task_key session_key m old apart =
    let (n, t) = register_token session_key m in
    let (_, fresh, own, others) = register_token_lem session_key m old in
    (cancel_lem task_key n t).0
    ∙ rw
        (
          fresh,
          any-congr (λ key. holds (get key n.tokens) t) (bytes_beq session_key)
              (task_key ∷ children task_key m) own,
          apart,
        )
        refl
