-- ===== src/Search/Counts.antt =====
-- What a query finds, by the words of the contents (crates/sessions/src/search.rs).
use serial_agent.Prelude.{
  ℕ, ◌+◌, ◌≡◌, inl, inr, refl, sym, ap, ◌∙◌, true, false, ◌&&◌, Option, none, some, List, [], ◌∷◌,
  if◌then◌else◌, arith, Bytes, bytes_eq, ◌==◌, eqb, Map, get, get-insert, bytes_beq_iff, Bool-cases,
  unwrap_or,
}
use serial_agent.Search.{
  TranscriptIndex, add_word, add_words, intersect, with_count, if_found, bump,
}

-- How often a session has a word.
abbrev pub lookup : Bytes → Bytes → TranscriptIndex → Option ℕ
lookup sid word ix = if_found (get word ix.index) (get sid)

abbrev pub present : ℕ → Option ℕ
present n = if eqb n 0 then none else some n

abbrev pub times : Bytes → List Bytes → ℕ
times word [] = 0
times word (w ∷ words) = let rest = times word words in if w == word then 1 + rest else rest

get-unwrap_or :
    (sid : Bytes) (o : Option (Map Bytes ℕ)) → get sid (unwrap_or o []) ≡ if_found o (get sid)
unfolding get
get-unwrap_or sid none = refl
get-unwrap_or sid (some m) = refl

lookup-add_word :
    (session_id content w sid word : Bytes) (ix : TranscriptIndex)
    → lookup sid word (add_word session_id content w ix) ≡ (
        if (w == word) && (session_id == sid)
        then some (unwrap_or (lookup session_id w ix) 0 + 1)
        else lookup sid word ix)
unfolding add_word
lookup-add_word session_id content w sid word ix =
    let sessions = unwrap_or (get w ix.index) [] in
    let found = get-insert w word (bump session_id sessions) ix.index in
    let inner = get-insert session_id sid (unwrap_or (get session_id sessions) 0 + 1) sessions in
    ap (λ o. if_found o (get sid)) found ∙ elim (Bool-cases (w == word)) [
      | inl same ↦
          let name : w ≡ word = (bytes_beq_iff w word).0 same in
          rw same (
            inner ∙ elim (Bool-cases (session_id == sid)) [
              | inl here ↦
                  rw here
                    (ap (λ o. some (unwrap_or o 0 + 1)) (get-unwrap_or session_id (get w ix.index)))
              | inr there ↦
                  rw there (get-unwrap_or sid (get w ix.index) ∙ ap (λ k. lookup sid k ix) name)
            ])
      | inr other ↦ rw other refl
    ]

pub if_found-none {ℓ} : {A B : Type ℓ} (o : Option A) → if_found {B = B} o (λ a. none) ≡ none
if_found-none none = refl
if_found-none (some a) = refl

with_count-same :
    (sid j : Bytes) (c : ℕ) (o : Option ℕ) (rest : Map Bytes ℕ)
    → (j == sid) ≡ true
    → (o ≡ none → get sid rest ≡ none)
    → get sid (with_count j c o rest) ≡ if_found o (λ wc. some (c + wc))
unfolding get
with_count-same sid j c none rest same h = h refl
with_count-same sid j c (some wc) rest same h = rw same refl

with_count-other :
    (sid j : Bytes) (c : ℕ) (o : Option ℕ) (rest : Map Bytes ℕ)
    → (j == sid) ≡ false
    → get sid (with_count j c o rest) ≡ get sid rest
unfolding get
with_count-other sid j c none rest other = refl
with_count-other sid j c (some wc) rest other = rw other refl

pub get-intersect :
    (sid : Bytes) (m word_matches : Map Bytes ℕ)
    → get sid (intersect m word_matches)
      ≡ if_found (get sid m) (λ c. if_found (get sid word_matches) (λ wc. some (c + wc)))
unfolding intersect get
get-intersect sid [] word_matches = refl
get-intersect sid ((j, c) ∷ m) word_matches =
    let rest = intersect m word_matches in
    let ih = get-intersect sid m word_matches in
    elim (Bool-cases (j == sid)) [
      | inl same ↦
          let name : j ≡ sid = (bytes_beq_iff j sid).0 same in
          let nothing : get j word_matches ≡ none → get sid rest ≡ none = λ e.
            ih
            ∙ ap (λ o. if_found (get sid m) (λ c. if_found o (λ wc. some (c + wc))))
                (ap (λ k. get k word_matches) (sym name) ∙ e)
            ∙ if_found-none (get sid m) in
          with_count-same sid j c (get j word_matches) rest same nothing
          ∙ ap (λ k. if_found (get k word_matches) (λ wc. some (c + wc))) name
          ∙ rw same refl
      | inr other ↦ with_count-other sid j c (get j word_matches) rest other ∙ ih ∙ rw other refl
    ]

-- The words of a session's contents.
abbrev pub said_by : Bytes → Bytes → Bytes → List Bytes → ℕ
said_by sid session_id word words = if session_id == sid then times word words else 0

one_more : (n : ℕ) → some (unwrap_or (present n) 0 + 1) ≡ present (n + 1)
one_more n = ground arith

pub lookup-add_words :
    (session_id content sid word : Bytes) (words : List Bytes) (ix : TranscriptIndex) (n : ℕ)
    → lookup sid word ix ≡ present n
    → lookup sid word (add_words session_id content words ix)
      ≡ present (n + said_by sid session_id word words)
unfolding add_words
lookup-add_words session_id content sid word [] ix n h =
    let same : n ≡ n + said_by sid session_id word [] = ground arith in h ∙ ap present same
lookup-add_words session_id content sid word (w ∷ words) ix n h =
    let next = add_word session_id content w ix in
    let found = lookup-add_word session_id content w sid word ix in
    elim (Bool-cases (w == word)) [
      | inl same ↦ elim (Bool-cases (session_id == sid)) [
        | inl here ↦
            let name : w ≡ word = (bytes_beq_iff w word).0 same in
            let who : session_id ≡ sid = (bytes_beq_iff session_id sid).0 here in
            let seen : lookup session_id w ix ≡ present n =
              ap (λ k. lookup k w ix) who ∙ ap (λ k. lookup sid k ix) name ∙ h in
            let now : lookup sid word next ≡ present (n + 1) =
              found ∙ rw (same, here) (ap (λ o. some (unwrap_or o 0 + 1)) seen ∙ one_more n) in
            let sum : (n + 1) + times word words ≡ n + (1 + times word words) = omega arith in
            rw (same, here)
              (lookup-add_words session_id content sid word words next (n + 1) now
                ∙ rw here (ap present sum))
        | inr there ↦
            let now : lookup sid word next ≡ present n = found ∙ rw (same, there) h in
            lookup-add_words session_id content sid word words next n now ∙ rw there refl
      ]
      | inr other ↦
          let now : lookup sid word next ≡ present n = found ∙ rw other h in
          lookup-add_words session_id content sid word words next n now ∙ rw other refl
    ]
