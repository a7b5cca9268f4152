-- ===== src/Search/Matches.antt =====
-- Which sessions a query matches, and how often (crates/sessions/src/search.rs).
use serial_agent.Prelude.{
  ℕ, ◌+◌, ◌≡◌, inl, inr, refl, sym, ap, ◌∙◌, Option, none, some, List, [], ◌∷◌, if◌then◌else◌,
  arith, Bytes, bytes_eq, eqb, any, map, Map, get, Bool-cases,
}
use serial_agent.Search.{
  TranscriptIndex, new_index, add_words, intersect, candidates, if_found, Str, tokenize,
  index_content,
}
use serial_agent.Search.Counts.{
  lookup, present, said_by, lookup-add_words, get-intersect, if_found-none,
}

-- The count of one word, then of the next ones.
abbrev tally : Option ℕ → List ℕ → Option ℕ
tally a [] = a
tally a (n ∷ ns) = tally (if_found a (λ c. if_found (present n) (λ wc. some (c + wc)))) ns

tally-none : (ns : List ℕ) → tally none ns ≡ none
tally-none [] = refl
tally-none (n ∷ ns) = tally-none ns

abbrev pub sum : List ℕ → ℕ
sum [] = 0
sum (n ∷ ns) = n + sum ns

-- All of the words occur, with the sum of their counts, or one does not.
abbrev pub all_or_none : ℕ → List ℕ → Option ℕ
all_or_none c ns = if any (λ n. eqb n 0) ns then none else some (c + sum ns)

tally-some : (c : ℕ) (ns : List ℕ) → tally (some c) ns ≡ all_or_none c ns
tally-some c [] = let same : c ≡ c + 0 = omega arith in ap some same
tally-some c (n ∷ ns) = elim (Bool-cases (eqb n 0)) [
  | inl zero ↦ rw zero (tally-none ns)
  | inr more ↦
      let total : (c + n) + sum ns ≡ c + (n + sum ns) = omega arith in
      rw more
        (tally-some (c + n) ns ∙ ap (λ k. if any (λ n. eqb n 0) ns then none else some k) total)
]

module _ (sid : Bytes) (ix : TranscriptIndex) (occ : Bytes → ℕ)
    (counted : (word : Bytes) → lookup sid word ix ≡ present (occ word)) where
  found-tally :
      (o : Option (Map Bytes ℕ)) (current : Map Bytes ℕ) (n : ℕ) (words : List Bytes)
      → if_found o (get sid) ≡ present n
      → ((m : Map Bytes ℕ)
          → if_found (candidates ix words (some m)) (get sid) ≡ tally (get sid m) (map occ words))
      → if_found (if_found o (λ m. candidates ix words (some (intersect current m)))) (get sid)
        ≡ tally (get sid current) (n ∷ map occ words)
  found-tally none current n words h rest =
      sym (tally-none (map occ words))
      ∙ ap (λ a. tally a (map occ words))
          (sym (if_found-none (get sid current))
            ∙ ap (λ o. if_found (get sid current) (λ c. if_found o (λ wc. some (c + wc)))) h)
  found-tally (some m) current n words h rest =
      rest (intersect current m)
      ∙ ap (λ a. tally a (map occ words))
          (get-intersect sid current m
            ∙ ap (λ o. if_found (get sid current) (λ c. if_found o (λ wc. some (c + wc)))) h)

  candidates-tally :
      (words : List Bytes) (current : Map Bytes ℕ)
      → if_found (candidates ix words (some current)) (get sid)
        ≡ tally (get sid current) (map occ words)
  unfolding candidates
  candidates-tally [] current = refl
  candidates-tally (word ∷ words) current =
      found-tally (get word ix.index) current (occ word) words (counted word)
        (candidates-tally words)

  first-tally :
      (o : Option (Map Bytes ℕ)) (words : List Bytes)
      → if_found (if_found o (λ m. candidates ix words (some m))) (get sid)
        ≡ tally (if_found o (get sid)) (map occ words)
  first-tally none words = sym (tally-none (map occ words))
  first-tally (some m) words = candidates-tally words m

  first_present : (n : ℕ) (ns : List ℕ) → tally (present n) ns ≡ all_or_none 0 (n ∷ ns)
  first_present n ns = elim (Bool-cases (eqb n 0)) [
    | inl zero ↦ rw zero (tally-none ns)
    | inr more ↦
        let total : n + sum ns ≡ 0 + (n + sum ns) = omega arith in
        rw more (tally-some n ns ∙ ap (λ k. if any (λ n. eqb n 0) ns then none else some k) total)
  ]

  candidates-all_or_none :
      (word : Bytes) (words : List Bytes)
      → if_found (candidates ix (word ∷ words) none) (get sid)
        ≡ all_or_none 0 (map occ (word ∷ words))
  unfolding candidates
  candidates-all_or_none word words =
      first-tally (get word ix.index) words
      ∙ ap (λ a. tally a (map occ words)) (counted word)
      ∙ first_present (occ word) (map occ words)

module _ (str : Str) where
  -- Contents, each of a session, in the order in which they are indexed.
  abbrev pub index_all : List (Bytes × Bytes) → TranscriptIndex → TranscriptIndex
  index_all [] ix = ix
  index_all ((session_id, content) ∷ contents) ix =
      index_all contents (index_content str session_id content ix)

  -- How often a session's contents have a word.
  abbrev pub occurrences : Bytes → List (Bytes × Bytes) → Bytes → ℕ
  occurrences sid [] word = 0
  occurrences sid ((session_id, content) ∷ contents) word =
      said_by sid session_id word (tokenize str content) + occurrences sid contents word

  lookup-index_all :
      (sid word : Bytes) (contents : List (Bytes × Bytes)) (ix : TranscriptIndex) (n : ℕ)
      → lookup sid word ix ≡ present n
      → lookup sid word (index_all contents ix) ≡ present (n + occurrences sid contents word)
  unfolding index_content
  lookup-index_all sid word [] ix n h = let same : n ≡ n + 0 = omega arith in h ∙ ap present same
  lookup-index_all sid word ((session_id, content) ∷ contents) ix n h =
      let words = tokenize str content in
      let here = said_by sid session_id word words in
      let total : (n + here) + occurrences sid contents word
          ≡ n + (here + occurrences sid contents word) =
        omega arith in
      lookup-index_all sid word contents (add_words session_id content words ix) (n + here)
        (lookup-add_words session_id content sid word words ix n h)
      ∙ ap present total

  -- A session is among the candidates of a query exactly if its contents have each of the query's
  -- words, and its score is the sum of the numbers of their occurrences.
  pub candidates_lem :
      (contents : List (Bytes × Bytes)) (sid word : Bytes) (words : List Bytes)
      → if_found (candidates (index_all contents new_index) (word ∷ words) none) (get sid)
        ≡ all_or_none 0 (map (occurrences sid contents) (word ∷ words))
  unfolding get
  candidates_lem contents sid word words =
      candidates-all_or_none sid (index_all contents new_index) (occurrences sid contents)
        (λ w.
          let bare : 0 + occurrences sid contents w ≡ occurrences sid contents w = omega arith in
          lookup-index_all sid w contents new_index 0 refl ∙ ap present bare)
        word words
