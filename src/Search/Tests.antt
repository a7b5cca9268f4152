-- ===== src/Search/Tests.antt =====
-- A query of two words against two sessions.
use serial_agent.Prelude.{
  ℕ, ◌≡◌, refl, none, List, [], ◌∷◌, Bytes, bytes, bytes_eq, get, insert, map,
}
use serial_agent.Strings.{split_on}
use serial_agent.Search.{
  Str, SearchHit, new_index, candidates, if_found, search, tokenize, add_words, add_word,
  index_content, intersect, sort_by_count, truncate_preview,
}
use serial_agent.Search.Matches.{index_all, occurrences, all_or_none, candidates_lem}

abbrev spaces : Str
spaces = record { to_lowercase = λ s. s; split_alphanumeric = split_on 32 }

abbrev contents : List (Bytes × Bytes)
contents =
    (bytes "s1", bytes "red cat")
    ∷ (bytes "s2", bytes "red dog")
    ∷ (bytes "s1", bytes "a red hat")
    ∷ []

candidates_lem_example :
    if_found
      (candidates (index_all spaces contents new_index) (bytes "red" ∷ bytes "cat" ∷ []) none)
      (get (bytes "s1"))
    ≡ all_or_none 0
        (map (occurrences spaces (bytes "s1") contents) (bytes "red" ∷ bytes "cat" ∷ []))
candidates_lem_example =
    candidates_lem spaces contents (bytes "s1") (bytes "red") (bytes "cat" ∷ [])

abbrev brief : SearchHit → Bytes × ℕ
brief h = (h.session_id, h.match_count)

found :
    map brief (search spaces (bytes "red cat") (index_all spaces contents new_index))
    ≡ (bytes "s1", 3) ∷ []
unfolding search tokenize split_on index_content add_words add_word candidates intersect
    sort_by_count get insert truncate_preview
found = refl
