-- ===== src/Search.antt =====
-- crates/sessions/src/search.rs: the index from words to sessions. `to_lowercase` and the split at
-- what is not alphanumeric are those of Rust's `str`.
mod Counts
mod Matches
mod Tests
use serial_agent.Prelude.{
  ℕ, ◌+◌, ◌≡◌, ◌↔◌, refl, ap, ◌∙◌, Bool, true, false, ◌&&◌, and_iff, Option, none, some, List, [],
  ◌∷◌, ◌++◌, if◌then◌else◌, Bytes, bytes, bytes_beq, bytes_beq_iff, bytes_eq, Eq, leb, length, take,
  keep_if, Map, get, insert, unwrap_or, or, map,
}
use serial_agent.ContextPack.{floor_from}

pub record Str : Type 0 where
  pub to_lowercase : Bytes → Bytes
  pub split_alphanumeric : Bytes → List Bytes

abbrev pub pair_beq : Bytes × Bytes → Bytes × Bytes → Bool
pair_beq (s, t) (u, v) = bytes_beq s u && bytes_beq t v

pair_beq_iff : (p q : Bytes × Bytes) → (pair_beq p q ≡ true) ↔ (p ≡ q)
pair_beq_iff (s, t) (u, v) = (
  λ h.
      let (e, f) = (and_iff (bytes_beq s u) (bytes_beq t v)).0 h in
      ap (λ x. (x, t)) ((bytes_beq_iff s u).0 e) ∙ ap (λ y. (u, y)) ((bytes_beq_iff t v).0 f),
  λ e.
      (and_iff (bytes_beq s u) (bytes_beq t v)).1
        ((bytes_beq_iff s u).1 (ap (λ p. p.0) e), (bytes_beq_iff t v).1 (ap (λ p. p.1) e)),
)

instance pub pair_eq : Eq (Bytes × Bytes)
pair_eq = record { beq = pair_beq; beq_iff = pair_beq_iff }

pub record TranscriptIndex : Type 0 where
  pub index : Map Bytes (Map Bytes ℕ)
  pub previews : Map (Bytes × Bytes) Bytes

pub record SearchHit : Type 0 where
  pub session_id : Bytes
  pub match_count : ℕ
  pub preview : Bytes

abbrev pub new_index : TranscriptIndex
new_index = record { index = []; previews = [] }

abbrev pub max_results : ℕ
max_results = 50

-- `MAX_PREVIEW_LEN` is 160.
unfoldable pub truncate_preview : Bytes → Bytes
truncate_preview s = if leb (length s) 160 then s else take (floor_from s 160) s ++ bytes "..."

abbrev bump : Bytes → Map Bytes ℕ → Map Bytes ℕ
bump session_id sessions = insert session_id (unwrap_or (get session_id sessions) 0 + 1) sessions

abbrev kept_or : Option Bytes → Bytes → Bytes
kept_or none fresh = fresh
kept_or (some old) fresh = old

-- One word of a content; the first preview stays.
unfoldable pub add_word : Bytes → Bytes → Bytes → TranscriptIndex → TranscriptIndex
unfolding truncate_preview
add_word session_id content word ix = record {
  index = insert word (bump session_id (unwrap_or (get word ix.index) [])) ix.index;
  previews =
      insert (session_id, word)
        (kept_or (get (session_id, word) ix.previews) (truncate_preview content)) ix.previews;
}

unfoldable pub add_words : Bytes → Bytes → List Bytes → TranscriptIndex → TranscriptIndex
unfolding add_word
add_words session_id content [] ix = ix
add_words session_id content (word ∷ words) ix =
    add_words session_id content words (add_word session_id content word ix)

-- The sessions of both, with the sum of the counts.
abbrev with_count : Bytes → ℕ → Option ℕ → Map Bytes ℕ → Map Bytes ℕ
with_count sid count none rest = rest
with_count sid count (some wc) rest = (sid, count + wc) ∷ rest

unfoldable pub intersect : Map Bytes ℕ → Map Bytes ℕ → Map Bytes ℕ
intersect [] word_matches = []
intersect ((sid, count) ∷ current) word_matches =
    with_count sid count (get sid word_matches) (intersect current word_matches)

abbrev pub narrowed : Option (Map Bytes ℕ) → Map Bytes ℕ → Map Bytes ℕ
narrowed none word_matches = word_matches
narrowed (some current) word_matches = intersect current word_matches

abbrev pub if_found {ℓ} : {A B : Type ℓ} → Option A → (A → Option B) → Option B
if_found none next = none
if_found (some a) next = next a

-- The loop over the words of a query; a word that no session has ends it with nothing.
unfoldable pub candidates :
    TranscriptIndex → List Bytes → Option (Map Bytes ℕ) → Option (Map Bytes ℕ)
unfolding intersect
candidates ix [] current = current
candidates ix (word ∷ words) current =
    if_found (get word ix.index) (λ m. candidates ix words (some (narrowed current m)))

-- A stable sort by the count, the largest first.
abbrev insert_by_count : Bytes × ℕ → List (Bytes × ℕ) → List (Bytes × ℕ)
insert_by_count x [] = x ∷ []
insert_by_count x (y ∷ ys) =
    let rest = insert_by_count x ys in if leb y.1 x.1 then x ∷ y ∷ ys else y ∷ rest

unfoldable pub sort_by_count : List (Bytes × ℕ) → List (Bytes × ℕ)
sort_by_count [] = []
sort_by_count (x ∷ xs) = insert_by_count x (sort_by_count xs)

abbrev first_preview : Bytes → List Bytes → Map (Bytes × Bytes) Bytes → Option Bytes
first_preview sid [] previews = none
first_preview sid (word ∷ words) previews =
    or (get (sid, word) previews) (first_preview sid words previews)

abbrev hit_of : List Bytes → TranscriptIndex → Bytes × ℕ → SearchHit
hit_of words ix (sid, count) = record {
  session_id = sid;
  match_count = count;
  preview = unwrap_or (first_preview sid words ix.previews) [];
}

module _ (str : Str) where
  -- Words of two bytes or more.
  unfoldable pub tokenize : Bytes → List Bytes
  tokenize text = keep_if (λ w. leb 2 (length w)) (str.split_alphanumeric (str.to_lowercase text))

  unfoldable pub index_content : Bytes → Bytes → TranscriptIndex → TranscriptIndex
  unfolding tokenize add_words
  index_content session_id content ix = add_words session_id content (tokenize content) ix

  unfoldable pub search : Bytes → TranscriptIndex → List SearchHit
  unfolding tokenize candidates sort_by_count
  search query ix =
      let words = tokenize query in
      map (hit_of words ix)
        (take max_results (sort_by_count (unwrap_or (candidates ix words none) [])))
