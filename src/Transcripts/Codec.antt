-- ===== src/Transcripts/Codec.antt =====
-- An encoding of transcript lines that stands for JSON: a text is its length and its bytes, and all
-- numbers are raised by 1000.
use serial_agent.Prelude.{
  ℕ, zero, suc, ◌+◌, ◌-◌, ◌≤◌, ◌≡◌, refl, ap, true, false, Option, none, some, List, [], ◌∷◌, ◌++◌,
  arith, Bytes, if◌then◌else◌, eqb, length, take, drop, Map, All, map, bytes_eq, keep_if,
}
use serial_agent.Strings.{
  is_blank, none_left, split_whitespace, split_spaces, space_length, push_first, has_bytes,
}
use serial_agent.Strings.Pieces.{Lacks}
use serial_agent.Compaction.{TranscriptLine, JsonValue, bool, number, other}
use serial_agent.Transcripts.{Json}
use serial_agent.Transcripts.Files.{IsFaithful}

abbrev raised : ℕ → ℕ
raised b = b + 1000

write_text : Bytes → Bytes → Bytes
write_text s rest = raised (length s) ∷ (map raised s ++ rest)

abbrev lowered : Bytes → Bytes
lowered [] = []
lowered (b ∷ s) = (b - 1000) ∷ lowered s

read_text : Bytes → Option (Bytes × Bytes)
read_text [] = none
read_text (n ∷ s) = some (lowered (take (n - 1000) s), drop (n - 1000) s)

take-raised : (s rest : Bytes) → lowered (take (length s) (map raised s ++ rest)) ≡ s
take-raised [] rest = refl
take-raised (b ∷ s) rest = ground (arith, take-raised s rest)

drop-raised : (s rest : Bytes) → drop (length s) (map raised s ++ rest) ≡ rest
drop-raised [] rest = refl
drop-raised (b ∷ s) rest = drop-raised s rest

read_text-write_text : (s rest : Bytes) → read_text (write_text s rest) ≡ some (s, rest)
unfolding read_text write_text
read_text-write_text s rest =
    let n : raised (length s) - 1000 ≡ length s = omega arith in
    rw (n, take-raised s rest, drop-raised s rest) refl

write_value : JsonValue → Bytes → Bytes
write_value (bool b) rest = 1000 ∷ (if b then 1001 else 1000) ∷ rest
write_value (number n) rest = 1001 ∷ raised n ∷ rest
write_value (other s) rest = 1002 ∷ write_text s rest

abbrev and_then : {A B : Type 0} → Option (A × Bytes) → (A → Bytes → Option B) → Option B
and_then none f = none
and_then (some (a, rest)) f = f a rest

read_value : Bytes → Option (JsonValue × Bytes)
read_value [] = none
read_value (kind ∷ []) = none
read_value (kind ∷ b ∷ rest) =
    if eqb kind 1000
    then some (bool (eqb b 1001), rest)
    else if eqb kind 1001
    then some (number (b - 1000), rest)
    else and_then (read_text (b ∷ rest)) (λ s left. some (other s, left))

read_value-write_value :
    (v : JsonValue) (rest : Bytes) → read_value (write_value v rest) ≡ some (v, rest)
unfolding read_value write_value write_text
read_value-write_value (bool true) rest = refl
read_value-write_value (bool false) rest = refl
read_value-write_value (number n) rest = let e : raised n - 1000 ≡ n = omega arith in rw e refl
read_value-write_value (other s) rest =
    ap (λ o. and_then o (λ text left. some (other text, left))) (read_text-write_text s rest)

write_entries : Map Bytes JsonValue → Bytes → Bytes
write_entries [] rest = rest
write_entries ((k, v) ∷ m) rest = write_text k (write_value v (write_entries m rest))

read_entries : ℕ → Bytes → Option (Map Bytes JsonValue)
read_entries zero s = some []
read_entries (suc n) s = and_then (read_text s) (λ k after. and_then (read_value after) (λ v left.
    and_then (elim (read_entries n left) [ none ↦ none | some m ↦ some (m, []) ])
      (λ m none_left. some ((k, v) ∷ m))))

read_entries-write_entries :
    (m : Map Bytes JsonValue) → read_entries (length m) (write_entries m []) ≡ some m
unfolding read_entries write_entries
read_entries-write_entries [] = refl
read_entries-write_entries ((k, v) ∷ m) =
    rw
      (
        read_text-write_text k (write_value v (write_entries m [])),
        read_value-write_value v (write_entries m []),
        read_entries-write_entries m,
      )
      refl

write_metadata : Option (Map Bytes JsonValue) → Bytes
write_metadata none = 1000 ∷ []
write_metadata (some m) = (1001 + length m) ∷ write_entries m []

read_metadata : Bytes → Option (Option (Map Bytes JsonValue))
read_metadata [] = none
read_metadata (n ∷ s) =
    if eqb n 1000
    then some none
    else elim (read_entries (n - 1001) s) [ none ↦ none | some m ↦ some (some m) ]

read_metadata-write_metadata :
    (m : Option (Map Bytes JsonValue)) → read_metadata (write_metadata m) ≡ some m
unfolding read_metadata write_metadata
read_metadata-write_metadata none = refl
read_metadata-write_metadata (some m) =
    let tag : eqb (1001 + length m) 1000 ≡ false = ground arith in
    let n : 1001 + length m - 1001 ≡ length m = omega arith in
    rw (tag, n, read_entries-write_entries m) refl

pub write_line : TranscriptLine → Bytes
unfolding write_text
write_line l =
    write_text l.timestamp (write_text l.role (write_text l.content (write_metadata l.metadata)))

abbrev with_metadata :
    Bytes → Bytes → Bytes → Option (Option (Map Bytes JsonValue)) → Option TranscriptLine
with_metadata t r c none = none
with_metadata t r c (some m) = some (record { timestamp = t; role = r; content = c; metadata = m })

pub read_line : Bytes → Option TranscriptLine
read_line s = and_then (read_text s) (λ t one.
    and_then (read_text one)
      (λ r two. and_then (read_text two) (λ c three. with_metadata t r c (read_metadata three))))

read_line-write_line : (l : TranscriptLine) → read_line (write_line l) ≡ some l
unfolding read_line write_line
read_line-write_line l =
    rw
      (
        read_text-write_text l.timestamp
            (write_text l.role (write_text l.content (write_metadata l.metadata))),
        read_text-write_text l.role (write_text l.content (write_metadata l.metadata)),
        read_text-write_text l.content (write_metadata l.metadata),
      )
      (ap (with_metadata l.timestamp l.role l.content) (read_metadata-write_metadata l.metadata))

-- Every number of the encoding is at least 1000.
abbrev AreLarge : Bytes → Type 0
AreLarge = All (λ b. 1000 ≤ b)

map-raised : (s rest : Bytes) → AreLarge rest → AreLarge (map raised s ++ rest)
map-raised [] rest h = h
map-raised (b ∷ s) rest h = (omega arith, map-raised s rest h)

write_text-AreLarge : (s rest : Bytes) → AreLarge rest → AreLarge (write_text s rest)
unfolding write_text
write_text-AreLarge s rest h = (omega arith, map-raised s rest h)

write_value-AreLarge :
    (v : JsonValue) (rest : Bytes) → AreLarge rest → AreLarge (write_value v rest)
unfolding write_value
write_value-AreLarge (bool true) rest h = (omega arith, (omega arith, h))
write_value-AreLarge (bool false) rest h = (omega arith, (omega arith, h))
write_value-AreLarge (number n) rest h = (omega arith, (omega arith, h))
write_value-AreLarge (other s) rest h = (omega arith, write_text-AreLarge s rest h)

write_entries-AreLarge : (m : Map Bytes JsonValue) → AreLarge (write_entries m [])
unfolding write_entries
write_entries-AreLarge [] = tt
write_entries-AreLarge ((k, v) ∷ m) =
    write_text-AreLarge k _ (write_value-AreLarge v _ (write_entries-AreLarge m))

write_metadata-AreLarge : (m : Option (Map Bytes JsonValue)) → AreLarge (write_metadata m)
unfolding write_metadata
write_metadata-AreLarge none = (omega arith, tt)
write_metadata-AreLarge (some m) = (omega arith, write_entries-AreLarge m)

write_line-AreLarge : (l : TranscriptLine) → AreLarge (write_line l)
unfolding write_line
write_line-AreLarge l = write_text-AreLarge l.timestamp _ (
    write_text-AreLarge l.role _
      (write_text-AreLarge l.content _ (write_metadata-AreLarge l.metadata)))

AreLarge-Lacks : (c : ℕ) (s : Bytes) → c ≤ 13 → AreLarge s → Lacks c s
AreLarge-Lacks c [] small h = tt
AreLarge-Lacks c (b ∷ s) small h = (ground arith, AreLarge-Lacks c s small h.1)

space_length-large : (b : ℕ) (s : Bytes) → 1000 ≤ b → space_length (b ∷ s) ≡ 0
unfolding space_length
space_length-large b [] h = ground arith
space_length-large b (c ∷ []) h = ground arith
space_length-large b (c ∷ d ∷ s) h = ground arith

is_blank-large : (b : ℕ) (s : Bytes) → 1000 ≤ b → is_blank (b ∷ s) ≡ false
unfolding is_blank split_whitespace split_spaces
is_blank-large b s h = rw (space_length-large b s h) (pushed (split_spaces 0 s))
  where
    pushed : (pieces : List Bytes) → none_left (keep_if has_bytes (push_first b pieces)) ≡ false
    pushed [] = refl
    pushed (piece ∷ pieces) = refl

write_line-not_blank : (l : TranscriptLine) → is_blank (write_line l) ≡ false
unfolding write_line write_text
write_line-not_blank l = is_blank-large _ _ (omega arith)

abbrev pub encoding : Json
encoding = record { to_json = write_line; from_json = read_line }

pub encoding-IsFaithful : IsFaithful encoding
encoding-IsFaithful = record {
  reads_back = read_line-write_line;
  one_line = λ l. AreLarge-Lacks 10 (write_line l) (omega arith) (write_line-AreLarge l);
  no_return = λ l. AreLarge-Lacks 13 (write_line l) (omega arith) (write_line-AreLarge l);
  not_blank = write_line-not_blank;
}
