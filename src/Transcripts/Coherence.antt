-- ===== src/Transcripts/Coherence.antt =====
-- The cache of the transcripts against their files (crates/sessions/src/transcript.rs).
use serial_agent.Prelude.{
  ◌≡◌, ◌⊎◌, refl, sym, ap, subst, ◌∙◌, inl, inr, Bool, true, false, Option, none, some, List, [],
  ◌∷◌, ◌++◌, arith, Bytes, if◌then◌else◌, bytes_eq, bytes_beq, bytes_beq_iff, get, insert,
  get-insert, get-remove, unwrap_or, is_some, Bool-cases, Option-cases,
}
use mathlib.Core.List.{append_assoc, append-nil}
use serial_agent.Compaction.{TranscriptLine}
use serial_agent.Transcripts.{
  Json, TranscriptWriter, serialize_lines, read_jsonl_file, write_to_disk, append, read,
  invalidate_cache,
}
use serial_agent.Transcripts.Files.{
  IsFaithful, read_jsonl_file-serialize_lines, serialize_lines-append,
}

-- The calls on the transcripts; an append says whether its write succeeds.
pub data Call : Type 0 where
  reading : Bytes → Call
  appending : Bool → Bytes → List TranscriptLine → Call
  invalidating : Bytes → Call

module _ (j : Json) where
  abbrev pub apply : Call → TranscriptWriter → TranscriptWriter
  apply (reading id) w = (read j id w).0
  apply (appending writes id lines) w = (append j writes id lines w).0
  apply (invalidating id) w = invalidate_cache id w

  abbrev pub apply_all : List Call → TranscriptWriter → TranscriptWriter
  apply_all [] w = w
  apply_all (call ∷ calls) w = apply_all calls (apply call w)

  -- A session is appended to when its lines are in the cache, or when it has no file.
  abbrev IsWarm : Call → TranscriptWriter → Type 0
  IsWarm (appending writes id lines) w = (is_some (get id w.cache) ≡ true) ⊎ (get id w.files ≡ none)
  IsWarm call w = Unit

  abbrev pub AreWarm : List Call → TranscriptWriter → Type 0
  AreWarm [] w = Unit
  AreWarm (call ∷ calls) w = IsWarm call w × AreWarm calls (apply call w)

  -- The lines that a call adds to a session.
  abbrev added : Bytes → Call → List TranscriptLine
  added id (appending true i lines) = if bytes_beq i id then lines else []
  added id call = []

  abbrev pub all_added : Bytes → List Call → List TranscriptLine
  all_added id [] = []
  all_added id (call ∷ calls) = added id call ++ all_added id calls

  abbrev FileHolds : List TranscriptLine → Option Bytes → Type 0
  FileHolds lines none = lines ≡ []
  FileHolds lines (some raw) = raw ≡ serialize_lines j lines

  abbrev CacheHolds : List TranscriptLine → Option (List TranscriptLine) → Type 0
  CacheHolds lines none = Unit
  CacheHolds lines (some cached) = cached ≡ lines

  -- The file of the session holds these lines, and so does the cache if it has an entry.
  pub record Holds (id : Bytes) (lines : List TranscriptLine) (w : TranscriptWriter) : Type 0 where
    pub in_file : FileHolds lines (get id w.files)
    pub in_cache : CacheHolds lines (get id w.cache)

  module _ (f : IsFaithful j) where
    read_file :
        (lines : List TranscriptLine) (o : Option Bytes)
        → FileHolds lines o
        → read_jsonl_file j o ≡ lines
    unfolding read_jsonl_file
    read_file lines none h = sym h
    read_file lines (some raw) h =
        ap (λ text. read_jsonl_file j (some text)) h ∙ read_jsonl_file-serialize_lines j f lines

    read-Holds :
        (id : Bytes) (lines : List TranscriptLine) (w : TranscriptWriter)
        → Holds id lines w
        → (read j id w).1 ≡ lines
    unfolding read
    read-Holds id lines w h = elim (Option-cases (get id w.cache)) [
      | inl cold ↦ rw cold (read_file lines (get id w.files) h.in_file)
      | inr (cached, e) ↦ rw e (subst (CacheHolds lines) e h.in_cache)
    ]

    apply_reading-Holds :
        (i id : Bytes) (lines : List TranscriptLine) (w : TranscriptWriter)
        → Holds id lines w
        → Holds id lines (read j i w).0
    unfolding read
    apply_reading-Holds i id lines w h = elim (Option-cases (get i w.cache)) [
      | inl cold ↦ rw cold (record {
        in_file = h.in_file;
        in_cache =
            subst (CacheHolds lines)
              (sym (get-insert i id (read_jsonl_file j (get i w.files)) w.cache))
              (elim (Bool-cases (bytes_beq i id)) [
                | inl same ↦ rw same (
                    ap (λ k. read_jsonl_file j (get k w.files)) ((bytes_beq_iff i id).0 same)
                    ∙ read_file lines (get id w.files) h.in_file)
                | inr other ↦ rw other h.in_cache
              ]);
      })
      | inr (cached, e) ↦ rw e h
    ]

  apply_invalidating-Holds :
      (i id : Bytes) (lines : List TranscriptLine) (w : TranscriptWriter)
      → Holds id lines w
      → Holds id lines (invalidate_cache i w)
  unfolding invalidate_cache
  apply_invalidating-Holds i id lines w h = record {
    in_file = h.in_file;
    in_cache =
        subst (CacheHolds lines) (sym (get-remove i id w.cache))
          (elim (Bool-cases (bytes_beq i id)) [
            | inl same ↦ rw same tt
            | inr other ↦ rw other h.in_cache
          ]);
  }

  file_text :
      (lines : List TranscriptLine) (o : Option Bytes)
      → FileHolds lines o
      → unwrap_or o [] ≡ serialize_lines j lines
  unfolding serialize_lines
  file_text lines none h = sym (ap (serialize_lines j) h)
  file_text lines (some raw) h = h

  cached_lines :
      (lines : List TranscriptLine) (o : Option (List TranscriptLine)) (file : Option Bytes)
      → FileHolds lines file
      → CacheHolds lines o
      → (is_some o ≡ true) ⊎ (file ≡ none)
      → unwrap_or o [] ≡ lines
  cached_lines lines (some cached) file h k warm = k
  cached_lines lines none file h k (inl warm) = cc
  cached_lines lines none file h k (inr gone) = sym (subst (FileHolds lines) gone h)

  apply_appending-Holds :
      (i id : Bytes) (l : TranscriptLine) (new lines : List TranscriptLine) (w : TranscriptWriter)
      → Holds id lines w
      → (is_some (get i w.cache) ≡ true) ⊎ (get i w.files ≡ none)
      → Holds id (lines ++ (if bytes_beq i id then l ∷ new else [])) (append j true i (l ∷ new) w).0
  unfolding append write_to_disk
  apply_appending-Holds i id l new lines w h warm =
      let text = unwrap_or (get i w.files) [] ++ serialize_lines j (l ∷ new) in
      let cached = unwrap_or (get i w.cache) [] ++ (l ∷ new) in
      elim (Bool-cases (bytes_beq i id)) [
        | inl same ↦
            let e : i ≡ id = (bytes_beq_iff i id).0 same in
            let text_e : text ≡ serialize_lines j (lines ++ (l ∷ new)) =
              ap (λ s. s ++ serialize_lines j (l ∷ new))
                (ap (λ k. unwrap_or (get k w.files) []) e
                  ∙ file_text lines (get id w.files) h.in_file)
              ∙ sym (serialize_lines-append j lines (l ∷ new)) in
            let cached_e : cached ≡ lines ++ (l ∷ new) =
              ap (λ s. s ++ (l ∷ new))
                (ap (λ k. unwrap_or (get k w.cache) []) e
                  ∙ cached_lines lines (get id w.cache) (get id w.files) h.in_file h.in_cache (
                      subst (λ k. (is_some (get k w.cache) ≡ true) ⊎ (get k w.files ≡ none)) e
                        warm)) in
            rw same (record {
              in_file =
                  subst (FileHolds (lines ++ (l ∷ new))) (sym (get-insert i id text w.files))
                    (rw same text_e);
              in_cache =
                  subst (CacheHolds (lines ++ (l ∷ new))) (sym (get-insert i id cached w.cache))
                    (rw same cached_e);
            })
        | inr other ↦
            rw (other, append-nil lines)
              (record {
                in_file =
                    subst (FileHolds lines) (sym (get-insert i id text w.files))
                      (rw other h.in_file);
                in_cache =
                    subst (CacheHolds lines) (sym (get-insert i id cached w.cache))
                      (rw other h.in_cache);
              })
      ]

  apply-Holds :
      (f : IsFaithful j) (call : Call) (id : Bytes) (lines : List TranscriptLine)
      (w : TranscriptWriter)
      → Holds id lines w
      → IsWarm call w
      → Holds id (lines ++ added id call) (apply call w)
  unfolding append
  apply-Holds f (reading i) id lines w h warm =
      rw (append-nil lines) (apply_reading-Holds f i id lines w h)
  apply-Holds f (invalidating i) id lines w h warm =
      rw (append-nil lines) (apply_invalidating-Holds i id lines w h)
  apply-Holds f (appending false i []) id lines w h warm = rw (append-nil lines) h
  apply-Holds f (appending false i (l ∷ new)) id lines w h warm = rw (append-nil lines) h
  apply-Holds f (appending true i []) id lines w h warm =
      let none_new : added id (appending true i []) ≡ [] = ground arith in
      rw (none_new, append-nil lines) h
  apply-Holds f (appending true i (l ∷ new)) id lines w h warm =
      apply_appending-Holds i id l new lines w h warm

  -- Whatever the calls on the transcripts, a read of a session gives the lines that were there and
  -- then all that were appended, in order, where each session that is appended to is in the cache
  -- or has no file; JSON is taken to be faithful.
  pub read-apply_all :
      (f : IsFaithful j) (calls : List Call) (id : Bytes) (lines : List TranscriptLine)
      (w : TranscriptWriter)
      → Holds id lines w
      → AreWarm calls w
      → (read j id (apply_all calls w)).1 ≡ lines ++ all_added id calls
  read-apply_all f [] id lines w h warm = read-Holds f id lines w h ∙ sym (append-nil lines)
  read-apply_all f (call ∷ calls) id lines w h warm =
      read-apply_all f calls id (lines ++ added id call) (apply call w)
        (apply-Holds f call id lines w h warm.0) warm.1
      ∙ append_assoc lines (added id call) (all_added id calls)

  -- A session that has lines in its file and none in the cache: after an append, a read gives the
  -- new lines alone, though the file has the old ones and the new ones.
  pub read-append_cold :
      (f : IsFaithful j) (id : Bytes) (old : List TranscriptLine) (l : TranscriptLine)
      (new : List TranscriptLine) (w : TranscriptWriter)
      → get id w.files ≡ some (serialize_lines j old)
      → get id w.cache ≡ none
      → let after = (append j true id (l ∷ new) w).0 in
        ((read j id after).1 ≡ l ∷ new)
        × (read_jsonl_file j (get id after.files) ≡ old ++ (l ∷ new))
  unfolding append write_to_disk read
  read-append_cold f id old l new w in_file cold =
      let same : bytes_beq id id ≡ true = (bytes_beq_iff id id).1 refl in
      let cached = unwrap_or (get id w.cache) [] ++ (l ∷ new) in
      let text = unwrap_or (get id w.files) [] ++ serialize_lines j (l ∷ new) in
      let now_cached : get id (insert id cached w.cache) ≡ some (l ∷ new) =
        get-insert id id cached w.cache
        ∙ rw same (ap (λ o. some (unwrap_or o [] ++ (l ∷ new))) cold) in
      let now_there : get id (insert id text w.files)
          ≡ some (serialize_lines j (old ++ (l ∷ new))) =
        get-insert id id text w.files
        ∙ rw same (
            ap (λ o. some (unwrap_or o [] ++ serialize_lines j (l ∷ new))) in_file
            ∙ ap some (sym (serialize_lines-append j old (l ∷ new)))) in
      (
        rw now_cached refl,
        ap (read_jsonl_file j) now_there ∙ read_jsonl_file-serialize_lines j f (old ++ (l ∷ new)),
      )
