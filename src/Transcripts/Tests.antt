-- ===== src/Transcripts/Tests.antt =====
-- The transcripts at concrete inputs.
use serial_agent.Prelude.{
  ◌≡◌, refl, inl, inr, true, none, List, [], ◌∷◌, Bytes, bytes, bytes_eq, get, insert,
}
use serial_agent.Compaction.{TranscriptLine}
use serial_agent.Transcripts.{TranscriptWriter, append, read, read_jsonl_file, serialize_lines}
use serial_agent.Transcripts.Codec.{encoding, encoding-IsFaithful}
use serial_agent.Transcripts.Coherence.{
  Call, reading, appending, invalidating, read-apply_all, read-append_cold, apply_all,
}

abbrev line : Bytes → TranscriptLine
line content = record { timestamp = []; role = bytes "user"; content = content; metadata = none }

abbrev empty_writer : TranscriptWriter
empty_writer = record { files = []; cache = [] }

abbrev calls : List Call
calls =
    appending true (bytes "a") (line (bytes "one") ∷ [])
    ∷ appending true (bytes "b") (line (bytes "other") ∷ [])
    ∷ reading (bytes "a")
    ∷ appending true (bytes "a") (line (bytes "two") ∷ [])
    ∷ invalidating (bytes "a")
    ∷ []

read-apply_all_example :
    (read encoding (bytes "a") (apply_all encoding calls empty_writer)).1
    ≡ line (bytes "one") ∷ line (bytes "two") ∷ []
unfolding get insert append read
read-apply_all_example =
    read-apply_all encoding encoding-IsFaithful calls (bytes "a") [] empty_writer
      (record { in_file = refl; in_cache = tt }) (inr refl, (inr refl, (tt, (inl refl, (tt, tt)))))

abbrev restarted : TranscriptWriter
restarted = record {
  files = (bytes "a", serialize_lines encoding (line (bytes "one") ∷ [])) ∷ [];
  cache = [];
}

read-append_cold_example :
    let after = (append encoding true (bytes "a") (line (bytes "two") ∷ []) restarted).0 in
    ((read encoding (bytes "a") after).1 ≡ line (bytes "two") ∷ [])
    × (read_jsonl_file encoding (get (bytes "a") after.files)
        ≡ line (bytes "one") ∷ line (bytes "two") ∷ [])
unfolding get
read-append_cold_example =
    read-append_cold encoding encoding-IsFaithful (bytes "a") (line (bytes "one") ∷ [])
      (line (bytes "two")) [] restarted refl refl
