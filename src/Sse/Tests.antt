-- ===== src/Sse/Tests.antt =====
-- A response in three chunks and in one.
use serial_agent.Prelude.{ℕ, ◌+◌, ◌≡◌, refl, Bool, false, List, [], ◌∷◌, ◌++◌, Bytes, bytes}
use serial_agent.Strings.{
  text_lines, split_on, trim, trim_start, trim_end, strip_prefix, is_blank, space_length,
  split_whitespace,
}
use serial_agent.Sse.{Item, ok, closed, drain_data_lines, find_break, sse_response_stream}
use serial_agent.Sse.Chunks.{sse_response_stream-chunks}

abbrev newline : Bytes
newline = 10 ∷ []

abbrev chunks : List Bytes
chunks = bytes "data: a" ∷ (newline ++ newline ++ bytes "data: b" ++ newline) ∷ newline ∷ []

abbrev whole : Bytes
whole = bytes "data: a" ++ newline ++ newline ++ bytes "data: b" ++ newline ++ newline

abbrev count_and_echo : ℕ → Bytes → ℕ × List (Item Bytes)
count_and_echo n text = (n + 1, ok text ∷ [])

abbrev never_done : Item Bytes → Bool
never_done item = false

drained : drain_data_lines whole ≡ (bytes "a" ∷ bytes "b" ∷ [], [])
unfolding drain_data_lines find_break text_lines split_on trim trim_start trim_end strip_prefix
    is_blank split_whitespace space_length
drained = refl

sse_response_stream-chunks_example :
    sse_response_stream count_and_echo never_done (λ s. s) chunks closed 0
    ≡ sse_response_stream count_and_echo never_done (λ s. s) (whole ∷ []) closed 0
sse_response_stream-chunks_example =
    sse_response_stream-chunks count_and_echo (λ s. s) never_done chunks (whole ∷ []) closed 0
      (refl, (refl, (refl, tt))) (refl, tt) refl
