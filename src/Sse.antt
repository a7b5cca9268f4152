-- ===== src/Sse.antt =====
-- crates/providers/src/sse.rs: the buffer of a stream of server-sent events and the events of a
-- response. The response is the list of its chunks and how it ends; `lossy` stands for
-- `String::from_utf8_lossy`, and the parser of a provider with its state is a parameter.
mod Chunks
mod Tests
use serial_agent.Prelude.{
  ℕ, zero, suc, ◌+◌, Bool, true, false, not, ◌&&◌, ◌||◌, Option, none, some, List, [], ◌∷◌, ◌++◌,
  any, if◌then◌else◌, Bytes, bytes, eqb, length,
}
use mathlib.Core.Option
use serial_agent.Strings.{text_lines, trim, is_blank, is_empty, strip_prefix}

-- `find("\n\n")`: the text before it, and the text after it.
unfoldable pub find_break : Bytes → Option (Bytes × Bytes)
find_break [] = none
find_break (a ∷ []) = none
find_break (a ∷ b ∷ s) =
    let rest = find_break (b ∷ s) in
    if eqb a 10 && eqb b 10
    then some ([], s)
    else Option.map (λ (parts : Bytes × Bytes). (a ∷ parts.0, parts.1)) rest

abbrev payload : Option Bytes → List Bytes → List Bytes
payload none found = found
payload (some text) found = if is_empty (trim text) then found else trim text ∷ found

-- The loop over the lines of a block.
unfoldable pub data_of : List Bytes → List Bytes
data_of [] = []
data_of (line ∷ lines) = payload (strip_prefix (bytes "data:") (trim line)) (data_of lines)

-- The loop of `drain_data_lines`: the payloads, and what stays in the buffer.
unfoldable pub drain_from : ℕ → Bytes → List Bytes × Bytes
unfolding data_of text_lines
drain_from zero buffer = ([], buffer)
drain_from (suc fuel) buffer = elim (find_break buffer) [
  | none ↦ ([], buffer)
  | some (block, after) ↦
      let (found, left) = drain_from fuel after in (data_of (text_lines block) ++ found, left)
]

-- Each round takes two bytes or more off the buffer.
unfoldable pub drain_data_lines : Bytes → List Bytes × Bytes
unfolding drain_from
drain_data_lines buffer = drain_from (suc (length buffer)) buffer

-- How a response ends, and what the stream yields.
pub data End : Type 0 where
  closed : End
  broken : Bytes → End

pub data Item (Event : Type 0) : Type 0 where
  ok : Event → Item Event
  failed : Bytes → Item Event
  fallback_done : Item Event

module _ {Event : Type 0} {State : Type 0}
    (parse_data : State → Bytes → State × List (Item Event)) where
  unfoldable pub parse_all : List Bytes → State → State × List (Item Event)
  parse_all [] st = (st, [])
  parse_all (payload ∷ found) st =
      let (st', events) = parse_data st payload in
      let (last, more) = parse_all found st' in (last, events ++ more)

  -- The chunks of a response, with the buffer and the parser's state.
  unfoldable pub feed :
      (Bytes → Bytes) → List Bytes → Bytes → State → Bytes × State × List (Item Event)
  unfolding drain_data_lines parse_all
  feed lossy [] buffer st = (buffer, st, [])
  feed lossy (chunk ∷ chunks) buffer st =
      let (found, left) = drain_data_lines (buffer ++ lossy chunk) in
      let (st', events) = parse_all found st in
      let (buffer', last, more) = feed lossy chunks left st' in (buffer', last, events ++ more)

  -- What is left in the buffer when the response is closed.
  unfoldable pub flush : Bytes → State → List (Item Event)
  unfolding drain_data_lines parse_all
  flush buffer st =
      if is_blank buffer then [] else (parse_all (drain_data_lines (buffer ++ 10 ∷ 10 ∷ [])).0 st).1

  abbrev pub last_items : End → Bytes → State → List (Item Event)
  last_items closed buffer st = flush buffer st
  last_items (broken error) buffer st = failed error ∷ []

  -- `is_done` tells the event that ends a response.
  unfoldable pub sse_response_stream :
      (Item Event → Bool) → (Bytes → Bytes) → List Bytes → End → State → List (Item Event)
  unfolding feed flush
  sse_response_stream is_done lossy chunks end_ st =
      let (buffer, last, events) = feed lossy chunks [] st in
      let items = events ++ last_items end_ buffer last in
      if any is_done items then items else items ++ fallback_done ∷ []
