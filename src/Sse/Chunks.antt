-- ===== src/Sse/Chunks.antt =====
-- The events of a response do not depend on how it was cut into chunks
-- (crates/providers/src/sse.rs).
use serial_agent.Prelude.{
  ℕ, zero, suc, ◌+◌, ◌≤◌, ◌<◌, ◌≡◌, refl, sym, ap, ◌∙◌, inl, inr, Bool, ◌&&◌, none, some, List, [],
  ◌∷◌, ◌++◌, arith, if◌then◌else◌, Bytes, eqb, length, length-append, Bool-cases, Option-cases, any,
  All,
}
use mathlib.Core.List.{append_assoc, append-nil}
use serial_agent.Strings.{text_lines}
use serial_agent.Sse.{
  find_break, data_of, drain_from, drain_data_lines, parse_all, feed, sse_response_stream, Item,
  End, last_items, fallback_done,
}

-- A break that is there stays the first one when more bytes follow.
find_break-append :
    (s t block after : Bytes)
    → find_break s ≡ some (block, after)
    → find_break (s ++ t) ≡ some (block, after ++ t)
unfolding find_break
find_break-append [] t block after e = cc
find_break-append (a ∷ []) t block after e = cc
find_break-append (a ∷ b ∷ s) t block after e = elim (Bool-cases (eqb a 10 && eqb b 10)) [
  | inl here ↦ ground (arith, here, e)
  | inr later ↦ elim (Option-cases (find_break (b ∷ s))) [
    | inl nowhere ↦ absurd (ground (arith, later, nowhere, e))
    | inr (parts, found) ↦
        ground (arith, later, found, e, find_break-append (b ∷ s) t parts.0 parts.1 found)
  ]
]

length-find_break :
    (s block after : Bytes) → find_break s ≡ some (block, after) → length after + 2 ≤ length s
unfolding find_break
length-find_break [] block after e = cc
length-find_break (a ∷ []) block after e = cc
length-find_break (a ∷ b ∷ s) block after e = elim (Bool-cases (eqb a 10 && eqb b 10)) [
  | inl here ↦ ground (arith, here, e)
  | inr later ↦ elim (Option-cases (find_break (b ∷ s))) [
    | inl nowhere ↦ absurd (ground (arith, later, nowhere, e))
    | inr (parts, found) ↦
        ground (arith, later, found, e, length-find_break (b ∷ s) parts.0 parts.1 found)
  ]
]

-- One round of the loop.
abbrev Drained : Type 0
Drained = List Bytes × Bytes

abbrev after_block : Bytes → Drained → Drained
after_block block r = (data_of (text_lines block) ++ r.0, r.1)

drain_from-none : (f : ℕ) (s : Bytes) → find_break s ≡ none → drain_from (suc f) s ≡ ([], s)
unfolding drain_from
drain_from-none f s whole = rw (whole, drain_from) refl

drain_from-some :
    (f : ℕ) (s block after : Bytes)
    → find_break s ≡ some (block, after)
    → drain_from (suc f) s ≡ after_block block (drain_from f after)
unfolding drain_from
drain_from-some f s block after found = rw (found, drain_from) refl

-- Fuel past the length of the buffer changes nothing.
drain_from_fuel :
    (f g : ℕ) (s : Bytes) → length s < f → length s < g → drain_from f s ≡ drain_from g s
drain_from_fuel zero g s hf hg = absurd (omega arith)
drain_from_fuel (suc f) zero s hf hg = absurd (omega arith)
drain_from_fuel (suc f) (suc g) s hf hg = elim (Option-cases (find_break s)) [
  | inl whole ↦ drain_from-none f s whole ∙ sym (drain_from-none g s whole)
  | inr ((block, after), found) ↦
      let shorter = length-find_break s block after found in
      drain_from-some f s block after found
      ∙ ap (after_block block)
          (drain_from_fuel f g after (omega (arith, shorter)) (omega (arith, shorter)))
      ∙ sym (drain_from-some g s block after found)
]

length-drain_from : (f : ℕ) (s : Bytes) → length (drain_from f s).1 ≤ length s
unfolding drain_from
length-drain_from zero s = omega arith
length-drain_from (suc f) s = elim (Option-cases (find_break s)) [
  | inl whole ↦ rw (whole, drain_from) (omega arith)
  | inr ((block, after), found) ↦
      rw (found, drain_from)
        (omega (arith, length-drain_from f after, length-find_break s block after found))
]

-- What is drained of a text goes before what is drained of the rest with more bytes after it.
abbrev then_more : ℕ → Bytes → Drained → Drained
then_more g t r = (r.0 ++ (drain_from g (r.1 ++ t)).0, (drain_from g (r.1 ++ t)).1)

drain_from-append :
    (f g : ℕ) (s t : Bytes)
    → length s < f
    → length s + length t < g
    → drain_from g (s ++ t) ≡ then_more g t (drain_from f s)
drain_from-append zero g s t hf hg = absurd (omega arith)
drain_from-append (suc f) zero s t hf hg = absurd (omega arith)
drain_from-append (suc f) (suc g) s t hf hg = elim (Option-cases (find_break s)) [
  | inl whole ↦ sym (ap (then_more (suc g) t) (drain_from-none f s whole))
  | inr ((block, after), found) ↦
      let shorter = length-find_break s block after found in
      let r = drain_from f after in
      let left = length-drain_from f after in
      let more : drain_from g (r.1 ++ t) ≡ drain_from (suc g) (r.1 ++ t) =
        drain_from_fuel g (suc g) (r.1 ++ t) (omega (arith, shorter, left, length-append r.1 t))
          (omega (arith, shorter, left, length-append r.1 t)) in
      drain_from-some g (s ++ t) block (after ++ t) (find_break-append s t block after found)
      ∙ ap (after_block block)
          (drain_from-append f g after t (omega (arith, shorter)) (omega (arith, shorter)))
      ∙ ap (λ (d : Drained). (data_of (text_lines block) ++ (r.0 ++ d.0), d.1)) more
      ∙ ap (λ (found_all : List Bytes). (found_all, (drain_from (suc g) (r.1 ++ t)).1))
          (sym (append_assoc (data_of (text_lines block)) r.0 (drain_from (suc g) (r.1 ++ t)).0))
      ∙ sym (ap (then_more (suc g) t) (drain_from-some f s block after found))
]

drain_data_lines-append :
    (s t : Bytes)
    → drain_data_lines (s ++ t) ≡ (
      (drain_data_lines s).0 ++ (drain_data_lines ((drain_data_lines s).1 ++ t)).0,
      (drain_data_lines ((drain_data_lines s).1 ++ t)).1,
    )
unfolding drain_data_lines
drain_data_lines-append s t =
    let g = suc (length (s ++ t)) in
    let r = drain_from (suc (length s)) s in
    let left = length-drain_from (suc (length s)) s in
    drain_from-append (suc (length s)) g s t (omega arith) (omega (arith, length-append s t))
    ∙ ap (λ (d : Drained). (r.0 ++ d.0, d.1))
        (drain_from_fuel g (suc (length (r.1 ++ t))) (r.1 ++ t)
          (omega (arith, left, length-append r.1 t, length-append s t)) (omega arith))

left_has_no_break : (f : ℕ) (s : Bytes) → length s < f → find_break (drain_from f s).1 ≡ none
unfolding drain_from
left_has_no_break zero s h = absurd (omega arith)
left_has_no_break (suc f) s h = elim (Option-cases (find_break s)) [
  | inl whole ↦ rw (whole, drain_from) whole
  | inr ((block, after), found) ↦
      rw (found, drain_from)
        (left_has_no_break f after (omega (arith, length-find_break s block after found)))
]

drain_data_lines-none : (s : Bytes) → find_break s ≡ none → drain_data_lines s ≡ ([], s)
unfolding drain_data_lines
drain_data_lines-none s whole = drain_from-none (length s) s whole

abbrev pub concat : List Bytes → Bytes
concat [] = []
concat (chunk ∷ chunks) = chunk ++ concat chunks

module _ {Event : Type 0} {State : Type 0} (parse : State → Bytes → State × List (Item Event)) where
  parse_all-append :
      (found more : List Bytes) (st : State)
      → parse_all parse (found ++ more) st ≡ (
        (parse_all parse more (parse_all parse found st).0).0,
        (parse_all parse found st).1 ++ (parse_all parse more (parse_all parse found st).0).1,
      )
  unfolding parse_all
  parse_all-append [] more st = refl
  parse_all-append (payload ∷ found) more st =
      let first = parse st payload in
      let middle = parse_all parse found first.0 in
      let last = parse_all parse more middle.0 in
      ap (λ (r : State × List (Item Event)). (r.0, first.1 ++ r.1))
        (parse_all-append found more first.0)
      ∙ ap (λ (items : List (Item Event)). (last.0, items))
          (sym (append_assoc first.1 middle.1 last.1))

  abbrev Fed : Type 0
  Fed = Bytes × State × List (Item Event)

  -- A whole text, drained and parsed at once.
  abbrev at_once : State → List Bytes × Bytes → Fed
  at_once st drained =
      (drained.1, (parse_all parse drained.0 st).0, (parse_all parse drained.0 st).1)

  module _ (lossy : Bytes → Bytes) where
    feed-at_once :
        (chunks : List Bytes) (buffer : Bytes) (st : State)
        → All (λ chunk. lossy chunk ≡ chunk) chunks
        → find_break buffer ≡ none
        → feed parse lossy chunks buffer st
          ≡ at_once st (drain_data_lines (buffer ++ concat chunks))
    unfolding feed
    feed-at_once [] buffer st clean whole = sym (
        ap (λ s. at_once st (drain_data_lines s)) (append-nil buffer)
        ∙ ap (at_once st) (drain_data_lines-none buffer whole)
        ∙ unfold parse_all in refl)
    feed-at_once (chunk ∷ chunks) buffer st clean whole =
        let s = buffer ++ chunk in
        let drained = drain_data_lines s in
        let parsed = parse_all parse drained.0 st in
        let no_break : find_break drained.1 ≡ none =
          unfold drain_data_lines in left_has_no_break (suc (length s)) s (omega arith) in
        let more = drain_data_lines (drained.1 ++ concat chunks) in
        rw clean.0 (
          ap (λ (r : Fed). (r.0, r.1, parsed.1 ++ r.2))
            (feed-at_once chunks drained.1 parsed.0 clean.1 no_break)
          ∙ sym (
              ap (λ text. at_once st (drain_data_lines text))
                (sym (append_assoc buffer chunk (concat chunks)))
              ∙ ap (at_once st) (drain_data_lines-append s (concat chunks))
              ∙ ap (λ (r : State × List (Item Event)). (more.1, r.0, r.1))
                  (parse_all-append drained.0 more.0 st)))

    -- However a response is cut into chunks, as long as each chunk is whole UTF-8, the stream of its
    -- events is the same, whatever the provider makes of the payloads and however it ends.
    pub sse_response_stream-chunks :
        (is_done : Item Event → Bool) (chunks others : List Bytes) (end_ : End) (st : State)
        → All (λ chunk. lossy chunk ≡ chunk) chunks
        → All (λ chunk. lossy chunk ≡ chunk) others
        → concat chunks ≡ concat others
        → sse_response_stream parse is_done lossy chunks end_ st
          ≡ sse_response_stream parse is_done lossy others end_ st
    unfolding sse_response_stream find_break
    sse_response_stream-chunks is_done chunks others end_ st clean clean' same =
        ap
          (λ (r : Fed).
            let items = r.2 ++ last_items parse end_ r.0 r.1 in
            if any is_done items then items else items ++ fallback_done ∷ [])
          (feed-at_once chunks [] st clean refl
            ∙ ap (λ s. at_once st (drain_data_lines s)) same
            ∙ sym (feed-at_once others [] st clean' refl))
