-- ===== src/Compaction/Split.antt =====
-- crates/gateway/src/runtime/compact.rs, `split_for_compaction`: the lines to compact and to keep.
use serial_agent.Prelude.{
  ℕ, zero, suc, ◌+◌, ◌≤◌, ◌<◌, ◌≡◌, refl, ap, arith, Bool, List, [], ◌∷◌, ◌++◌, leb, min,
  if◌then◌else◌, length, get_elem?, take, drop, count_if, Bool-cases, inl, inr,
}
use serial_agent.Compaction.{
  TranscriptLine, is_user, holds_at, keep_scan, active_start, split_for_compaction,
}

count-drop :
    (p : TranscriptLine → Bool) (i : ℕ) (ls : List TranscriptLine)
    → count_if p (drop i ls)
      ≡ (if holds_at p (get_elem? ls i) then 1 else 0) + count_if p (drop (suc i) ls)
count-drop p zero [] = refl
count-drop p (suc i) [] = refl
count-drop p zero (l ∷ ls) = ground arith
count-drop p (suc i) (l ∷ ls) = count-drop p i ls

count-drop-le :
    (p : TranscriptLine → Bool) (i : ℕ) (ls : List TranscriptLine)
    → count_if p (drop i ls) ≤ count_if p ls
count-drop-le p zero ls = omega arith
count-drop-le p (suc i) [] = omega arith
count-drop-le p (suc i) (l ∷ ls) = ground (arith, count-drop-le p i ls)

keep_scan-count :
    (keep : ℕ) (active : List TranscriptLine) (i c : ℕ)
    → c < keep
    → count_if is_user (drop i active) ≡ c
    → count_if is_user (drop (keep_scan keep active i c) active)
      ≡ min keep (count_if is_user active)
unfolding keep_scan
keep_scan-count keep active zero c room h = omega (arith, h)
keep_scan-count keep active (suc i) c room h =
    elim (Bool-cases (holds_at is_user (get_elem? active i))) [
      | inl user ↦
          let more = count-drop is_user i active in
          elim (Bool-cases (leb keep (c + 1))) [
            | inl full ↦ rw user (rw full (ground (arith, more, count-drop-le is_user i active)))
            | inr open_ ↦ rw user (
                rw open_
                  (keep_scan-count keep active i (c + 1) (ground arith) (ground (arith, more))))
          ]
      | inr not_user ↦
          rw not_user
            (keep_scan-count keep active i c room (ground (arith, count-drop is_user i active)))
    ]

take-append-drop : (n : ℕ) (ls : List TranscriptLine) → take n ls ++ drop n ls ≡ ls
take-append-drop zero ls = refl
take-append-drop (suc n) [] = refl
take-append-drop (suc n) (l ∷ ls) = ap (◌∷◌ l) (take-append-drop n ls)

-- The two parts are the active lines, and the lines to keep hold the last `keep_last_turns` user
-- messages, or all there are, where at least one is to be kept.
pub split_for_compaction_lem :
    (lines : List TranscriptLine) (keep_last_turns : ℕ)
    → 0 < keep_last_turns
    → let (to_compact, to_keep) = split_for_compaction lines keep_last_turns in
      let active = drop (active_start lines) lines in
      (to_compact ++ to_keep ≡ active)
      × (count_if is_user to_keep ≡ min keep_last_turns (count_if is_user active))
unfolding split_for_compaction
split_for_compaction_lem lines keep_last_turns some_turn =
    let active = drop (active_start lines) lines in
    (
      take-append-drop (keep_scan keep_last_turns active (length active) 0) active,
      keep_scan-count keep_last_turns active (length active) 0 some_turn
          (ap (count_if is_user) (drop-length active)),
    )
  where
    drop-length : (ls : List TranscriptLine) → drop (length ls) ls ≡ []
    drop-length [] = refl
    drop-length (l ∷ ls) = drop-length ls
