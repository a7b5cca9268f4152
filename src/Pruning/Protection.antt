-- ===== src/Pruning/Protection.antt =====
-- crates/gateway/src/pruning.rs: the messages that are protected, and what pruning leaves of them.
use serial_agent.Prelude.{
  ℕ, zero, suc, ◌+◌, ◌≤◌, ◌<◌, ◌≡◌, ◌↔◌, refl, sym, ap, ◌∙◌, arith, true, Option, none, some, List,
  [], ◌∷◌, leb, if◌then◌else◌, length, get_elem?, drop, count_if, Bool-cases, inl, inr,
}
use serial_agent.Pruning.{
  Message, PruningConfig, is_assistant, assistant_at, cutoff_scan, find_protection_cutoff,
  prune_message, stays_whole, prune_from, prune_messages, ◌>>=◌,
}

count-drop :
    (i : ℕ) (ms : List Message)
    → count_if is_assistant (drop i ms)
      ≡ (if assistant_at (get_elem? ms i) then 1 else 0) + count_if is_assistant (drop (suc i) ms)
count-drop zero [] = refl
count-drop (suc i) [] = refl
count-drop zero (m ∷ ms) = ground arith
count-drop (suc i) (m ∷ ms) = count-drop i ms

count-drop-le :
    (i : ℕ) (ms : List Message) → count_if is_assistant (drop i ms) ≤ count_if is_assistant ms
count-drop-le zero ms = omega arith
count-drop-le (suc i) [] = omega arith
count-drop-le (suc i) (m ∷ ms) = ground (arith, count-drop-le i ms)

drop-length : (ms : List Message) → drop (length ms) ms ≡ []
drop-length [] = refl
drop-length (m ∷ ms) = drop-length ms

-- What is protected: the last `keep` assistant messages, or nothing where there are fewer.
abbrev protected : ℕ → List Message → ℕ
protected keep ms = if leb keep (count_if is_assistant ms) then keep else 0

cutoff_scan-count :
    (keep : ℕ) (ms : List Message) (i seen : ℕ)
    → seen < keep
    → count_if is_assistant (drop i ms) ≡ seen
    → count_if is_assistant (drop (cutoff_scan keep ms i seen) ms) ≡ protected keep ms
unfolding cutoff_scan
cutoff_scan-count keep ms zero seen room h = rw (drop-length ms) (ground (arith, h))
cutoff_scan-count keep ms (suc i) seen room h = elim (Bool-cases (assistant_at (get_elem? ms i))) [
  | inl one ↦ elim (Bool-cases (leb keep (seen + 1))) [
    | inl full ↦ rw one (rw full (ground (arith, count-drop i ms, count-drop-le i ms)))
    | inr open_ ↦ rw one (
        rw open_
          (cutoff_scan-count keep ms i (seen + 1) (ground arith) (ground (arith, count-drop i ms))))
  ]
  | inr passed ↦ rw passed (cutoff_scan-count keep ms i seen room (ground (arith, count-drop i ms)))
]

-- Where at least one assistant message is to be protected, the messages from the cutoff on hold
-- exactly as many of them where there are as many, and none at all where there are fewer.
pub find_protection_cutoff_lem :
    (messages : List Message) (keep : ℕ)
    → 0 < keep
    → count_if is_assistant (drop (find_protection_cutoff messages keep) messages)
      ≡ (if leb keep (count_if is_assistant messages) then keep else 0)
unfolding find_protection_cutoff
find_protection_cutoff_lem messages zero h = absurd (omega arith)
find_protection_cutoff_lem messages (suc k) h =
    cutoff_scan-count (suc k) messages (length messages) 0 (omega arith)
      (ap (count_if is_assistant) (drop-length messages))

both_there :
    (x : Option Message) (y : Option (List Message)) (out : List Message)
    → (x >>= λ p. y >>= λ rest. some (p ∷ rest)) ≡ some out
    → (p : Message) × (rest : List Message) × (x ≡ some p) × (y ≡ some rest) × (p ∷ rest ≡ out)
both_there none y out h = absurd (cc)
both_there (some p) none out h = absurd (cc)
both_there (some p) (some rest) out h = (p, rest, refl, refl, ground arith)

whole_after :
    (cutoff i : ℕ) (m p : Message) (config : PruningConfig) (soft hard : ℕ)
    → cutoff ≤ i
    → prune_message cutoff i m config soft hard ≡ some p
    → some p ≡ some m
unfolding prune_message stays_whole
whole_after cutoff i m p config soft hard late h =
    let whole : stays_whole cutoff i m config soft ≡ true = ground arith in
    let kept : prune_message cutoff i m config soft hard ≡ some m = rw whole refl in sym h ∙ kept

prune_from-kept :
    (cutoff i j : ℕ) (ms out : List Message) (config : PruningConfig) (soft hard : ℕ)
    → cutoff ≤ i + j
    → prune_from cutoff i ms config soft hard ≡ some out
    → (length out ≡ length ms) × (get_elem? out j ≡ get_elem? ms j)
unfolding prune_from
prune_from-kept cutoff i j [] out config soft hard late h = ground arith
prune_from-kept cutoff i zero (m ∷ ms) out config soft hard late h =
    let (p, rest, one, others, all) =
      both_there (prune_message cutoff i m config soft hard)
        (prune_from cutoff (i + 1) ms config soft hard) out h in
    let below = prune_from-kept cutoff (i + 1) 0 ms rest config soft hard (omega arith) others in
    let same = whole_after cutoff i m p config soft hard (omega arith) one in
    (sym (ap length all) ∙ ap suc below.0, sym (ap (λ l. get_elem? l 0) all) ∙ same)
prune_from-kept cutoff i (suc j) (m ∷ ms) out config soft hard late h =
    let (p, rest, one, others, all) =
      both_there (prune_message cutoff i m config soft hard)
        (prune_from cutoff (i + 1) ms config soft hard) out h in
    let below = prune_from-kept cutoff (i + 1) j ms rest config soft hard (omega arith) others in
    (sym (ap length all) ∙ ap suc below.0, sym (ap (λ l. get_elem? l (suc j)) all) ∙ below.1)

count-drop_mono :
    (a b : ℕ) (ms : List Message)
    → a ≤ b
    → count_if is_assistant (drop b ms) ≤ count_if is_assistant (drop a ms)
count-drop_mono zero b ms order = count-drop-le b ms
count-drop_mono (suc a) zero ms order = absurd (omega (arith, order))
count-drop_mono (suc a) (suc b) [] order = omega arith
count-drop_mono (suc a) (suc b) (m ∷ ms) order = count-drop_mono a b ms (omega (arith, order))

-- A message with fewer than `keep` assistant messages after it is not before the cutoff.
find_protection_cutoff-le :
    (messages : List Message) (keep j : ℕ)
    → 0 < keep
    → keep ≤ count_if is_assistant messages
    → count_if is_assistant (drop (suc j) messages) < keep
    → find_protection_cutoff messages keep ≤ j
find_protection_cutoff-le messages keep j some_ enough few =
    let cutoff = find_protection_cutoff messages keep in
    let held : count_if is_assistant (drop cutoff messages) ≡ keep =
      let full : leb keep (count_if is_assistant messages) ≡ true = ground (arith, enough) in
      find_protection_cutoff_lem messages keep some_ ∙ rw full refl in
    elim (Bool-cases (leb cutoff j)) [
      | inl at_or_after ↦ ground (arith, at_or_after)
      | inr before ↦
          let order : suc j ≤ cutoff = ground (arith, before) in
          absurd (omega (arith, held, few, count-drop_mono (suc j) cutoff messages order))
    ]

-- Where there are enough, the cutoff is at an assistant message.
cutoff_scan-assistant :
    (keep : ℕ) (ms : List Message) (i seen : ℕ)
    → seen < keep
    → count_if is_assistant (drop i ms) ≡ seen
    → keep ≤ count_if is_assistant ms
    → assistant_at (get_elem? ms (cutoff_scan keep ms i seen)) ≡ true
unfolding cutoff_scan
cutoff_scan-assistant keep ms zero seen room h enough = absurd (omega (arith, room, h, enough))
cutoff_scan-assistant keep ms (suc i) seen room h enough =
    elim (Bool-cases (assistant_at (get_elem? ms i))) [
      | inl one ↦ elim (Bool-cases (leb keep (seen + 1))) [
        | inl full ↦ rw one (rw full one)
        | inr open_ ↦ rw one (
            rw open_ (
              cutoff_scan-assistant keep ms i (seen + 1) (ground arith)
                (ground (arith, count-drop i ms)) enough))
      ]
      | inr passed ↦
          rw passed
            (cutoff_scan-assistant keep ms i seen room (ground (arith, count-drop i ms)) enough)
    ]

find_protection_cutoff-few :
    (messages : List Message) (keep j : ℕ)
    → 0 < keep
    → keep ≤ count_if is_assistant messages
    → find_protection_cutoff messages keep ≤ j
    → count_if is_assistant (drop (suc j) messages) < keep
find_protection_cutoff-few messages zero j some_ enough late = absurd (omega arith)
find_protection_cutoff-few messages (suc k) j some_ enough late =
    let cutoff = find_protection_cutoff messages (suc k) in
    let full : leb (suc k) (count_if is_assistant messages) ≡ true = ground (arith, enough) in
    let held : count_if is_assistant (drop cutoff messages) ≡ suc k =
      find_protection_cutoff_lem messages (suc k) some_ ∙ rw full refl in
    let at_one : assistant_at (get_elem? messages cutoff) ≡ true =
      unfold find_protection_cutoff in
      cutoff_scan-assistant (suc k) messages (length messages) 0 some_
        (ap (count_if is_assistant) (drop-length messages)) enough in
    let split : suc k ≡ 1 + count_if is_assistant (drop (suc cutoff) messages) =
      sym held ∙ count-drop cutoff messages ∙ rw at_one refl in
    omega (arith, split, count-drop_mono (suc cutoff) (suc j) messages (omega (arith, late)))

-- Where pruning does not panic, and there are as many assistant messages as are to be protected and
-- at least one, the messages at and after the cutoff are those with fewer than that number of
-- assistant messages after them, and each of them stays as it was; the number of messages stays.
pub prune_messages-protected :
    (messages out : List Message) (config : PruningConfig) (soft hard j : ℕ)
    → prune_messages messages config soft hard ≡ some out
    → 0 < config.keep_last_assistants
    → config.keep_last_assistants ≤ count_if is_assistant messages
    → let few = count_if is_assistant (drop (suc j) messages) < config.keep_last_assistants in
      ((find_protection_cutoff messages config.keep_last_assistants ≤ j) ↔ few)
      × ((length out ≡ length messages) × (few → get_elem? out j ≡ get_elem? messages j))
unfolding prune_messages
prune_messages-protected messages out config soft hard j h some_ enough =
    let keep = config.keep_last_assistants in
    let cutoff = find_protection_cutoff messages keep in
    (
      (
        find_protection_cutoff-few messages keep j some_ enough,
        find_protection_cutoff-le messages keep j some_ enough,
      ),
      (
        (prune_from-kept cutoff 0 cutoff messages out config soft hard (omega arith) h).0,
        λ few.
            let late = find_protection_cutoff-le messages keep j some_ enough few in
            (prune_from-kept cutoff 0 j messages out config soft hard (omega (arith, late)) h).1,
      ),
    )
