-- ===== src/Pruning.antt =====
-- crates/gateway/src/pruning.rs: oversized tool results are cut down before a request to the model.
-- The two thresholds, products of floating-point numbers in the code, are arguments. `none` stands
-- for the panic of a slice that is not at a character boundary.
pub mod Protection
pub mod Tests
use serial_agent.Prelude.{
  ℕ, zero, suc, ◌+◌, ◌-◌, Bool, true, false, not, ◌&&◌, ◌||◌, Option, none, some, List, [], ◌∷◌,
  ◌++◌, ltb, leb, min, if◌then◌else◌, Bytes, bytes, length, get_elem?, take, drop, any,
}
use serial_agent.ContextPack.{is_char_boundary}
use serial_agent.ContextPack.Builder.{decimal}

-- A panic ends all that was to follow.
infixl 20 ◌>>=◌
abbrev pub ◌>>=◌ {ℓ ℓ'} : {A : Type ℓ} {B : Type ℓ'} → Option A → (A → Option B) → Option B
none >>= next = none
some a >>= next = next a

pub data Role : Type 0 where
  system user assistant tool : Role

-- The fields that pruning does not read are the bytes of their JSON.
pub data ContentPart : Type 0 where
  text_part : Bytes → ContentPart
  tool_use : Bytes → ContentPart
  tool_result : Bytes → Bytes → Bool → ContentPart
  image : Bytes → ContentPart

pub data MessageContent : Type 0 where
  text : Bytes → MessageContent
  parts : List ContentPart → MessageContent

pub record Message : Type 0 where
  pub role : Role
  pub content : MessageContent

-- The fields of the configuration that are read here.
pub record PruningConfig : Type 0 where
  pub keep_last_assistants : ℕ
  pub min_prunable_chars : ℕ
  pub head_chars : ℕ
  pub tail_chars : ℕ
  pub hard_clear_enabled : Bool
  pub placeholder : Bytes

abbrev is_tool : Role → Bool
is_tool tool = true
is_tool _ = false

abbrev pub is_assistant : Message → Bool
is_assistant m = by_role m.role
  where
    by_role : Role → Bool
    by_role assistant = true
    by_role _ = false

abbrev pub assistant_at : Option Message → Bool
assistant_at none = false
assistant_at (some m) = is_assistant m

-- The loop from the end of `find_protection_cutoff`; where it runs out the result is the length.
unfoldable pub cutoff_scan : ℕ → List Message → ℕ → ℕ → ℕ
cutoff_scan keep messages zero seen = length messages
cutoff_scan keep messages (suc i) seen =
    let counting = cutoff_scan keep messages i (seen + 1) in
    let passing = cutoff_scan keep messages i seen in
    if assistant_at (get_elem? messages i)
    then if leb keep (seen + 1) then i else counting
    else passing

unfoldable pub find_protection_cutoff : List Message → ℕ → ℕ
unfolding cutoff_scan
find_protection_cutoff messages zero = length messages
find_protection_cutoff messages (suc k) = cutoff_scan (suc k) messages (length messages) 0

abbrev oversized : ℕ → ℕ → Bytes → Bool
oversized min_chars soft s = leb min_chars (length s) && leb soft (length s)

abbrev oversized_part : ℕ → ℕ → ContentPart → Bool
oversized_part min_chars soft (tool_result id s e) = oversized min_chars soft s
oversized_part min_chars soft _ = false

unfoldable pub needs_pruning : MessageContent → ℕ → ℕ → Bool
needs_pruning (text s) min_chars soft = oversized min_chars soft s
needs_pruning (parts ps) min_chars soft = any (oversized_part min_chars soft) ps

abbrev is_image : ContentPart → Bool
is_image (image json) = true
is_image _ = false

unfoldable pub contains_image : MessageContent → Bool
contains_image (text s) = false
contains_image (parts ps) = any is_image ps

abbrev size_note : Bytes → ℕ → Bytes
size_note before len = before ++ (10 ∷ bytes "(original size: " ++ (decimal len ++ bytes " chars)"))

abbrev trimmed : Bytes → ℕ → ℕ → Bytes
trimmed s head tail =
    size_note
      (take head s
        ++ (10 ∷ 10 ∷ bytes "... ["
            ++ (decimal (length s - head - tail)
                ++ (bytes " chars trimmed] ..." ++ 10 ∷ 10 ∷ drop (length s - tail) s))))
      (length s)

-- The slices `text[..head]` and `text[len - tail..]`.
abbrev soft_trim : Bytes → ℕ → ℕ → Option Bytes
unfolding is_char_boundary
soft_trim s head tail =
    if is_char_boundary s head && is_char_boundary s (length s - tail)
    then some (trimmed s head tail)
    else none

unfoldable pub prune_text : Bytes → PruningConfig → ℕ → ℕ → Option Bytes
unfolding soft_trim
prune_text s config soft hard =
    let len = length s in
    let head = min config.head_chars len in
    if ltb len config.min_prunable_chars
    then some s
    else if config.hard_clear_enabled && leb hard len
    then some (size_note config.placeholder len)
    else if leb soft len
    then soft_trim s head (min config.tail_chars (len - head))
    else some s

abbrev prune_part : ContentPart → PruningConfig → ℕ → ℕ → Option ContentPart
unfolding prune_text
prune_part (tool_result id s e) config soft hard = do
  pruned ← prune_text s config soft hard
  some (tool_result id pruned e)
prune_part other config soft hard = some other

unfoldable pub prune_parts : List ContentPart → PruningConfig → ℕ → ℕ → Option (List ContentPart)
unfolding prune_part
prune_parts [] config soft hard = some []
prune_parts (p ∷ ps) config soft hard = do
  pruned ← prune_part p config soft hard
  rest ← prune_parts ps config soft hard
  some (pruned ∷ rest)

unfoldable pub prune_tool_content : MessageContent → PruningConfig → ℕ → ℕ → Option MessageContent
unfolding prune_text prune_parts
prune_tool_content (text s) config soft hard = do
  pruned ← prune_text s config soft hard
  some (text pruned)
prune_tool_content (parts ps) config soft hard = do
  pruned ← prune_parts ps config soft hard
  some (parts pruned)

-- The loop of `prune_messages`, from the message with number `i`.
abbrev stays_whole : ℕ → ℕ → Message → PruningConfig → ℕ → Bool
unfolding contains_image needs_pruning
stays_whole cutoff i m config soft =
    (not (is_tool m.role) || leb cutoff i)
    || (contains_image m.content || not (needs_pruning m.content config.min_prunable_chars soft))

abbrev pub pruned_message : Message → PruningConfig → ℕ → ℕ → Option Message
unfolding prune_tool_content
pruned_message m config soft hard = do
  content ← prune_tool_content m.content config soft hard
  some (record { role = m.role; content = content })

abbrev pub prune_message : ℕ → ℕ → Message → PruningConfig → ℕ → ℕ → Option Message
unfolding stays_whole pruned_message
prune_message cutoff i m config soft hard =
    if stays_whole cutoff i m config soft then some m else pruned_message m config soft hard

unfoldable pub prune_from : ℕ → ℕ → List Message → PruningConfig → ℕ → ℕ → Option (List Message)
unfolding prune_message
prune_from cutoff i [] config soft hard = some []
prune_from cutoff i (m ∷ ms) config soft hard = do
  pruned ← prune_message cutoff i m config soft hard
  rest ← prune_from cutoff (i + 1) ms config soft hard
  some (pruned ∷ rest)

unfoldable pub prune_messages : List Message → PruningConfig → ℕ → ℕ → Option (List Message)
unfolding prune_from find_protection_cutoff
prune_messages messages config soft hard =
    prune_from (find_protection_cutoff messages config.keep_last_assistants) 0 messages config soft
      hard
