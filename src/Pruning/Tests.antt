-- ===== src/Pruning/Tests.antt =====
-- crates/gateway/src/pruning.rs on a conversation with one tool result.
use serial_agent.Prelude.{
  ◌≡◌, ◌≤◌, ◌<◌, ◌↔◌, drop, count_if, refl, arith, false, none, some, List, [], ◌∷◌, ◌++◌, Bytes,
  bytes, length, get_elem?,
}
use serial_agent.ContextPack.Builder.{decimal}
use serial_agent.ContextPack.{is_char_boundary}
use serial_agent.Pruning.{
  assistant, tool, user, text, Message, PruningConfig, cutoff_scan, find_protection_cutoff,
  prune_text, prune_messages, soft_trim, is_assistant,
}
use serial_agent.Pruning.Protection.{prune_messages-protected}

abbrev config : PruningConfig
config = record {
  keep_last_assistants = 1;
  min_prunable_chars = 4;
  head_chars = 2;
  tail_chars = 1;
  hard_clear_enabled = false;
  placeholder = bytes "[cleared]";
}

abbrev result_of : Bytes → Message
result_of s = record { role = tool; content = text s }

abbrev messages : List Message
messages =
    record { role = user; content = text (bytes "hi") }
    ∷ result_of (bytes "abcdef")
    ∷ record { role = assistant; content = text (bytes "ok") }
    ∷ result_of (bytes "uvwxyz")
    ∷ []

-- A trim in the middle of a two-byte character panics.
trim_panics : prune_text (97 ∷ 195 ∷ 169 ∷ 98 ∷ 99 ∷ []) config 4 100 ≡ none
unfolding prune_text soft_trim is_char_boundary
trim_panics = refl

-- With one assistant message and two to be protected, nothing is protected.
nothing_protected : find_protection_cutoff messages 2 ≡ 4
unfolding find_protection_cutoff cutoff_scan
nothing_protected = refl

abbrev trimmed_text : Bytes
trimmed_text =
    bytes "ab"
    ++ (10 ∷ 10 ∷ bytes "... [3 chars trimmed] ..."
        ++ (10 ∷ 10 ∷ bytes "f" ++ (10 ∷ bytes "(original size: 6 chars)")))

abbrev pruned : List Message
pruned =
    record { role = user; content = text (bytes "hi") }
    ∷ result_of trimmed_text
    ∷ record { role = assistant; content = text (bytes "ok") }
    ∷ result_of (bytes "uvwxyz")
    ∷ []

was_pruned : prune_messages messages config 4 100 ≡ some pruned
unfolding decimal prune_messages
was_pruned = refl

prune_messages-protected_example :
    let few = count_if is_assistant (drop 4 messages) < 1 in
    ((find_protection_cutoff messages 1 ≤ 3) ↔ few)
    × ((length pruned ≡ length messages) × (few → get_elem? pruned 3 ≡ get_elem? messages 3))
prune_messages-protected_example =
    prune_messages-protected messages pruned config 4 100 3 was_pruned (omega arith) (omega arith)
