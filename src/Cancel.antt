-- ===== src/Cancel.antt =====
-- crates/gateway/src/runtime/cancel.rs: cancel tokens per session, and the groups through which a
-- stop reaches the children. A token is shared: the map holds its number, and the store of flags
-- holds its value for every holder.
pub mod Tests
pub mod Cascade
use serial_agent.Prelude.{
  ℕ, suc, ◌+◌, ◌≡◌, Bool, true, false, not, ◌||◌, Option, none, some, List, [], ◌∷◌, eqb,
  if◌then◌else◌, is_some, Bytes, bytes_beq, bytes_eq, any, keep_if, Map, get, insert, remove,
  unwrap_or,
}

pub record CancelMap : Type 0 where
  pub tokens : Map Bytes ℕ
  pub groups : Map Bytes (List Bytes)
  pub flags : ℕ → Bool
  pub next : ℕ

unfoldable pub new_map : CancelMap
new_map = record { tokens = []; groups = []; flags = λ _. false; next = 0 }

abbrev pub is_cancelled : CancelMap → ℕ → Bool
is_cancelled m t = m.flags t

abbrev pub set_flag : ℕ → (ℕ → Bool) → ℕ → Bool
set_flag t flags u = eqb t u || flags u

-- `CancelMap::register`: a new token, in place of any that the session had.
unfoldable pub register_token : Bytes → CancelMap → CancelMap × ℕ
register_token key m = (
  record m {
    tokens = insert key m.next m.tokens;
    flags = λ t. if eqb t m.next then false else m.flags t;
    next = m.next + 1;
  },
  m.next,
)

abbrev cancel_token : Option ℕ → CancelMap → CancelMap
cancel_token none m = m
cancel_token (some t) m = record m { flags = set_flag t m.flags }

abbrev cancel_keys : List Bytes → CancelMap → CancelMap
cancel_keys [] m = m
cancel_keys (key ∷ keys) m = cancel_keys keys (cancel_token (get key m.tokens) m)

-- `CancelMap::cancel`: the session's token and those of its children; whether there was one.
unfoldable pub cancel : Bytes → CancelMap → CancelMap × Bool
cancel key m =
    let found = is_some (get key m.tokens) in
    let own = cancel_token (get key m.tokens) m in
    (cancel_keys (unwrap_or (get key own.groups) []) own, found)

unfoldable pub remove_token : Bytes → CancelMap → CancelMap
remove_token key m = record m { tokens = remove key m.tokens; groups = remove key m.groups }

unfoldable pub is_running : Bytes → CancelMap → Bool
is_running key m = is_some (get key m.tokens)

-- A set of keys as a list without repeats.
abbrev add_key : Bytes → List Bytes → List Bytes
add_key key keys = if any (λ k. bytes_beq k key) keys then keys else key ∷ keys

unfoldable pub add_to_group : Bytes → Bytes → CancelMap → CancelMap
add_to_group parent child m = record m {
  groups = insert parent (add_key child (unwrap_or (get parent m.groups) [])) m.groups;
}

abbrev is_empty : List Bytes → Bool
is_empty [] = true
is_empty (k ∷ ks) = false

abbrev shrink : Bytes → Bytes → Option (List Bytes) → CancelMap → CancelMap
shrink parent child none m = m
shrink parent child (some keys) m =
    let rest = keep_if (λ k. not (bytes_beq k child)) keys in
    record m {
      groups = if is_empty rest then remove parent m.groups else insert parent rest m.groups;
    }

unfoldable pub remove_from_group : Bytes → Bytes → CancelMap → CancelMap
remove_from_group parent child m = shrink parent child (get parent m.groups) m
