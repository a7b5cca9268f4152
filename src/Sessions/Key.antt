-- ===== src/Sessions/Key.antt =====
-- crates/sessions/src/session_key.rs and identity.rs: the key that routes a message to its session.
use serial_agent.Prelude.{
  ℕ, ◌+◌, ◌&&◌, Option, none, some, List, [], ◌∷◌, ◌++◌, map, leb, if◌then◌else◌, Bytes, bytes,
  bytes_eq, Map, get, insert, unwrap_or,
}
use serial_agent.Sessions.{
  DmScope, main, per_peer, per_channel_peer, per_account_channel_peer, InboundMetadata,
}

-- `to_ascii_lowercase`, byte by byte.
abbrev pub lower_byte : ℕ → ℕ
lower_byte b = if leb 65 b && leb b 90 then b + 32 else b

abbrev pub lowercase : Bytes → Bytes
lowercase s = map lower_byte s

-- The normalized fields, with their defaults.
abbrev pub channel_of : InboundMetadata → Bytes
channel_of meta = lowercase (unwrap_or meta.channel (bytes "default"))

abbrev pub account_of : InboundMetadata → Bytes
account_of meta = lowercase (unwrap_or meta.account_id (bytes "default"))

abbrev pub peer_of : InboundMetadata → Bytes
peer_of meta = unwrap_or meta.peer_id (bytes "unknown")

abbrev pub colon : Bytes
colon = 58 ∷ []

unfoldable pub compute_group_key : Bytes → Bytes → Option Bytes → Bytes → Bytes
compute_group_key base channel (some gid) channel_id =
    base ++ (colon ++ (channel ++ (bytes ":group:" ++ (gid ++ (colon ++ channel_id)))))
compute_group_key base channel none channel_id =
    base ++ (colon ++ (channel ++ (bytes ":group:" ++ channel_id)))

abbrev with_thread : Bytes → Option Bytes → Bytes
with_thread key none = key
with_thread key (some tid) = key ++ (bytes ":thread:" ++ tid)

abbrev pub direct_key : Bytes → DmScope → InboundMetadata → Bytes
direct_key base main meta = base ++ bytes ":main"
direct_key base per_peer meta = base ++ (bytes ":dm:" ++ peer_of meta)
direct_key base per_channel_peer meta =
    base ++ (colon ++ (channel_of meta ++ (bytes ":dm:" ++ peer_of meta)))
direct_key base per_account_channel_peer meta =
    base
    ++ (colon
        ++ (channel_of meta ++ (colon ++ (account_of meta ++ (bytes ":dm:" ++ peer_of meta)))))

abbrev pub group_key : Bytes → InboundMetadata → Bytes
unfolding compute_group_key
group_key base meta =
    with_thread
      (compute_group_key base (channel_of meta) meta.group_id
        (unwrap_or meta.channel_id (bytes "unknown_channel")))
      meta.thread_id

unfoldable pub compute_session_key : Bytes → DmScope → InboundMetadata → Bytes
compute_session_key agent_id scope meta =
    let base = bytes "agent:" ++ agent_id in
    if meta.is_direct then direct_key base scope meta else group_key base meta

-- A configured identity: its canonical name and the raw ids that stand for it.
pub record IdentityLink : Type 0 where
  pub canonical : Bytes
  pub peer_ids : List Bytes

abbrev link_peers : Bytes → List Bytes → Map Bytes Bytes → Map Bytes Bytes
link_peers canonical [] m = m
link_peers canonical (pid ∷ pids) m = link_peers canonical pids (insert pid canonical m)

-- `IdentityResolver::from_config`.
unfoldable pub from_config : List IdentityLink → Map Bytes Bytes → Map Bytes Bytes
from_config [] m = m
from_config (link ∷ links) m = from_config links (link_peers link.canonical link.peer_ids m)

-- `IdentityResolver::resolve`.
unfoldable pub resolve_identity : Map Bytes Bytes → Bytes → Bytes
resolve_identity m raw = unwrap_or (get raw m) raw
