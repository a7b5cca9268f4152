-- ===== src/Sessions.antt =====
-- crates/sessions/src: how a message is given its session key, and when a session is started anew.
-- The configuration types are those of crates/domain/src/config/sessions.rs.
pub mod Key
pub mod Isolation
pub mod Lifecycle
pub mod Boundary
pub mod Tests
use serial_agent.Prelude.{ℕ, ◌≡◌, Bool, Option, List, Bytes, Map}

pub data DmScope : Type 0 where
  main per_peer per_channel_peer per_account_channel_peer : DmScope

pub record InboundMetadata : Type 0 where
  pub channel : Option Bytes
  pub account_id : Option Bytes
  pub peer_id : Option Bytes
  pub group_id : Option Bytes
  pub channel_id : Option Bytes
  pub thread_id : Option Bytes
  pub is_direct : Bool
