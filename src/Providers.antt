-- ===== src/Providers.antt =====
-- crates/providers/src/router.rs: the model that answers for a role, and the models that it falls
-- back on. A provider is what it can do and how it answers to a model's name: a call of its HTTP
-- API, with the time-out of the router already applied.
pub mod Smart
mod Retriable
mod Suited
mod Fallback
mod Tests
use serial_agent.Prelude.{
  ℕ, Bool, true, false, not, ◌&&◌, ◌||◌, Option, none, some, List, [], ◌∷◌, ◌++◌, if◌then◌else◌,
  Bytes, bytes, bytes_beq, bytes_eq, eqb, Map, get,
}
use serial_agent.Strings.{split_once, strip_prefix}

pub data ToolSupport : Type 0 where
  none_ basic strict_json : ToolSupport

pub record LlmCapabilities : Type 0 where
  pub supports_tools : ToolSupport
  pub supports_streaming : Bool
  pub supports_json_mode : Bool

pub data Error : Type 0 where
  io json http timeout : Bytes → Error
  provider : Bytes → Bytes → Error
  serial_memory skill_not_found config auth other : Bytes → Error

-- A response is the bytes of its content.
pub data Outcome : Type 0 where
  answered : Bytes → Outcome
  failed : Error → Outcome

pub record LlmProvider : Type 0 where
  pub capabilities : LlmCapabilities
  pub try_chat : Bytes → Outcome

pub record FallbackConfig : Type 0 where
  pub model : Bytes
  pub require_tools : Bool
  pub require_json : Bool

pub record RoleConfig : Type 0 where
  pub model : Bytes
  pub require_tools : Bool
  pub require_json : Bool
  pub require_streaming : Bool
  pub fallbacks : List FallbackConfig

pub data ModelRole : Type 0 where
  planner executor summarizer embedder : ModelRole

unfoldable pub role_to_string : ModelRole → Bytes
role_to_string planner = bytes "planner"
role_to_string executor = bytes "executor"
role_to_string summarizer = bytes "summarizer"
role_to_string embedder = bytes "embedder"

abbrev pair_or : Bytes → Option (Bytes × Bytes) → Bytes × Bytes
pair_or text none = (text, [])
pair_or text (some parts) = parts

-- "provider_id/model_name".
unfoldable pub resolve_model : Bytes → Bytes × Bytes
resolve_model model_str = pair_or model_str (split_once 47 model_str)

abbrev pub no_tools : LlmCapabilities → Bool
no_tools cap_ = elim cap_.supports_tools [ none_ ↦ true | basic ↦ false | strict_json ↦ false ]

unfoldable pub check_capabilities : LlmCapabilities → RoleConfig → Bool
check_capabilities cap_ role =
    if role.require_tools && no_tools cap_
    then false
    else if role.require_json && not cap_.supports_json_mode
    then false
    else if role.require_streaming && not cap_.supports_streaming
    then false
    else true

-- The two tests before a fallback is tried.
unfoldable pub check_fallback : LlmCapabilities → FallbackConfig → Bool
check_fallback cap_ fallback =
    if fallback.require_tools && no_tools cap_
    then false
    else if fallback.require_json && not cap_.supports_json_mode
    then false
    else true

abbrev pub is_there : Option Bytes → Bool
is_there none = false
is_there (some rest) = true

-- `contains`.
unfoldable pub contains : Bytes → Bytes → Bool
contains needle [] = is_there (strip_prefix needle [])
contains needle (b ∷ s) = is_there (strip_prefix needle (b ∷ s)) || contains needle s

-- Time-outs, HTTP errors, and what a provider reports as a 5xx.
unfoldable pub is_retriable : Error → Bool
unfolding contains
is_retriable (timeout message) = true
is_retriable (http message) = true
is_retriable (provider name message) =
    contains (bytes "HTTP 5") message
    || (contains (bytes "HTTP 502") message
        || (contains (bytes "HTTP 503") message
            || (contains (bytes "HTTP 504") message
                || (contains (bytes "HTTP 500") message || contains (bytes "HTTP 529") message))))
is_retriable (io message) = false
is_retriable (json message) = false
is_retriable (serial_memory message) = false
is_retriable (skill_not_found message) = false
is_retriable (config message) = false
is_retriable (auth message) = false
is_retriable (other message) = false

-- What a router returns, with the calls that it made, first to last.
abbrev pub Call : Type 0
Call = Bytes × Bytes

abbrev pub Routed : Type 0
Routed = Outcome × List Call

abbrev pub called : Call → Routed → Routed
called call r = (r.0, call ∷ r.1)

abbrev pub all_failed : ModelRole → Error
all_failed role =
    provider (bytes "router") (
      bytes "all models for role '"
      ++ (role_to_string role ++ bytes "' failed or were unavailable"))

-- An answer and an error that cannot be retried end the search.
abbrev pub ends : Outcome → Bool
ends (answered text) = true
ends (failed error) = not (is_retriable error)

module _ (registry : Map Bytes LlmProvider) where
  abbrev pub try_one : Call → Outcome → Routed → Routed
  try_one call outcome rest = called call (if ends outcome then (outcome, []) else rest)

  abbrev fallback_with : Option LlmProvider → FallbackConfig → Routed → Routed
  fallback_with none fallback rest = rest
  fallback_with (some p) fallback rest =
      if check_fallback p.capabilities fallback
      then try_one (resolve_model fallback.model) (p.try_chat (resolve_model fallback.model).1) rest
      else rest

  -- The loop over the fallbacks; a call of the next one is made only where this one was skipped or
  -- failed.
  unfoldable pub try_fallbacks : ModelRole → List FallbackConfig → Routed
  try_fallbacks role [] = (failed (all_failed role), [])
  try_fallbacks role (fallback ∷ fallbacks) =
      fallback_with (get (resolve_model fallback.model).0 registry) fallback
        (try_fallbacks role fallbacks)

  abbrev primary_with : Option LlmProvider → RoleConfig → Routed → Routed
  primary_with none role rest = rest
  primary_with (some p) role rest =
      if check_capabilities p.capabilities role
      then try_one (resolve_model role.model) (p.try_chat (resolve_model role.model).1) rest
      else rest

  abbrev chat_with : ModelRole → Option RoleConfig → Routed
  chat_with role none =
      (failed (config (bytes "no role config for '" ++ (role_to_string role ++ bytes "'"))), [])
  chat_with role (some cfg) =
      primary_with (get (resolve_model cfg.model).0 registry) cfg (try_fallbacks role cfg.fallbacks)

  unfoldable pub chat_for_role : Map Bytes RoleConfig → ModelRole → Routed
  unfolding try_fallbacks
  chat_for_role role_configs role = chat_with role (get (role_to_string role) role_configs)
