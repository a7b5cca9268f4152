-- ===== src/Providers/Tests.antt =====
-- The routers at concrete inputs.
use serial_agent.Prelude.{◌≡◌, refl, true, false, [], ◌∷◌, Bytes, bytes, bytes_eq, Map, get}
use serial_agent.Strings.{split_once}
use serial_agent.Providers.{
  LlmProvider, LlmCapabilities, none_, basic, answered, failed, timeout, planner, RoleConfig,
  chat_for_role, role_to_string, resolve_model, check_capabilities, check_fallback, is_retriable,
}
use serial_agent.Providers.Fallback.{Routes, chat_for_role_lem}
use serial_agent.Providers.Suited.{wanted}
use serial_agent.Providers.Smart.{TierConfig}

abbrev able : LlmCapabilities
able = record { supports_tools = basic; supports_streaming = true; supports_json_mode = true }

abbrev plain : LlmCapabilities
plain = record { supports_tools = none_; supports_streaming = true; supports_json_mode = false }

abbrev registry : Map Bytes LlmProvider
registry =
    (bytes "a", record { capabilities = able; try_chat = λ model. failed (timeout []) })
    ∷ (bytes "b", record { capabilities = plain; try_chat = λ model. answered model })
    ∷ []

abbrev cfg : RoleConfig
cfg = record {
  model = bytes "a/x";
  require_tools = true;
  require_json = false;
  require_streaming = false;
  fallbacks = record { model = bytes "b/y"; require_tools = false; require_json = false } ∷ [];
}

abbrev roles : Map Bytes RoleConfig
roles = (bytes "planner", cfg) ∷ []

-- A role that asks for tools is answered by a provider that has none.
no_tools_answer :
    chat_for_role registry roles planner
    ≡ (answered (bytes "y"), (bytes "a", bytes "x") ∷ (bytes "b", bytes "y") ∷ [])
unfolding chat_for_role get role_to_string resolve_model split_once check_capabilities
    check_fallback is_retriable
no_tools_answer = refl

chat_for_role_lem_example :
    Routes registry planner (wanted cfg) (chat_for_role registry roles planner)
unfolding get role_to_string
chat_for_role_lem_example = chat_for_role_lem registry planner roles cfg refl

abbrev tiers : TierConfig
tiers = record {
  simple_models = [];
  complex_models = bytes "c" ∷ [];
  reasoning_models = [];
  free_models = bytes "f" ∷ [];
}
