-- ===== src/Providers/Fallback.antt =====
-- The order in which a role's models are tried (crates/providers/src/router.rs), against a relation
-- that goes through the wanted models one by one.
use serial_agent.Prelude.{
  ◌≡◌, ◌↔◌, refl, sym, subst, inl, inr, Bool, true, Option, none, some, List, [], ◌∷◌, map, Bytes,
  bytes_eq, Map, get, Bool-cases, if◌then◌else◌, arith,
}
use serial_agent.Providers.{
  Outcome, answered, failed, Error, LlmProvider, LlmCapabilities, FallbackConfig, RoleConfig,
  ModelRole, Call, Routed, all_failed, is_retriable, resolve_model, check_capabilities,
  check_fallback, try_fallbacks, try_one, chat_for_role, role_to_string, fallback_with,
  primary_with,
}
use serial_agent.Providers.Retriable.{IsRetriable, is_retriable_iff}
use serial_agent.Providers.Suited.{
  IsNamed, resolve_model-IsNamed, Wanted, of_fallback, of_role, wanted, IsSuited,
  check_fallback_iff, check_capabilities_iff,
}

module _ (registry : Map Bytes LlmProvider) (role : ModelRole) where
  -- The models that are wanted, in their order, lead to an outcome by these calls. A model is passed
  -- over where its provider is not registered or does not suit; where it does, it is called, and
  -- the search ends with its answer, or with an error that is not retriable.
  pub data Route : List Wanted → Outcome → List Call → Type 0 where
    exhausted : Route [] (failed (all_failed role)) []
    unknown :
        {w : Wanted} {ws : List Wanted} {o : Outcome} {calls : List Call} (id name : Bytes)
        → IsNamed w.model id name
        → get id registry ≡ none
        → Route ws o calls
        → Route (w ∷ ws) o calls
    unfit :
        {w : Wanted} {ws : List Wanted} {o : Outcome} {calls : List Call} (id name : Bytes)
        (p : LlmProvider)
        → IsNamed w.model id name
        → get id registry ≡ some p
        → ¬ IsSuited p.capabilities w
        → Route ws o calls
        → Route (w ∷ ws) o calls
    answered_by :
        {w : Wanted} {ws : List Wanted} (id name : Bytes) (p : LlmProvider) (text : Bytes)
        → IsNamed w.model id name
        → get id registry ≡ some p
        → IsSuited p.capabilities w
        → p.try_chat name ≡ answered text
        → Route (w ∷ ws) (answered text) ((id, name) ∷ [])
    refused_by :
        {w : Wanted} {ws : List Wanted} (id name : Bytes) (p : LlmProvider) (e : Error)
        → IsNamed w.model id name
        → get id registry ≡ some p
        → IsSuited p.capabilities w
        → p.try_chat name ≡ failed e
        → ¬ IsRetriable e
        → Route (w ∷ ws) (failed e) ((id, name) ∷ [])
    passed_on :
        {w : Wanted} {ws : List Wanted} {o : Outcome} {calls : List Call} (id name : Bytes)
        (p : LlmProvider) (e : Error)
        → IsNamed w.model id name
        → get id registry ≡ some p
        → IsSuited p.capabilities w
        → p.try_chat name ≡ failed e
        → IsRetriable e
        → Route ws o calls
        → Route (w ∷ ws) o ((id, name) ∷ calls)

  abbrev pub Routes : List Wanted → Routed → Type 0
  Routes ws r = Route ws r.0 r.1

  -- One model, whose provider suits.
  try_one-Routes :
      (w : Wanted) (ws : List Wanted) (p : LlmProvider) (rest : Routed) (o : Outcome)
      → get (resolve_model w.model).0 registry ≡ some p
      → IsSuited p.capabilities w
      → p.try_chat (resolve_model w.model).1 ≡ o
      → Routes ws rest
      → Routes (w ∷ ws) (try_one registry (resolve_model w.model) o rest)
  try_one-Routes w ws p rest (answered text) there suits said more =
      answered_by (resolve_model w.model).0 (resolve_model w.model).1 p text
        (resolve_model-IsNamed w.model) there suits said
  try_one-Routes w ws p rest (failed e) there suits said more =
      let named = resolve_model-IsNamed w.model in
      elim (Bool-cases (is_retriable e)) [
        | inl again ↦ rw again (
            passed_on (resolve_model w.model).0 (resolve_model w.model).1 p e named there suits said
              ((is_retriable_iff e).0 again) more)
        | inr for_good ↦ rw for_good (
            refused_by (resolve_model w.model).0 (resolve_model w.model).1 p e named there suits
              said (λ r. absurd (ground (arith, (is_retriable_iff e).1 r, for_good))))
      ]

  abbrev offered : (LlmCapabilities → Bool) → Bytes → Option LlmProvider → Routed → Routed
  offered suits model none rest = rest
  offered suits model (some p) rest =
      if suits p.capabilities
      then try_one registry (resolve_model model) (p.try_chat (resolve_model model).1) rest
      else rest

  offered-Routes :
      (suits : LlmCapabilities → Bool) (w : Wanted) (ws : List Wanted) (rest : Routed)
      (o : Option LlmProvider)
      → ((c : LlmCapabilities) → (suits c ≡ true) ↔ IsSuited c w)
      → get (resolve_model w.model).0 registry ≡ o
      → Routes ws rest
      → Routes (w ∷ ws) (offered suits w.model o rest)
  offered-Routes suits w ws rest none fits gone more =
      unknown (resolve_model w.model).0 (resolve_model w.model).1 (resolve_model-IsNamed w.model)
        gone more
  offered-Routes suits w ws rest (some p) fits there more =
      elim (Bool-cases (suits p.capabilities)) [
        | inl can ↦ rw can (
            try_one-Routes w ws p rest (p.try_chat (resolve_model w.model).1) there
              ((fits p.capabilities).0 can) refl more)
        | inr cannot ↦ rw cannot (
            unfit (resolve_model w.model).0 (resolve_model w.model).1 p
              (resolve_model-IsNamed w.model) there
              (λ s. absurd (ground (arith, (fits p.capabilities).1 s, cannot))) more)
      ]

  fallback_with-offered :
      (f : FallbackConfig) (rest : Routed) (o : Option LlmProvider)
      → fallback_with registry o f rest ≡ offered (λ c. check_fallback c f) f.model o rest
  fallback_with-offered f rest none = refl
  fallback_with-offered f rest (some p) = refl

  primary_with-offered :
      (cfg : RoleConfig) (rest : Routed) (o : Option LlmProvider)
      → primary_with registry o cfg rest ≡ offered (λ c. check_capabilities c cfg) cfg.model o rest
  primary_with-offered cfg rest none = refl
  primary_with-offered cfg rest (some p) = refl

  try_fallbacks-Routes :
      (fallbacks : List FallbackConfig)
      → Routes (map of_fallback fallbacks) (try_fallbacks registry role fallbacks)
  unfolding try_fallbacks
  try_fallbacks-Routes [] = exhausted
  try_fallbacks-Routes (f ∷ fallbacks) =
      let rest = try_fallbacks registry role fallbacks in
      let o = get (resolve_model f.model).0 registry in
      subst (Routes (of_fallback f ∷ map of_fallback fallbacks))
        (sym (fallback_with-offered f rest o))
        (offered-Routes (λ c. check_fallback c f) (of_fallback f) (map of_fallback fallbacks) rest o
          (λ c. check_fallback_iff c f) refl (try_fallbacks-Routes fallbacks))

  -- For a role with a configuration, the router goes through the role's own model and the fallbacks
  -- in their order. It calls those whose providers are registered under the part of the name before
  -- the slash and have the tools, the JSON mode and, for the first, the streaming that is asked, up
  -- to the first that answers or fails with an error that is no time-out, no error of HTTP and no
  -- report of a status from 500 on, and returns its outcome; where there is none of these, it
  -- reports that all have failed.
  pub chat_for_role_lem :
      (role_configs : Map Bytes RoleConfig) (cfg : RoleConfig)
      → get (role_to_string role) role_configs ≡ some cfg
      → Routes (wanted cfg) (chat_for_role registry role_configs role)
  unfolding chat_for_role
  chat_for_role_lem role_configs cfg there =
      let rest = try_fallbacks registry role cfg.fallbacks in
      let o = get (resolve_model cfg.model).0 registry in
      rw there (
        subst (Routes (wanted cfg)) (sym (primary_with-offered cfg rest o)) (
          offered-Routes (λ c. check_capabilities c cfg) (of_role cfg)
            (map of_fallback cfg.fallbacks) rest o (λ c. check_capabilities_iff c cfg) refl
            (try_fallbacks-Routes cfg.fallbacks)))
