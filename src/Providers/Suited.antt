-- ===== src/Providers/Suited.antt =====
-- What a model is wanted for, and the provider that its name stands for
-- (crates/providers/src/router.rs).
use serial_agent.Prelude.{
  ℕ, ◌≡◌, ◌≢◌, ◌↔◌, ◌⊎◌, inl, inr, refl, ap, Bool, true, false, ◌&&◌, none, some, List, [], ◌∷◌,
  ◌++◌, Bytes, eqb, eqb_iff, arith, Bool-cases, map,
}
use serial_agent.Strings.{split_once}
use serial_agent.Strings.Pieces.{Lacks}
use serial_agent.Providers.{
  ToolSupport, none_, basic, strict_json, LlmCapabilities, FallbackConfig, RoleConfig,
  resolve_model, check_capabilities, check_fallback, no_tools,
}

-- The name of a model up to its first slash is that of the provider, and the rest is the model's;
-- with no slash it is all the provider's.
abbrev pub IsNamed : Bytes → Bytes → Bytes → Type 0
IsNamed model id name =
    (Lacks 47 id × (model ≡ id ++ 47 ∷ name)) ⊎ (Lacks 47 model × (id ≡ model) × (name ≡ []))

split_once-cases :
    (c : ℕ) (s : Bytes)
    → ((split_once c s ≡ none) × Lacks c s)
      ⊎ ((a : Bytes) × (t : Bytes) × (split_once c s ≡ some (a, t)) × Lacks c a × (s ≡ a ++ c ∷ t))
unfolding split_once
split_once-cases c [] = inl (refl, tt)
split_once-cases c (b ∷ s) = elim (Bool-cases (eqb b c)) [
  | inl same ↦ inr ([], s, rw same refl, tt, ap (λ x. x ∷ s) ((eqb_iff b c).0 same))
  | inr other ↦ elim (split_once-cases c s) [
    | inl (e, l) ↦ inl (rw (other, e) refl, (other, l))
    | inr (a, t, e, l, f) ↦ inr (b ∷ a, t, rw (other, e) refl, (other, l), ap (λ x. b ∷ x) f)
  ]
]

pub resolve_model-IsNamed :
    (model : Bytes) → IsNamed model (resolve_model model).0 (resolve_model model).1
unfolding resolve_model
resolve_model-IsNamed model = elim (split_once-cases 47 model) [
  | inl (e, l) ↦ rw e (inr (l, refl, refl))
  | inr (a, t, e, l, f) ↦ rw e (inl (l, f))
]

pub record Wanted : Type 0 where
  pub model : Bytes
  pub tools : Bool
  pub json : Bool
  pub streaming : Bool

abbrev pub of_fallback : FallbackConfig → Wanted
of_fallback f = record {
  model = f.model;
  tools = f.require_tools;
  json = f.require_json;
  streaming = false;
}

abbrev pub of_role : RoleConfig → Wanted
of_role cfg = record {
  model = cfg.model;
  tools = cfg.require_tools;
  json = cfg.require_json;
  streaming = cfg.require_streaming;
}

-- The role's own model first, then the fallbacks in their order.
abbrev pub wanted : RoleConfig → List Wanted
wanted cfg = of_role cfg ∷ map of_fallback cfg.fallbacks

pub record IsSuited (c : LlmCapabilities) (w : Wanted) : Type 0 where
  pub tools : w.tools ≡ true → c.supports_tools ≢ none_
  pub json : w.json ≡ true → c.supports_json_mode ≡ true
  pub streaming : w.streaming ≡ true → c.supports_streaming ≡ true

no_tools_iff : (c : LlmCapabilities) → (no_tools c ≡ true) ↔ (c.supports_tools ≡ none_)
no_tools_iff c = decide c.supports_tools
  where
    decide :
        (t : ToolSupport)
        → (elim t [ none_ ↦ true | basic ↦ false | strict_json ↦ false ] ≡ true) ↔ (t ≡ none_)
    decide none_ = ((λ h. refl), (λ h. refl))
    decide basic = ((λ h. absurd (ground (arith, h))), (λ h. absurd (ground (arith, h))))
    decide strict_json = ((λ h. absurd (ground (arith, h))), (λ h. absurd (ground (arith, h))))

IsSuited-tools : (c : LlmCapabilities) (w : Wanted) → IsSuited c w → w.tools && no_tools c ≡ false
IsSuited-tools c w s = elim (Bool-cases w.tools) [
  | inl asked ↦ elim (Bool-cases (no_tools c)) [
    | inl lacks ↦ absurd (s.tools asked ((no_tools_iff c).0 lacks))
    | inr has ↦ rw (asked, has) refl
  ]
  | inr free ↦ rw free refl
]

pub check_fallback_iff :
    (c : LlmCapabilities) (f : FallbackConfig)
    → (check_fallback c f ≡ true) ↔ IsSuited c (of_fallback f)
unfolding check_fallback
check_fallback_iff c f = (
  λ h. record {
    tools = λ asked none_there.
        let lacks : no_tools c ≡ true = (no_tools_iff c).1 none_there in
        ground (arith, h, asked, lacks);
    json = λ asked. ground (arith, h, asked);
    streaming = λ asked. absurd (ground (arith, asked));
  },
  λ s. let fits = IsSuited-tools c (of_fallback f) s in ground (arith, fits, s.json),
)

pub check_capabilities_iff :
    (c : LlmCapabilities) (cfg : RoleConfig)
    → (check_capabilities c cfg ≡ true) ↔ IsSuited c (of_role cfg)
unfolding check_capabilities
check_capabilities_iff c cfg = (
  λ h. record {
    tools = λ asked none_there.
        let lacks : no_tools c ≡ true = (no_tools_iff c).1 none_there in
        ground (arith, h, asked, lacks);
    json = λ asked. ground (arith, h, asked);
    streaming = λ asked. ground (arith, h, asked);
  },
  λ s. let fits = IsSuited-tools c (of_role cfg) s in ground (arith, fits, s.json, s.streaming),
)
