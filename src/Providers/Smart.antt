-- ===== src/Providers/Smart.antt =====
-- crates/providers/src/smart_router.rs: the model for a request, by its profile and the tiers.
use serial_agent.Prelude.{
  ◌≡◌, refl, Bool, true, false, Option, none, some, List, [], ◌∷◌, Bytes, or, unwrap_or, arith, All,
  In, Option-cases, sym, ap, subst, ◌∙◌, ◌⊎◌, inl, inr,
}

pub data RoutingProfile : Type 0 where
  auto eco premium free_only reasoner : RoutingProfile

pub data ModelTier : Type 0 where
  simple complex reasoning free : ModelTier

pub record TierConfig : Type 0 where
  pub simple_models : List Bytes
  pub complex_models : List Bytes
  pub reasoning_models : List Bytes
  pub free_models : List Bytes

pub record RoutingDecision : Type 0 where
  pub model : Bytes
  pub tier : ModelTier
  pub profile : RoutingProfile
  pub bypassed : Bool

unfoldable pub profile_to_tier : RoutingProfile → Option ModelTier
profile_to_tier auto = none
profile_to_tier eco = some simple
profile_to_tier premium = some complex
profile_to_tier free_only = some free
profile_to_tier reasoner = some reasoning

abbrev pub models_of : ModelTier → TierConfig → List Bytes
models_of simple tiers = tiers.simple_models
models_of complex tiers = tiers.complex_models
models_of reasoning tiers = tiers.reasoning_models
models_of free tiers = tiers.free_models

abbrev first : List Bytes → Option Bytes
first [] = none
first (m ∷ models) = some m

unfoldable pub resolve_tier_model : ModelTier → TierConfig → Option Bytes
resolve_tier_model tier tiers = first (models_of tier tiers)

unfoldable pub fallback_tiers : ModelTier → List ModelTier
fallback_tiers simple = complex ∷ reasoning ∷ []
fallback_tiers complex = reasoning ∷ simple ∷ []
fallback_tiers reasoning = complex ∷ simple ∷ []
fallback_tiers free = simple ∷ complex ∷ reasoning ∷ []

module _ (profile : RoutingProfile) (tiers : TierConfig) where
  abbrev decided : ModelTier → Option Bytes → RoutingDecision → RoutingDecision
  decided tier none rest = rest
  decided tier (some m) rest = record {
    model = m;
    tier = tier;
    profile = profile;
    bypassed = false;
  }

  -- The first of the tiers that has a model; `last` where none has.
  unfoldable pub walk : List ModelTier → RoutingDecision → RoutingDecision
  unfolding resolve_tier_model
  walk [] last = last
  walk (tier ∷ more) last = decided tier (resolve_tier_model tier tiers) (walk more last)

  abbrev pub target : Option ModelTier → ModelTier
  target classified_tier = unwrap_or (or (profile_to_tier profile) classified_tier) complex

  unfoldable pub resolve_model_for_request : Option Bytes → Option ModelTier → RoutingDecision
  unfolding walk profile_to_tier fallback_tiers
  resolve_model_for_request (some m) classified_tier = record {
    model = m;
    tier = complex;
    profile = profile;
    bypassed = true;
  }
  resolve_model_for_request none classified_tier =
      let tier = target classified_tier in
      walk (tier ∷ fallback_tiers tier)
        (record { model = []; tier = tier; profile = profile; bypassed = false })

-- What a decision may be, for the tier that is aimed at.
abbrev pub Sound : TierConfig → ModelTier → RoutingDecision → Type 0
Sound tiers aim d =
    ((resolve_tier_model d.tier tiers ≡ some d.model)
      ⊎ ((d.model ≡ [])
          × (All (λ tier. resolve_tier_model tier tiers ≡ none)
              (simple ∷ complex ∷ reasoning ∷ []))))
    × ((d.tier ≡ free → aim ≡ free)
        × ((m : Bytes) → resolve_tier_model aim tiers ≡ some m → d.tier ≡ aim))

-- A walk ends at a tier that has a model, or with what it was given.
abbrev Landed : TierConfig → List ModelTier → RoutingDecision → RoutingDecision → Type 0
Landed tiers order last d =
    ((resolve_tier_model d.tier tiers ≡ some d.model) × In d.tier order)
    ⊎ ((d ≡ last) × All (λ tier. resolve_tier_model tier tiers ≡ none) order)

walk-Landed :
    (profile : RoutingProfile) (tiers : TierConfig) (order : List ModelTier)
    (last : RoutingDecision)
    → Landed tiers order last (walk profile tiers order last)
unfolding walk
walk-Landed profile tiers [] last = inr (refl, tt)
walk-Landed profile tiers (tier ∷ order) last =
    let rest = walk profile tiers order last in
    let found = λ (o : Option Bytes). decided profile tiers tier o rest in
    elim (Option-cases (resolve_tier_model tier tiers)) [
      | inr (m, e) ↦ subst (Landed tiers (tier ∷ order) last) (sym (ap found e)) (inl (e, inl refl))
      | inl empty ↦
          subst (Landed tiers (tier ∷ order) last) (sym (ap found empty))
            (elim (walk-Landed profile tiers order last) [
              | inl (e, h) ↦ inl (e, inr h)
              | inr (e, h) ↦ inr (e, (empty, h))
            ])
    ]

aims_free : (aim tier : ModelTier) → In tier (aim ∷ fallback_tiers aim) → tier ≡ free → aim ≡ free
unfolding fallback_tiers
aims_free free tier h e = refl
aims_free simple tier h e = ground (arith, h, e)
aims_free complex tier h e = ground (arith, h, e)
aims_free reasoning tier h e = ground (arith, h, e)

three_paid :
    (tiers : TierConfig) (aim : ModelTier)
    → All (λ tier. resolve_tier_model tier tiers ≡ none) (aim ∷ fallback_tiers aim)
    → All (λ tier. resolve_tier_model tier tiers ≡ none) (simple ∷ complex ∷ reasoning ∷ [])
unfolding fallback_tiers
three_paid tiers simple (a, (b, (c, _))) = (a, (b, (c, tt)))
three_paid tiers complex (a, (b, (c, _))) = (c, (a, (b, tt)))
three_paid tiers reasoning (a, (b, (c, _))) = (c, (b, (a, tt)))
three_paid tiers free (a, (b, (c, (d, _)))) = (b, (c, (d, tt)))

-- The tier that is aimed at serves where it has a model.
aim_served :
    (profile : RoutingProfile) (tiers : TierConfig) (aim : ModelTier) (order : List ModelTier)
    (last : RoutingDecision) (m : Bytes)
    → resolve_tier_model aim tiers ≡ some m
    → (walk profile tiers (aim ∷ order) last).tier ≡ aim
unfolding walk
aim_served profile tiers aim order last m e =
    ap (λ (o : Option Bytes). (decided profile tiers aim o (walk profile tiers order last)).tier) e

-- A request that names no model gets the first model of a tier, or none where the three paid tiers
-- have none. It is served by the tier that it aims at, if that has a model, and by the free tier
-- only if it aims at it; the aim is the tier of its profile, or else the one it was classified for.
pub resolve_model_for_request-Sound :
    (profile : RoutingProfile) (tiers : TierConfig) (classified_tier : Option ModelTier)
    → Sound tiers
        (target profile tiers classified_tier)
        (resolve_model_for_request profile tiers none classified_tier)
unfolding resolve_model_for_request
resolve_model_for_request-Sound profile tiers classified_tier =
    let aim = target profile tiers classified_tier in
    let last : RoutingDecision = record {
      model = [];
      tier = aim;
      profile = profile;
      bypassed = false;
    } in
    let order = aim ∷ fallback_tiers aim in
    let served = aim_served profile tiers aim (fallback_tiers aim) last in
    elim (walk-Landed profile tiers order last) [
      | inl (e, h) ↦ (inl e, (aims_free aim (walk profile tiers order last).tier h, served))
      | inr (e, h) ↦ (
        inr (ap (λ (d : RoutingDecision). d.model) e, three_paid tiers aim h),
        (λ is_free. sym (ap (λ (d : RoutingDecision). d.tier) e) ∙ is_free, served),
      )
    ]
