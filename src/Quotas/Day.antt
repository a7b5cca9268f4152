-- ===== src/Quotas/Day.antt =====
-- A day's uses against the limits (crates/gateway/src/runtime/quota.rs).
use serial_agent.Prelude.{
  subst, ℕ, ◌^◌, ◌<◌, ◌≡◌, inl, inr, refl, ap, ◌∙◌, true, false, Option, none, some, List, Bytes,
  bytes_eq, eqb, arith, Map, get, any, Bool-cases, unwrap_or, or, Option-cases, ◌⊎◌, ◌↔◌, ◌≤◌,
  bytes, sym, leb,
}
use serial_agent.Quotas.{
  Floats, DailyUsage, QuotaConfig, AgentQuota, QuotaExceeded, limits_with, resolve_limits, key_of,
  check_cost, check_tokens, check_entry, check_quota,
}
use serial_agent.Quotas.Sums.{Use, record_all, total, cost_from, is_user, is_today, first_use}

module _ {F : Type 0} (floats : Floats F) (today : ℕ) (key : Bytes) where
  check_quota-checks :
      (uses : List (Use floats today key)) (usage : Map Bytes (DailyUsage floats))
      (agent_id : Option Bytes) (config : QuotaConfig floats)
      → key_of floats agent_id ≡ key
      → is_today floats today key (get key usage) ≡ false
      → any (is_user floats today key) uses ≡ true
      → total floats today key uses < 2 ^ 64
      → check_quota floats today agent_id config (record_all floats today key uses usage)
        ≡ check_tokens floats (total floats today key uses) (resolve_limits floats key config).0 (
            check_cost floats
              (cost_from floats today key uses floats.zero_cost)
              (resolve_limits floats key config).1)
  unfolding check_quota
  check_quota-checks uses usage agent_id config named old used small =
      let same : eqb today today ≡ true = ground arith in
      ap
        (λ k.
          check_entry floats today (resolve_limits floats k config)
            (get k (record_all floats today key uses usage)))
        named
      ∙ ap (check_entry floats today (resolve_limits floats key config))
          (first_use floats today key uses usage old used small)
      ∙ rw same refl

  module _ (config : QuotaConfig floats) where
    -- `l` holds for the agent: its own entry says so, or there is no entry that says anything of it
    -- and it is the default.
    abbrev pub IsLimit : {V : Type 0} → (AgentQuota floats → Option V) → Option V → V → Type 0
    IsLimit own default l =
        ((aq : AgentQuota floats) × (get key config.per_agent ≡ some aq) × (own aq ≡ some l))
        ⊎ (((aq : AgentQuota floats) → get key config.per_agent ≡ some aq → own aq ≡ none)
            × (default ≡ some l))

    abbrev pub IsTokenLimit : ℕ → Type 0
    IsTokenLimit = IsLimit (λ aq. aq.daily_tokens) config.default_daily_tokens

    abbrev pub IsCostLimit : F → Type 0
    IsCostLimit = IsLimit (λ aq. aq.daily_cost_usd) config.default_daily_cost_usd

    -- What a check must say of these sums.
    pub data Verdict (tokens : ℕ) (cost : F) (result : Option (QuotaExceeded floats)) : Type 0 where
      over_tokens :
          (l : ℕ)
          → IsTokenLimit l
          → l ≤ tokens
          → result
            ≡ some (record {
              kind = bytes "tokens";
              used = floats.of_u64 tokens;
              limit = floats.of_u64 l;
            })
          → Verdict tokens cost result
      over_cost :
          (l : F)
          → ((m : ℕ) → IsTokenLimit m → tokens < m)
          → IsCostLimit l
          → floats.reaches cost l ≡ true
          → result ≡ some (record { kind = bytes "cost"; used = cost; limit = l })
          → Verdict tokens cost result
      within :
          ((m : ℕ) → IsTokenLimit m → tokens < m)
          → ((l : F) → IsCostLimit l → floats.reaches cost l ≡ false)
          → result ≡ none
          → Verdict tokens cost result

    abbrev resolved :
        {V : Type 0}
        → (AgentQuota floats → Option V)
        → Option V
        → Option (AgentQuota floats)
        → Option V
    resolved own default none = default
    resolved own default (some aq) = or (own aq) default

    some-resolved :
        {V : Type 0}
        → (own : AgentQuota floats → Option V) (default : Option V) (l : V)
          (o : Option (AgentQuota floats))
        → resolved own default o ≡ some l
        → ((aq : AgentQuota floats) × (o ≡ some aq) × (own aq ≡ some l))
          ⊎ (((aq : AgentQuota floats) → o ≡ some aq → own aq ≡ none) × (default ≡ some l))
    some-resolved own default l none e = inr ((λ aq f. absurd (ground (arith, f))), e)
    some-resolved own default l (some aq) e = elim (Option-cases (own aq)) [
      | inl unset ↦ inr ((λ b f. ap own (sym (ap (λ k. unwrap_or k aq) f)) ∙ unset), rw unset at e)
      | inr (m, set) ↦ inl (aq, refl, set ∙ (rw set at e))
    ]

    resolved-some :
        {V : Type 0}
        → (own : AgentQuota floats → Option V) (default : Option V) (l : V)
          (o : Option (AgentQuota floats))
        → ((aq : AgentQuota floats) × (o ≡ some aq) × (own aq ≡ some l))
          ⊎ (((aq : AgentQuota floats) → o ≡ some aq → own aq ≡ none) × (default ≡ some l))
        → resolved own default o ≡ some l
    resolved-some own default l o (inl (aq, e, set)) = rw (e, set) refl
    resolved-some own default l none (inr (unset, d)) = d
    resolved-some own default l (some aq) (inr (unset, d)) = rw (unset aq refl) d

    token_limit-resolved :
        (o : Option (AgentQuota floats))
        → (limits_with floats config o).0
          ≡ resolved (λ aq. aq.daily_tokens) config.default_daily_tokens o
    token_limit-resolved none = refl
    token_limit-resolved (some aq) = refl

    cost_limit-resolved :
        (o : Option (AgentQuota floats))
        → (limits_with floats config o).1
          ≡ resolved (λ aq. aq.daily_cost_usd) config.default_daily_cost_usd o
    cost_limit-resolved none = refl
    cost_limit-resolved (some aq) = refl

    -- The limits are what the sums are compared with.
    verdict :
        (tokens : ℕ) (cost : F) (t : Option ℕ) (u : Option F)
        → ((l : ℕ) → IsTokenLimit l ↔ (t ≡ some l))
        → ((l : F) → IsCostLimit l ↔ (u ≡ some l))
        → Verdict tokens cost (check_tokens floats tokens t (check_cost floats cost u))
    verdict tokens cost t u ts us = elim (Option-cases t) [
      | inl unlimited ↦
          rw unlimited (cost_verdict (λ m h. absurd (ground (arith, (ts m).0 h, unlimited))))
      | inr (l, limited) ↦ elim (Bool-cases (leb l tokens)) [
        | inl reached ↦
            over_tokens l ((ts l).1 limited) (ground (arith, reached)) (rw (limited, reached) refl)
        | inr below ↦
            rw (limited, below)
              (cost_verdict (λ m h.
                let same : some m ≡ some l = sym ((ts m).0 h) ∙ limited in
                ground (arith, below, same)))
      ]
    ]
      where
        cost_verdict :
            ((m : ℕ) → IsTokenLimit m → tokens < m) → Verdict tokens cost (check_cost floats cost u)
        cost_verdict free = elim (Option-cases u) [
          | inl unlimited ↦
              within free (λ l h. absurd (ground (arith, (us l).0 h, unlimited)))
                (rw unlimited refl)
          | inr (l, limited) ↦ elim (Bool-cases (floats.reaches cost l)) [
            | inl reached ↦ over_cost l free ((us l).1 limited) reached (rw (limited, reached) refl)
            | inr below ↦
                within free
                  (λ m h.
                    let same : some l ≡ some m = sym limited ∙ (us m).0 h in
                    ap (floats.reaches cost) (sym (ap (λ k. unwrap_or k l) same)) ∙ below)
                  (rw (limited, below) refl)
          ]
        ]

    -- The check of an agent that has used something today, and of which the day began with no entry
    -- or an older one, refuses for the tokens exactly where the sum of its tokens of the day, below
    -- 2^64, is at least its limit of tokens; else for the cost exactly where its summed cost reaches
    -- its limit of cost; and else it accepts. A limit is the one of the agent's own entry, and the
    -- default where that entry is missing or leaves it out. The error names the kind, the sum and
    -- the limit.
    pub check_quota_lem :
        (uses : List (Use floats today key)) (usage : Map Bytes (DailyUsage floats))
        (agent_id : Option Bytes)
        → key_of floats agent_id ≡ key
        → is_today floats today key (get key usage) ≡ false
        → any (is_user floats today key) uses ≡ true
        → total floats today key uses < 2 ^ 64
        → Verdict
            (total floats today key uses)
            (cost_from floats today key uses floats.zero_cost)
            (check_quota floats today agent_id config (record_all floats today key uses usage))
    unfolding resolve_limits
    check_quota_lem uses usage agent_id named old used small =
        let o = get key config.per_agent in
        subst
          (Verdict (total floats today key uses) (cost_from floats today key uses floats.zero_cost))
          (sym (check_quota-checks uses usage agent_id config named old used small))
          (verdict (total floats today key uses) (cost_from floats today key uses floats.zero_cost)
            (resolve_limits floats key config).0 (resolve_limits floats key config).1
            (λ l. (
              (λ h.
                  token_limit-resolved o
                  ∙ resolved-some (λ aq. aq.daily_tokens) config.default_daily_tokens l o h),
              (λ e.
                  some-resolved (λ aq. aq.daily_tokens) config.default_daily_tokens l o
                    (sym (token_limit-resolved o) ∙ e)),
            ))
            (λ l. (
              (λ h.
                  cost_limit-resolved o
                  ∙ resolved-some (λ aq. aq.daily_cost_usd) config.default_daily_cost_usd l o h),
              (λ e.
                  some-resolved (λ aq. aq.daily_cost_usd) config.default_daily_cost_usd l o
                    (sym (cost_limit-resolved o) ∙ e)),
            )))
