-- ===== src/Quotas/Sums.antt =====
-- The uses of one agent summed up (crates/gateway/src/runtime/quota.rs).
use serial_agent.Prelude.{
  ℕ, ◌+◌, ◌%◌, ◌^◌, ◌<◌, ◌≡◌, inl, inr, refl, ap, ◌∙◌, Bool, true, false, Option, none, some, List,
  [], ◌∷◌, if◌then◌else◌, Bytes, bytes_eq, bytes_beq_iff, ◌==◌, eqb, arith, Map, get, get-insert,
  any, Bool-cases, unwrap_or,
}
use serial_agent.Quotas.{Floats, DailyUsage, key_of, fresh_day, add_to, record_usage}

module _ {F : Type 0} (floats : Floats F) (today : ℕ) (key : Bytes) where
  -- Who uses, how many tokens, and at what cost.
  abbrev pub Use : Type 0
  Use = Option Bytes × ℕ × F

  abbrev pub record_all : List Use → Map Bytes (DailyUsage floats) → Map Bytes (DailyUsage floats)
  record_all [] usage = usage
  record_all ((agent_id, tokens, cost) ∷ uses) usage =
      record_all uses (record_usage floats today agent_id tokens cost usage)

  -- The tokens of one agent, and its cost added to what there was.
  abbrev pub total : List Use → ℕ
  total [] = 0
  total ((agent_id, tokens, cost) ∷ uses) =
      let rest = total uses in if key_of floats agent_id == key then tokens + rest else rest

  abbrev pub cost_from : List Use → F → F
  cost_from [] start = start
  cost_from ((agent_id, tokens, cost) ∷ uses) start =
      cost_from uses (if key_of floats agent_id == key then floats.add_cost start cost else start)

  abbrev pub is_user : Use → Bool
  is_user (agent_id, tokens, cost) = key_of floats agent_id == key

  abbrev pub entry : ℕ → F → DailyUsage floats
  entry tokens cost = record { date = today; tokens = tokens; cost_usd = cost }

  record_usage-get :
      (agent_id : Option Bytes) (tokens : ℕ) (cost : F) (usage : Map Bytes (DailyUsage floats))
      → get key (record_usage floats today agent_id tokens cost usage) ≡ (
          if key_of floats agent_id == key
          then some (
              add_to floats today tokens cost
                (unwrap_or (get (key_of floats agent_id) usage) (fresh_day floats today)))
          else get key usage)
  unfolding record_usage
  record_usage-get agent_id tokens cost usage = get-insert (key_of floats agent_id) key _ usage

  abbrev pub is_today : Option (DailyUsage floats) → Bool
  is_today none = false
  is_today (some e) = eqb e.date today

  add_to-entry :
      (n tokens : ℕ) (c cost : F)
      → n + tokens < 2 ^ 64
      → add_to floats today tokens cost (entry n c) ≡ entry (n + tokens) (floats.add_cost c cost)
  add_to-entry n tokens c cost small =
      let same : eqb today today ≡ true = ground arith in
      let whole : (n + tokens) % 2 ^ 64 ≡ n + tokens = omega (arith, small) in rw (same, whole) refl

  add_to_old :
      (o : Option (DailyUsage floats)) (tokens : ℕ) (cost : F)
      → is_today o ≡ false
      → tokens < 2 ^ 64
      → add_to floats today tokens cost (unwrap_or o (fresh_day floats today))
        ≡ entry tokens (floats.add_cost floats.zero_cost cost)
  add_to_old none tokens cost old small =
      let same : eqb today today ≡ true = ground arith in
      let whole : (0 + tokens) % 2 ^ 64 ≡ tokens = omega (arith, small) in rw (same, whole) refl
  add_to_old (some e) tokens cost old small =
      let whole : (0 + tokens) % 2 ^ 64 ≡ tokens = omega (arith, small) in rw (old, whole) refl

  -- What a use of the agent, and one of another agent, makes of the agent's entry.
  record_usage-same :
      (agent_id : Option Bytes) (tokens : ℕ) (cost : F) (usage : Map Bytes (DailyUsage floats))
      → (key_of floats agent_id == key) ≡ true
      → get key (record_usage floats today agent_id tokens cost usage)
        ≡ some
            (add_to floats today tokens cost (unwrap_or (get key usage) (fresh_day floats today)))
  record_usage-same agent_id tokens cost usage same =
      record_usage-get agent_id tokens cost usage
      ∙ rw same (
          ap
            (λ k.
              some (
                add_to floats today tokens cost (unwrap_or (get k usage) (fresh_day floats today))))
            ((bytes_beq_iff (key_of floats agent_id) key).0 same))

  record_usage-other :
      (agent_id : Option Bytes) (tokens : ℕ) (cost : F) (usage : Map Bytes (DailyUsage floats))
      → (key_of floats agent_id == key) ≡ false
      → get key (record_usage floats today agent_id tokens cost usage) ≡ get key usage
  record_usage-other agent_id tokens cost usage other =
      record_usage-get agent_id tokens cost usage ∙ rw other refl

  go_on :
      (uses : List Use) (n : ℕ) (c : F) (usage : Map Bytes (DailyUsage floats))
      → get key usage ≡ some (entry n c)
      → n + total uses < 2 ^ 64
      → get key (record_all uses usage) ≡ some (entry (n + total uses) (cost_from uses c))
  go_on [] n c usage here small =
      let same : n ≡ n + 0 = omega arith in here ∙ ap (λ k. some (entry k c)) same
  go_on ((agent_id, tokens, cost) ∷ uses) n c usage here small =
      let next = record_usage floats today agent_id tokens cost usage in
      elim (Bool-cases (key_of floats agent_id == key)) [
        | inl same ↦
            let within : n + (tokens + total uses) < 2 ^ 64 = ground (arith, same, small) in
            let sum : (n + tokens) + total uses ≡ n + (tokens + total uses) = omega arith in
            rw same (
              go_on uses (n + tokens) (floats.add_cost c cost) next
                (record_usage-same agent_id tokens cost usage same
                  ∙ ap
                      (λ o.
                        some
                          (add_to floats today tokens cost (unwrap_or o (fresh_day floats today))))
                      here
                  ∙ ap some (add_to-entry n tokens c cost (omega (arith, within))))
                (omega (arith, within))
              ∙ ap (λ k. some (entry k (cost_from uses (floats.add_cost c cost)))) sum)
        | inr other ↦
            let within : n + total uses < 2 ^ 64 = ground (arith, other, small) in
            rw other (
              go_on uses n c next (record_usage-other agent_id tokens cost usage other ∙ here)
                within)
      ]

  pub first_use :
      (uses : List Use) (usage : Map Bytes (DailyUsage floats))
      → is_today (get key usage) ≡ false
      → any is_user uses ≡ true
      → total uses < 2 ^ 64
      → get key (record_all uses usage)
        ≡ some (entry (total uses) (cost_from uses floats.zero_cost))
  first_use [] usage old used small = absurd (ground (arith, used))
  first_use ((agent_id, tokens, cost) ∷ uses) usage old used small =
      let next = record_usage floats today agent_id tokens cost usage in
      elim (Bool-cases (key_of floats agent_id == key)) [
        | inl same ↦
            let within : tokens + total uses < 2 ^ 64 = ground (arith, same, small) in
            rw same (
              go_on uses tokens (floats.add_cost floats.zero_cost cost) next
                (record_usage-same agent_id tokens cost usage same
                  ∙ ap some (add_to_old (get key usage) tokens cost old (omega (arith, within))))
                within)
        | inr other ↦
            let within : total uses < 2 ^ 64 = ground (arith, other, small) in
            let later : any is_user uses ≡ true = ground (arith, other, used) in
            rw other (
              first_use uses next
                (ap is_today (record_usage-other agent_id tokens cost usage other) ∙ old) later
                within)
      ]
