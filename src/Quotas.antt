-- ===== src/Quotas.antt =====
-- crates/gateway/src/runtime/quota.rs: the tokens and the cost of each agent on a day, and their
-- limits. A day is a number; what is done with an `f64` are parameters.
mod Sums
mod Day
mod Tests
use serial_agent.Prelude.{
  ℕ, ◌+◌, ◌%◌, ◌^◌, Bool, true, false, Option, none, some, List, [], ◌∷◌, if◌then◌else◌, Bytes,
  bytes, bytes_eq, eqb, leb, Map, get, insert, or, unwrap_or,
}

pub record Floats (F : Type 0) : Type 0 where
  pub zero_cost : F
  pub add_cost : F → F → F
  pub reaches : F → F → Bool
  pub of_u64 : ℕ → F

module _ {F : Type 0} (floats : Floats F) where
  pub record DailyUsage : Type 0 where
    pub date : ℕ
    pub tokens : ℕ
    pub cost_usd : F

  pub record AgentQuota : Type 0 where
    pub daily_tokens : Option ℕ
    pub daily_cost_usd : Option F

  pub record QuotaConfig : Type 0 where
    pub default_daily_tokens : Option ℕ
    pub default_daily_cost_usd : Option F
    pub per_agent : Map Bytes AgentQuota

  pub record QuotaExceeded : Type 0 where
    pub kind : Bytes
    pub used : F
    pub limit : F

  abbrev pub tokens_exceeded : ℕ → ℕ → QuotaExceeded
  tokens_exceeded used limit = record {
    kind = bytes "tokens";
    used = floats.of_u64 used;
    limit = floats.of_u64 limit;
  }

  abbrev pub cost_exceeded : F → F → QuotaExceeded
  cost_exceeded used limit = record { kind = bytes "cost"; used = used; limit = limit }

  abbrev pub limits_with : QuotaConfig → Option AgentQuota → Option ℕ × Option F
  limits_with config none = (config.default_daily_tokens, config.default_daily_cost_usd)
  limits_with config (some aq) = (
    or aq.daily_tokens config.default_daily_tokens,
    or aq.daily_cost_usd config.default_daily_cost_usd,
  )

  unfoldable pub resolve_limits : Bytes → QuotaConfig → Option ℕ × Option F
  resolve_limits key config = limits_with config (get key config.per_agent)

  abbrev pub key_of : Option Bytes → Bytes
  key_of agent_id = unwrap_or agent_id (bytes "default")

  -- No error is `Ok(())`.
  abbrev pub check_cost : F → Option F → Option QuotaExceeded
  check_cost used none = none
  check_cost used (some limit) =
      if floats.reaches used limit then some (cost_exceeded used limit) else none

  abbrev pub check_tokens : ℕ → Option ℕ → Option QuotaExceeded → Option QuotaExceeded
  check_tokens used none rest = rest
  check_tokens used (some limit) rest =
      if leb limit used then some (tokens_exceeded used limit) else rest

  abbrev pub check_entry : ℕ → Option ℕ × Option F → Option DailyUsage → Option QuotaExceeded
  check_entry today limits none = none
  check_entry today limits (some e) =
      if eqb e.date today
      then check_tokens e.tokens limits.0 (check_cost e.cost_usd limits.1)
      else none

  unfoldable pub check_quota :
      ℕ → Option Bytes → QuotaConfig → Map Bytes DailyUsage → Option QuotaExceeded
  unfolding resolve_limits
  check_quota today agent_id config usage =
      let key = key_of agent_id in check_entry today (resolve_limits key config) (get key usage)

  abbrev pub fresh_day : ℕ → DailyUsage
  fresh_day today = record { date = today; tokens = 0; cost_usd = floats.zero_cost }

  -- On a new day the counters start again. The sum of the tokens is that of `u64`.
  abbrev pub add_to : ℕ → ℕ → F → DailyUsage → DailyUsage
  add_to today tokens cost_usd e =
      let start = if eqb e.date today then e else fresh_day today in
      record {
        date = today;
        tokens = (start.tokens + tokens) % 2 ^ 64;
        cost_usd = floats.add_cost start.cost_usd cost_usd;
      }

  unfoldable pub record_usage :
      ℕ → Option Bytes → ℕ → F → Map Bytes DailyUsage → Map Bytes DailyUsage
  record_usage today agent_id tokens cost_usd usage =
      let key = key_of agent_id in
      insert key (add_to today tokens cost_usd (unwrap_or (get key usage) (fresh_day today))) usage
