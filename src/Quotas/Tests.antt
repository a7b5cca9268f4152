-- ===== src/Quotas/Tests.antt =====
-- The quota of an agent on one day, with costs in cents.
use serial_agent.Prelude.{
  ℕ, ◌+◌, ◌≡◌, refl, none, some, List, [], ◌∷◌, bytes, bytes_eq, leb, arith, get, insert,
}
use serial_agent.Quotas.{
  Floats, QuotaConfig, check_quota, record_usage, resolve_limits, tokens_exceeded,
}
use serial_agent.Quotas.Sums.{Use, record_all, total, cost_from}
use serial_agent.Quotas.Day.{Verdict, check_quota_lem}

abbrev cents : Floats ℕ
cents = record {
  zero_cost = 0;
  add_cost = λ a b. a + b;
  reaches = λ used limit. leb limit used;
  of_u64 = λ n. n;
}

abbrev uses : List (Use cents 7 (bytes "a"))
uses = (some (bytes "a"), 600, 5) ∷ (some (bytes "b"), 900, 5) ∷ (some (bytes "a"), 400, 5) ∷ []

abbrev config : QuotaConfig cents
config = record { default_daily_tokens = some 1000; default_daily_cost_usd = none; per_agent = [] }

check_quota_lem_example :
    Verdict cents 7
      (bytes "a")
      config
      (total cents 7 (bytes "a") uses)
      (cost_from cents 7 (bytes "a") uses 0)
      (check_quota cents 7 (some (bytes "a")) config (record_all cents 7 (bytes "a") uses []))
unfolding get
check_quota_lem_example =
    check_quota_lem cents 7 (bytes "a") config uses [] (some (bytes "a")) refl refl refl
      (omega arith)

refused :
    check_quota cents 7 (some (bytes "a")) config (record_all cents 7 (bytes "a") uses [])
    ≡ some (tokens_exceeded cents 1000 1000)
unfolding check_quota record_usage resolve_limits get insert
refused = refl
