-- ===== src/Schedules/Overlap.antt =====
-- A search that starts in the second pass of an hour that the clocks go through twice, in
-- crates/gateway/src/runtime/schedules/cron.rs, and what it makes of a schedule.
use serial_agent.Prelude.{Bytes, ℕ, ◌≤◌, ◌≡◌, refl, ap, ◌∙◌, true, none, some, arith}
use serial_agent.Schedules.{Schedule, run_once}
use serial_agent.Schedules.Cron.{Zone, Calendar, ambiguous, first_candidate, parse_tz, cron_next_tz}
use serial_agent.Schedules.Expression.{Expression, print, Fits, says}
use serial_agent.Schedules.Next.{search_minutes-suc, occurrence-print}
use serial_agent.Schedules.Store.{is_due, after_run}
use serial_agent.Schedules.Runner.{runs_due, next_of, missed_window_count, fired}
use serial_agent.Schedules.Missed.{missed_window_count-pos}

module _ (c : Calendar) (e : Expression) (now : ℕ) (tz : Zone) (fits : Fits e) where
  -- The first candidate is taken where it matches, and the earlier of its instants is the answer.
  cron_next_tz-ambiguous :
      (u v : ℕ)
      → tz.from_local_datetime (first_candidate c tz now) ≡ ambiguous u v
      → says c e (first_candidate c tz now) ≡ true
      → cron_next_tz c (print e) now tz ≡ some u
  unfolding cron_next_tz
  cron_next_tz-ambiguous u v twice says =
      search_minutes-suc c (print e) tz 527039 (first_candidate c tz now)
      ∙ rw (occurrence-print c e tz (first_candidate c tz now) fits, says, twice) refl

-- A window that is in the past counts as missed.
runs_due-run_once :
    (c : Calendar) (s : Schedule) (last later u : ℕ)
    → s.missed_policy ≡ run_once
    → s.last_run_at ≡ some last
    → next_of c s last ≡ some u
    → u ≤ later
    → runs_due c later s ≡ 1
unfolding runs_due fired
runs_due-run_once c s last later u policy ran e past =
    let some_missed =
      missed_window_count-pos (next_of c s) last u later s.max_catchup_runs e past in
    let missed = ap (λ o. missed_window_count (next_of c s) o later s.max_catchup_runs) ran in
    ap
      (λ p.
        fired p (missed_window_count (next_of c s) s.last_run_at later s.max_catchup_runs)
          s.max_catchup_runs)
      policy
    ∙ omega (arith, some_missed, missed)

-- What is asked of the schedule, the only one of its store.
pub record Steady (e : Expression) (zone : Bytes) (id max : ℕ) (t : Schedule) : Type 0 where
  pub named : t.id ≡ id
  pub cron : t.cron ≡ print e
  pub timezone : t.timezone ≡ zone
  pub enabled : t.enabled ≡ true
  pub cool : t.cooldown_until ≡ none
  pub policy : t.missed_policy ≡ run_once
  pub limit : t.max_concurrency ≡ max

-- The next local minute comes twice, the expression names it, and the first time is past.
pub record IsSecondPass (c : Calendar) (e : Expression) (zone : Bytes) (now : ℕ) : Type 0 where
  pub u : ℕ
  pub v : ℕ
  pub twice :
      (parse_tz c zone).from_local_datetime (first_candidate c (parse_tz c zone) now)
      ≡ ambiguous u v
  pub said : says c e (first_candidate c (parse_tz c zone) now) ≡ true
  pub gone : u ≤ now

module _ (c : Calendar) (e : Expression) (fits : Fits e) (zone : Bytes) (id max : ℕ) where
  next_of-IsSecondPass :
      (t : Schedule) (now : ℕ)
      → Steady e zone id max t
      → (p : IsSecondPass c e zone now) → next_of c t now ≡ some p.u
  next_of-IsSecondPass t now s p =
      ap (λ text. cron_next_tz c text now (parse_tz c t.timezone)) s.cron
      ∙ ap (λ z. cron_next_tz c (print e) now (parse_tz c z)) s.timezone
      ∙ cron_next_tz-ambiguous c e now (parse_tz c zone) fits p.u p.v p.twice p.said

  -- The schedule ran at `last`, and from then on it is due, with one run.
  pub due_again :
      (t : Schedule) (last run_id later : ℕ)
      → Steady e zone id max t
      → IsSecondPass c e zone last
      → last ≤ later
      → (is_due later (after_run c last run_id t) ≡ true)
        × (runs_due c later (after_run c last run_id t) ≡ 1)
  unfolding is_due after_run
  due_again t last run_id later s p order =
      let next = next_of-IsSecondPass t last s p in
      let early : p.u ≤ later = omega (arith, p.gone, order) in
      (
        rw (s.enabled, next, s.cool) (ground (arith, early)),
        runs_due-run_once c (after_run c last run_id t) last later p.u s.policy refl next early,
      )

  pub after_run-Steady :
      (t : Schedule) (now run_id : ℕ)
      → Steady e zone id max t
      → Steady e zone id max (after_run c now run_id t)
  unfolding after_run
  after_run-Steady t now run_id s = record {
    named = s.named;
    cron = s.cron;
    timezone = s.timezone;
    enabled = s.enabled;
    cool = s.cool;
    policy = s.policy;
    limit = s.limit;
  }
