-- ===== src/Schedules/Next.antt =====
-- The search for the next occurrence, cron_next_tz of
-- crates/gateway/src/runtime/schedules/cron.rs: what it finds, and when it finds nothing.
use serial_agent.Prelude.{
  ℕ, zero, suc, ◌+◌, ◌*◌, ◌<◌, ◌≡◌, refl, ap, sym, subst, ◌∙◌, Option, none, some, arith, or,
  if◌then◌else◌, Bytes,
}
use serial_agent.Schedules.Cron.{
  Zone, Calendar, one_minute, max_checks, earliest, occurrence, search_minutes, first_candidate,
  cron_next_tz,
}
use serial_agent.Schedules.Expression.{Expression, print, Fits, says, cron_matches_naive-print}

-- The instant that an expression gives at a local minute: none where the expression does not say
-- so, or where the local time does not exist.
abbrev pub instant : Calendar → Expression → Zone → ℕ → Option ℕ
instant c e tz t = if says c e t then earliest (tz.from_local_datetime t) else none

pub occurrence-print :
    (c : Calendar) (e : Expression) (tz : Zone) (t : ℕ)
    → Fits e
    → occurrence c (print e) tz t ≡ instant c e tz t
unfolding occurrence
occurrence-print c e tz t fits = rw (cron_matches_naive-print c e t fits) refl

-- Among `checks` minutes from `start` on, the first that has an instant has this one.
abbrev pub IsFirst : (ℕ → Option ℕ) → ℕ → ℕ → ℕ → Type 0
IsFirst at_minute checks start u =
    (k : ℕ) × ((k < checks)
      × ((at_minute (start + k * one_minute) ≡ some u)
          × ((j : ℕ) → j < k → at_minute (start + j * one_minute) ≡ none)))

abbrev pub NoneAmong : (ℕ → Option ℕ) → ℕ → ℕ → Type 0
NoneAmong at_minute checks start = (k : ℕ) → k < checks → at_minute (start + k * one_minute) ≡ none

-- What a search must answer.
abbrev pub Answers : (ℕ → Option ℕ) → ℕ → ℕ → Option ℕ → Type 0
Answers at_minute checks start none = NoneAmong at_minute checks start
Answers at_minute checks start (some u) = IsFirst at_minute checks start u

module _ (f : ℕ → Option ℕ) where
  at_start : (start : ℕ) → f (start + 0 * one_minute) ≡ f start
  at_start start = ap f (omega arith)

  after_start :
      (start j : ℕ) → f (start + one_minute + j * one_minute) ≡ f (start + suc j * one_minute)
  after_start start j = ap f (omega arith)

  none_before :
      (start k : ℕ)
      → f start ≡ none
      → ((j : ℕ) → j < k → f (start + one_minute + j * one_minute) ≡ none)
      → (j : ℕ) → j < suc k
      → f (start + j * one_minute) ≡ none
  none_before start k first later zero h = at_start start ∙ first
  none_before start k first later (suc j) h = sym (after_start start j) ∙ later j (omega arith)

  Answers-later :
      (checks start : ℕ) (o : Option ℕ)
      → f start ≡ none
      → Answers f checks (start + one_minute) o
      → Answers f (suc checks) start o
  Answers-later checks start none first later = none_before start checks first later
  Answers-later checks start (some u) first (k, (h, (e, before))) =
      (suc k, (omega arith, (sym (after_start start k) ∙ e, none_before start k first before)))

  Answers-or :
      (checks start : ℕ) (here rest : Option ℕ)
      → f start ≡ here
      → Answers f checks (start + one_minute) rest
      → Answers f (suc checks) start (or here rest)
  Answers-or checks start none rest e h = Answers-later checks start rest e h
  Answers-or checks start (some u) rest e h =
      (0, (omega arith, (at_start start ∙ e, λ j lt. absurd (omega arith))))

-- One round of the search.
pub search_minutes-suc :
    (c : Calendar) (cron : Bytes) (tz : Zone) (checks start : ℕ)
    → search_minutes c cron tz (suc checks) start
      ≡ or (occurrence c cron tz start) (search_minutes c cron tz checks (start + one_minute))
unfolding search_minutes
search_minutes-suc c cron tz checks start = ground arith

search_minutes-Answers :
    (c : Calendar) (cron : Bytes) (tz : Zone) (checks start : ℕ)
    → Answers (occurrence c cron tz) checks start (search_minutes c cron tz checks start)
unfolding search_minutes
search_minutes-Answers c cron tz zero start = λ k h. absurd (omega arith)
search_minutes-Answers c cron tz (suc checks) start =
    let f = occurrence c cron tz in
    let rest = search_minutes-Answers c cron tz checks (start + one_minute) in
    subst (Answers f (suc checks) start) (sym (search_minutes-suc c cron tz checks start))
      (Answers-or f checks start (f start) _ refl rest)

Answers-congr :
    (f g : ℕ → Option ℕ) (checks start : ℕ) (o : Option ℕ)
    → ((t : ℕ) → f t ≡ g t)
    → Answers f checks start o
    → Answers g checks start o
Answers-congr f g checks start none same h = λ k lt. sym (same _) ∙ h k lt
Answers-congr f g checks start (some u) same (k, (lt, (e, before))) =
    (k, (lt, (sym (same _) ∙ e, λ j h. sym (same _) ∙ before j h)))

-- The search for a printed expression ends after at most 527040 minutes, and answers with the
-- instant of the first local minute, from the first candidate on, that the expression names and
-- that exists in the zone; it answers with nothing exactly where no minute of that year is one.
pub cron_next_tz-Answers :
    (c : Calendar) (e : Expression) (after : ℕ) (tz : Zone)
    → Fits e
    → Answers
        (instant c e tz)
        max_checks
        (first_candidate c tz after)
        (cron_next_tz c (print e) after tz)
unfolding cron_next_tz
cron_next_tz-Answers c e after tz fits =
    Answers-congr (occurrence c (print e) tz) (instant c e tz) max_checks
      (first_candidate c tz after)
      (search_minutes c (print e) tz max_checks (first_candidate c tz after))
      (λ t. occurrence-print c e tz t fits)
      (search_minutes-Answers c (print e) tz max_checks (first_candidate c tz after))
