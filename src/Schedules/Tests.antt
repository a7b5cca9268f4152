-- ===== src/Schedules/Tests.antt =====
-- Cron expressions, missed windows, and the checks of a schedule at concrete inputs.
use serial_agent.Prelude.{
  ℕ, ◌+◌, ◌*◌, ◌≤◌, ◌≡◌, ◌⊎◌, refl, true, Option, some, false, ◌++◌, [], ◌∷◌, ◌++◌, bytes, nat_eq,
  arith,
}
use serial_agent.Strings.{split_whitespace, parse_u32, strip_prefix, split_on, split_once}
use serial_agent.ContextPack.Builder.{decimal}
use serial_agent.Schedules.Cron.{cron_matches_naive, cron_next_tz, first_candidate, max_checks}
use serial_agent.Schedules.Field.{every, parts, value, range}
use serial_agent.Schedules.Expression.{Expression, print, Fits, says, cron_matches_naive-print}
use serial_agent.Schedules.Next.{Answers, instant, cron_next_tz-Answers}
use serial_agent.Schedules.Runner.{missed_window_count, count_windows}
use serial_agent.Schedules.Missed.{Windows, NoMore, missed_window_count_lem}
use serial_agent.Schedules.Address.{Ipv4, is_loopback, is_private}
use serial_agent.Schedules.Url.{validate_url, is_blocked_ipv4}
use serial_agent.Schedules.Userinfo.{scheme, validate_url-at_sign}
use serial_agent.Schedules.Internal.{dotted, port, is_refused, validate_url-dotted}
use serial_agent.Schedules.Validation.{validate_cron}
use serial_agent.Schedules.Accepted.{EachMatches, validate_cron-EachMatches}
use serial_agent.Schedules.Examples.{one_hour, utc_zone, toy}

-- "30 9-17 * * 1,3"
abbrev office : Expression
office = record {
  minutes = parts (value 30) [];
  hours = parts (range 9 17) [];
  days = every;
  months = every;
  weekdays = parts (value 1) (value 3 ∷ []);
}

abbrev office_Fits : Fits office
office_Fits = record {
  minutes = (omega arith, tt);
  hours = ((omega arith, omega arith), tt);
  days = tt;
  months = tt;
  weekdays = (omega arith, (omega arith, tt));
}

office_text : print office ≡ bytes "30 9-17 * * 1,3"
unfolding decimal
office_text = refl

cron_matches_naive-print_example :
    cron_matches_naive toy (print office) (4 * 86400000 + 9 * one_hour + 30 * 60000)
    ≡ says toy office (4 * 86400000 + 9 * one_hour + 30 * 60000)
cron_matches_naive-print_example =
    cron_matches_naive-print toy office (4 * 86400000 + 9 * one_hour + 30 * 60000) office_Fits

cron_next_tz-Answers_example :
    Answers
      (instant toy office utc_zone)
      max_checks
      (first_candidate toy utc_zone 5000)
      (cron_next_tz toy (print office) 5000 utc_zone)
cron_next_tz-Answers_example = cron_next_tz-Answers toy office 5000 utc_zone office_Fits

abbrev hourly : ℕ → Option ℕ
hourly t = some (t + one_hour)

missed_window_count_lem_example :
    let missed = missed_window_count hourly (some 0) (3 * one_hour) 5 in
    (missed ≤ 5 + 1)
    × ((count_windows hourly (3 * one_hour) 5 (5 + 1 + 7) 0 0 ≡ missed)
        × ((last : ℕ) × (Windows hourly (3 * one_hour) 0 missed last
              × ((missed ≡ 5 + 1) ⊎ NoMore hourly (3 * one_hour) (hourly last)))))
missed_window_count_lem_example = missed_window_count_lem hourly 0 (3 * one_hour) 5 7

three_missed : missed_window_count hourly (some 0) (3 * one_hour) 5 ≡ 3
unfolding missed_window_count count_windows
three_missed = refl

validate_cron-EachMatches_example : EachMatches (split_whitespace (bytes "*/5 9-17 * * 1,3"))
unfolding validate_cron split_whitespace strip_prefix parse_u32 split_on split_once
validate_cron-EachMatches_example = validate_cron-EachMatches (bytes "*/5 9-17 * * 1,3") (refl)

validate_url-at_sign_example :
    validate_url (scheme false ++ (bytes "127.0.0.1/" ++ (64 ∷ bytes "example.org")))
    ≡ validate_url (scheme false ++ bytes "example.org")
validate_url-at_sign_example =
    validate_url-at_sign false (bytes "127.0.0.1/") (bytes "example.org")
      (refl, (refl, (refl, (refl, (refl, (refl, (refl, (refl, (refl, (refl, tt))))))))))
      (refl, (refl, (refl, (refl, (refl, (refl, (refl, (refl, (refl, (refl, (refl, tt)))))))))))

abbrev ten_network : Ipv4
ten_network = record { a = 10; b = 0; c = 7; d = 255 }

validate_url-dotted_example :
    is_refused (validate_url (scheme true ++ (dotted ten_network ++ bytes ":8080/Admin"))) ≡ true
unfolding is_blocked_ipv4 is_loopback is_private
validate_url-dotted_example =
    validate_url-dotted true ten_network (port (bytes "8080/Admin"))
      (record { a = omega arith; b = omega arith; c = omega arith; d = omega arith }) refl
      (refl, (refl, (refl, (refl, (refl, (refl, (refl, (refl, (refl, (refl, (refl, tt)))))))))))
