-- ===== src/Tz/Examples.antt =====
-- Runs of the zone engine of components/timesvc/tz.cpp, and its theorems at concrete inputs.
use lost_swan_firmware.Common.{
  ℕ, ◌+◌, ◌*◌, ◌≤◌, ◌<◌, ◌≡◌, ◌⊎◌, inl, refl, true, List, [], ◌∷◌, arith,
}
use lost_swan_firmware.Common.Int.{ℤ, pos, negsuc, ◌+ℤ◌, ◌-ℤ◌, ◌*ℤ◌}
use lost_swan_firmware.Tz.Civil.{
  days_from_civil, year_era, year_of_era, day_of_era, day_of_year, div_trunc, to_uint32, mod_trunc,
  day_era, day_in_era, year_of_day, month_of_march, civil_from_days, weekday_from_days,
}
use lost_swan_firmware.Tz.Calendar.{days_from_civil-civil_from_days}
use lost_swan_firmware.Tz.NextDay.{days_in_month, leap, next_date, days_from_civil-next_date}
use lost_swan_firmware.Tz.Zone.{
  Rule, TimeZone, is_dst, in_span, standard_year, dst_span_utc, rule_epoch_local, month_length,
  nth_weekday, fit_month, to_local, from_local, rule_day,
}
use lost_swan_firmware.Tz.Local.{from_local-to_local}
use lost_swan_firmware.Tz.Rules.{rule_day_lem}
use lost_swan_firmware.Tz.Parse.{
  ok, parse, and_then, name, letters, quoted, offset, number, digits, read_time, check_time,
  minutes_part, seconds_part, signed_time, parse_dst, dst_offset_part, parse_rules, rule,
}
use lost_swan_firmware.Tz.Parse.Ranges.{Holds, ZoneInRange, parse-ZoneInRange}

-- "PST8PDT,M3.2.0,M11.1.0", the zone the firmware starts with.
abbrev pacific_string : List ℕ
pacific_string =
    80 ∷ 83 ∷ 84 ∷ 56 ∷ 80 ∷ 68 ∷ 84 ∷ 44 ∷ 77 ∷ 51 ∷ 46 ∷ 50 ∷ 46 ∷ 48 ∷ 44 ∷ 77 ∷ 49 ∷ 49 ∷ 46
    ∷ 49 ∷ 46 ∷ 48 ∷ []

abbrev second_sunday_of_march : Rule
second_sunday_of_march = record { month = 3; week = 2; day = 0; at = pos 7200 }

abbrev pacific : TimeZone
pacific = record {
  std_name = 80 ∷ 83 ∷ 84 ∷ [];
  dst_name = 80 ∷ 68 ∷ 84 ∷ [];
  std_offset = pos 28800;
  dst_offset = pos 25200;
  has_dst = true;
  start = second_sunday_of_march;
  end_rule = record { month = 11; week = 1; day = 0; at = pos 7200 };
}

parse_test : parse pacific_string ≡ ok pacific
unfolding parse and_then name letters quoted offset number digits read_time check_time minutes_part
    seconds_part signed_time parse_dst dst_offset_part parse_rules rule ◌-ℤ◌
parse_test = refl

parse-ZoneInRange_example : Holds ZoneInRange (parse pacific_string)
parse-ZoneInRange_example = parse-ZoneInRange pacific_string

epoch_test : days_from_civil (pos 1970) 1 1 ≡ pos 0
unfolding days_from_civil year_era year_of_era day_of_era day_of_year div_trunc to_uint32 ◌+ℤ◌ ◌-ℤ◌
    ◌*ℤ◌
epoch_test = refl

days_from_civil-civil_from_days_example :
    let (y, m, d) = civil_from_days (negsuc 719528) in days_from_civil y m d ≡ negsuc 719528
days_from_civil-civil_from_days_example = days_from_civil-civil_from_days (negsuc 719528)

days_from_civil-next_date_example :
    let (y, m, d) = next_date (pos 2024) 2 29 in
    days_from_civil y m d ≡ days_from_civil (pos 2024) 2 29 +ℤ pos 1
unfolding days_in_month leap
days_from_civil-next_date_example =
    days_from_civil-next_date (pos 2024) 2 29 (omega arith) (omega arith) (omega arith)
      (ground arith)

-- 2026-07-01 00:00:00 in universal time.
abbrev midsummer : ℤ
midsummer = pos 1782864000

midsummer_test : is_dst pacific midsummer ≡ true
unfolding is_dst in_span standard_year dst_span_utc rule_epoch_local rule_day month_length
    nth_weekday fit_month civil_from_days day_era day_in_era year_of_day month_of_march
    weekday_from_days mod_trunc days_from_civil year_era year_of_era day_of_era day_of_year
    div_trunc to_uint32 ◌+ℤ◌ ◌-ℤ◌ ◌*ℤ◌
midsummer_test = refl

from_local-to_local_example :
    let t = to_local pacific midsummer in
    from_local pacific t.year t.month t.day t.hour t.minute t.second ≡ midsummer
from_local-to_local_example = from_local-to_local pacific midsummer (inl midsummer_test)

rule_day_lem_example :
    (d : ℕ) × (rule_day second_sunday_of_march (pos 2026) ≡ pos d)
    × (1 ≤ d)
    × (d ≤ days_in_month (pos 2026) 3)
    × (weekday_from_days (days_from_civil (pos 2026) 3 d) ≡ pos 0)
    × (((7 * 2 < d + 7) × (d ≤ 7 * 2))
        ⊎ ((second_sunday_of_march.week ≡ 5) × (days_in_month (pos 2026) 3 < d + 7)))
rule_day_lem_example =
    rule_day_lem second_sunday_of_march (pos 2026) (omega arith) (omega arith) (omega arith)
      (omega arith) (omega arith)
