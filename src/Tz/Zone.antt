-- ===== src/Tz/Zone.antt =====
-- components/timesvc/tz.cpp, the zone: its rules, the daylight span of a year, and the conversions.
-- Times are seconds as integers of either sign; offsets count west of UTC, as in a POSIX string.
use lost_swan_firmware.Common.{
  ℕ, zero, suc, ◌+◌, Bool, false, not, ◌&&◌, ◌||◌, ◌==◌, if◌then◌else◌, List, [],
}
use lost_swan_firmware.Common.Int.{ℤ, pos, ◌+ℤ◌, ◌-ℤ◌, ◌*ℤ◌, ltb_ℤ}
use lost_swan_firmware.Tz.Civil.{
  div_trunc, mod_trunc, is_negative, days_from_civil, civil_from_days, weekday_from_days,
}

abbrev pub day_s : ℕ
day_s = 86400

pub record LocalTime : Type 0 where
  pub year : ℤ
  pub month : ℕ
  pub day : ℕ
  pub hour : ℤ
  pub minute : ℤ
  pub second : ℤ
  pub weekday : ℤ
  pub dst : Bool

-- The `week`-th weekday `day` of a month, 5 being the last; `at` is a time of day.
pub record Rule : Type 0 where
  pub month : ℕ
  pub week : ℕ
  pub day : ℕ
  pub at : ℤ

-- Names are lists of character codes.
pub record TimeZone : Type 0 where
  pub std_name : List ℕ
  pub dst_name : List ℕ
  pub std_offset : ℤ
  pub dst_offset : ℤ
  pub has_dst : Bool
  pub start : Rule
  pub end_rule : Rule

abbrev pub default_rule : Rule
default_rule = record { month = 0; week = 0; day = 0; at = pos 7200 }

abbrev pub utc_zone : TimeZone
utc_zone = record {
  std_name = [];
  dst_name = [];
  std_offset = pos 0;
  dst_offset = pos 0;
  has_dst = false;
  start = default_rule;
  end_rule = default_rule;
}

-- `while (dom > days_in_month) dom -= 7;` on fuel.
unfoldable pub fit_month : ℕ → ℤ → ℤ → ℤ
fit_month zero limit dom = dom
fit_month (suc fuel) limit dom =
    let rest = fit_month fuel limit (dom -ℤ pos 7) in if ltb_ℤ limit dom then rest else dom

unfoldable pub month_length : ℤ → ℕ → ℤ
month_length year month =
    days_from_civil (year +ℤ (if month == 12 then pos 1 else pos 0))
      (if month == 12 then 1 else month + 1) 1
    -ℤ days_from_civil year month 1

-- The day of the month of a rule before it is clamped; `first_wd` is the weekday of the first.
unfoldable pub nth_weekday : Rule → ℤ → ℤ
nth_weekday r first_wd =
    pos 1
    +ℤ mod_trunc (mod_trunc (pos r.day -ℤ first_wd) 7 +ℤ pos 7) 7
    +ℤ (pos r.week -ℤ pos 1) *ℤ pos 7

-- A parsed rule has a day of at most 35 before it is clamped, and a month at least 28 days: one
-- round is enough, and five are allowed.
unfoldable pub rule_day : Rule → ℤ → ℤ
unfolding nth_weekday fit_month month_length
rule_day r year =
    fit_month 5 (month_length year r.month)
      (nth_weekday r (weekday_from_days (days_from_civil year r.month 1)))

unfoldable pub rule_epoch_local : Rule → ℤ → ℤ
rule_epoch_local r year =
    (days_from_civil year r.month 1 +ℤ rule_day r year -ℤ pos 1) *ℤ pos day_s +ℤ r.at

unfoldable pub dst_span_utc : TimeZone → ℤ → ℤ × ℤ
dst_span_utc tz year = (
  rule_epoch_local tz.start year +ℤ tz.std_offset,
  rule_epoch_local tz.end_rule year +ℤ tz.dst_offset,
)

-- The body of the loop over the years.
unfoldable pub in_span : TimeZone → ℤ → ℤ → Bool
in_span tz utc year =
    let (s, e) = dst_span_utc tz year in
    let e_next = (dst_span_utc tz (year +ℤ pos 1)).1 in
    if ltb_ℤ s e then not (ltb_ℤ utc s) && ltb_ℤ utc e else not (ltb_ℤ utc s) && ltb_ℤ utc e_next

-- The year of the standard time.
unfoldable pub standard_year : TimeZone → ℤ → ℤ
standard_year tz utc =
    let local = utc -ℤ tz.std_offset in
    let before = if is_negative (mod_trunc local day_s) then pos 1 else pos 0 in
    (civil_from_days (div_trunc local day_s -ℤ before)).0

unfoldable pub is_dst : TimeZone → ℤ → Bool
is_dst tz utc =
    let y = standard_year tz utc in
    tz.has_dst && (in_span tz utc (y -ℤ pos 1) || in_span tz utc y || in_span tz utc (y +ℤ pos 1))

-- The day number and the second of the day.
unfoldable pub split_day : ℤ → ℤ × ℤ
split_day local =
    let days = div_trunc local day_s in
    let sod = mod_trunc local day_s in
    if is_negative sod then (days -ℤ pos 1, sod +ℤ pos day_s) else (days, sod)

unfoldable pub to_local : TimeZone → ℤ → LocalTime
to_local tz utc =
    let dst = is_dst tz utc in
    let (days, sod) = split_day (utc -ℤ (if dst then tz.dst_offset else tz.std_offset)) in
    let (year, month, day) = civil_from_days days in
    record {
      year = year;
      month = month;
      day = day;
      hour = div_trunc sod 3600;
      minute = mod_trunc (div_trunc sod 60) 60;
      second = mod_trunc sod 60;
      weekday = weekday_from_days days;
      dst = dst;
    }

unfoldable pub wall_clock : ℤ → ℕ → ℕ → ℤ → ℤ → ℤ → ℤ
wall_clock year month day hour minute second =
    days_from_civil year month day *ℤ pos day_s +ℤ hour *ℤ pos 3600 +ℤ minute *ℤ pos 60 +ℤ second

unfoldable pub from_local : TimeZone → ℤ → ℕ → ℕ → ℤ → ℤ → ℤ → ℤ
from_local tz year month day hour minute second =
    let wall = wall_clock year month day hour minute second in
    let as_dst = wall +ℤ tz.dst_offset in
    if tz.has_dst && is_dst tz as_dst then as_dst else wall +ℤ tz.std_offset
