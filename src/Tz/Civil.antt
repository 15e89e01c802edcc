-- ===== src/Tz/Civil.antt =====
-- components/timesvc/tz.cpp, the civil-date helpers. Years and day numbers are integers of either
-- sign; months and days of a month are positive, as every caller passes them. C divides towards 0.
use lost_swan_firmware.Common.{
  ℕ, suc, ◌+◌, ◌-◌, ◌*◌, ◌/◌, ◌%◌, ◌^◌, Bool, true, false, leb, ltb, if◌then◌else◌,
}
use lost_swan_firmware.Common.Int.{ℤ, pos, negsuc, ◌+ℤ◌, ◌-ℤ◌, ◌*ℤ◌, sub_ℕ, neg_part}

-- `/` and `%` of a signed integer by a positive constant.
unfoldable pub div_trunc : ℤ → ℕ → ℤ
div_trunc (pos n) k = pos (n / k)
div_trunc (negsuc n) k = sub_ℕ 0 (suc n / k)

unfoldable pub mod_trunc : ℤ → ℕ → ℤ
mod_trunc (pos n) k = pos (n % k)
mod_trunc (negsuc n) k = sub_ℕ 0 (suc n % k)

-- `static_cast<unsigned>`.
unfoldable pub to_uint32 : ℤ → ℕ
to_uint32 (pos n) = n % 2 ^ 32
to_uint32 (negsuc n) = 2 ^ 32 - 1 - n % 2 ^ 32

abbrev pub is_negative : ℤ → Bool
is_negative (pos n) = false
is_negative (negsuc n) = true

unfoldable pub year_era : ℤ → ℤ
unfolding div_trunc ◌-ℤ◌
year_era y = div_trunc (if is_negative y then y -ℤ pos 399 else y) 400

unfoldable pub year_of_era : ℤ → ℕ
unfolding year_era to_uint32 ◌-ℤ◌ ◌*ℤ◌
year_of_era y = to_uint32 (y -ℤ year_era y *ℤ pos 400)

-- Days from the first of March.
unfoldable pub day_of_year : ℕ → ℕ → ℕ
day_of_year m d = (153 * (if ltb 2 m then m - 3 else m + 9) + 2) / 5 + d - 1

unfoldable pub day_of_era : ℕ → ℕ → ℕ
day_of_era yoe doy = yoe * 365 + yoe / 4 - yoe / 100 + doy

unfoldable pub days_from_civil : ℤ → ℕ → ℕ → ℤ
days_from_civil y₀ m d =
    let y = y₀ -ℤ (if leb m 2 then pos 1 else pos 0) in
    year_era y *ℤ pos 146097 +ℤ pos (day_of_era (year_of_era y) (day_of_year m d)) -ℤ pos 719468

unfoldable pub day_era : ℤ → ℤ
unfolding div_trunc ◌-ℤ◌
day_era z = div_trunc (if is_negative z then z -ℤ pos 146096 else z) 146097

unfoldable pub day_in_era : ℤ → ℕ
unfolding day_era to_uint32 ◌-ℤ◌ ◌*ℤ◌
day_in_era z = to_uint32 (z -ℤ day_era z *ℤ pos 146097)

unfoldable pub year_of_day : ℕ → ℕ
year_of_day doe = (doe - doe / 1460 + doe / 36524 - doe / 146096) / 365

unfoldable pub month_of_march : ℕ → ℕ
month_of_march mp = if ltb mp 10 then mp + 3 else mp - 9

-- The year, the month and the day of the month.
unfoldable pub civil_from_days : ℤ → ℤ × ℕ × ℕ
civil_from_days z₀ =
    let z = z₀ +ℤ pos 719468 in
    let doe = day_in_era z in
    let yoe = year_of_day doe in
    let doy = doe - (365 * yoe + yoe / 4 - yoe / 100) in
    let mp = (5 * doy + 2) / 153 in
    let m = month_of_march mp in
    (
      pos yoe +ℤ day_era z *ℤ pos 400 +ℤ (if leb m 2 then pos 1 else pos 0),
      m,
      doy - (153 * mp + 2) / 5 + 1,
    )

unfoldable pub weekday_from_days : ℤ → ℤ
unfolding mod_trunc ◌+ℤ◌
weekday_from_days z =
    if leb 5 (neg_part z) then mod_trunc (z +ℤ pos 5) 7 +ℤ pos 6 else mod_trunc (z +ℤ pos 4) 7
