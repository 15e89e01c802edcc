-- ===== src/Tz/Calendar.antt =====
-- The Gregorian calendar as a rule for the next day, and the civil-date helpers of
-- components/timesvc/tz.cpp against it.
use lost_swan_firmware.Common.{
  ◌∙◌, ℕ, ◌+◌, ◌-◌, ◌*◌, ◌/◌, ◌≡◌, ◌≤◌, ◌<◌, refl, leb, if◌then◌else◌, arith,
}
use lost_swan_firmware.Common.Int.{
  ℤ, pos, negsuc, ◌+ℤ◌, ◌-ℤ◌, ◌*ℤ◌, pos_part, neg_part, +ℤ_cancel, int_laws,
}
use lost_swan_firmware.Tz.Civil.{
  div_trunc, to_uint32, year_era, year_of_era, day_of_year, day_of_era, days_from_civil, day_era,
  day_in_era, year_of_day, month_of_march, civil_from_days,
}

times400_parts :
    (a : ℤ)
    → pos_part (a *ℤ pos 400) + 400 * neg_part a ≡ neg_part (a *ℤ pos 400) + 400 * pos_part a
unfolding ◌*ℤ◌
times400_parts a = ground arith

pub times146097_parts :
    (a : ℤ)
    → pos_part (a *ℤ pos 146097) + 146097 * neg_part a
      ≡ neg_part (a *ℤ pos 146097) + 146097 * pos_part a
unfolding ◌*ℤ◌
times146097_parts a = ground arith

pub year_split :
    (y : ℤ)
    → (pos_part y + 400 * neg_part (year_era y)
        ≡ neg_part y + 400 * pos_part (year_era y) + year_of_era y)
      × (year_of_era y < 400)
unfolding year_era year_of_era div_trunc to_uint32 ◌-ℤ◌ ◌*ℤ◌
year_split (pos n) = ground arith
year_split (negsuc n) = ground arith

day_split :
    (z : ℤ)
    → (pos_part z + 146097 * neg_part (day_era z)
        ≡ neg_part z + 146097 * pos_part (day_era z) + day_in_era z)
      × (day_in_era z < 146097)
unfolding day_era day_in_era div_trunc to_uint32 ◌-ℤ◌ ◌*ℤ◌
day_split (pos n) = ground arith
day_split (negsuc n) = ground arith

year_of_day_lem :
    (doe : ℕ)
    → doe < 146097
    → (year_of_day doe < 400)
      × (365 * year_of_day doe + year_of_day doe / 4 - year_of_day doe / 100 ≤ doe)
      × (doe ≤ 365 * year_of_day doe + year_of_day doe / 4 - year_of_day doe / 100 + 365)
unfolding year_of_day
year_of_day_lem doe h = ground arith

abbrev march_index : ℕ → ℕ
march_index doy = (5 * doy + 2) / 153

month_and_day :
    (doy : ℕ)
    → doy ≤ 365
    → day_of_year (month_of_march (march_index doy)) (doy - (153 * march_index doy + 2) / 5 + 1)
      ≡ doy
unfolding day_of_year month_of_march
month_and_day doy h = ground arith

day_of_era_again :
    (doe : ℕ)
    → doe < 146097
    → day_of_era
        (year_of_day doe)
        (doe - (365 * year_of_day doe + year_of_day doe / 4 - year_of_day doe / 100))
      ≡ doe
unfolding day_of_era
day_of_era_again doe h = omega (arith, year_of_day_lem doe h)

-- The era and the year of the era of a year written as both.
pub year_era_again :
    (e : ℤ)
    → (yoe : ℕ) → yoe < 400
    → (y : ℤ) → pos_part y + 400 * neg_part e ≡ neg_part y + 400 * pos_part e + yoe
    → (year_era y ≡ e) × (year_of_era y ≡ yoe)
year_era_again e yoe lt y h = omega (int_laws, year_split y)

abbrev after_february : ℕ → ℤ
after_february m = if leb m 2 then pos 1 else pos 0

days_at :
    (e : ℤ)
    → (yoe m d : ℕ) → yoe < 400
    → days_from_civil (pos yoe +ℤ e *ℤ pos 400 +ℤ after_february m) m d
      ≡ e *ℤ pos 146097 +ℤ pos (day_of_era yoe (day_of_year m d)) -ℤ pos 719468
unfolding days_from_civil
days_at e yoe m d lt =
    let y = pos yoe +ℤ e *ℤ pos 400 in
    let (era, year) = year_era_again e yoe lt y (omega (int_laws, times400_parts e)) in
    rw (+ℤ_cancel y (after_february m)) (rw era (rw year refl))

-- Days to a civil date and back is the identity, for every day before and after 1970.
pub days_from_civil-civil_from_days :
    (z : ℤ) → let (y, m, d) = civil_from_days z in days_from_civil y m d ≡ z
unfolding civil_from_days
days_from_civil-civil_from_days z₀ =
    let z = z₀ +ℤ pos 719468 in
    let doe = day_in_era z in
    let yoe = year_of_day doe in
    let doy = doe - (365 * yoe + yoe / 4 - yoe / 100) in
    let mp = march_index doy in
    let (split, lt) = day_split z in
    let (yoe_lt, start, within) = year_of_day_lem doe lt in
    days_at (day_era z) yoe (month_of_march mp) (doy - (153 * mp + 2) / 5 + 1) yoe_lt
    ∙ rw (month_and_day doy (omega arith))
        (rw (day_of_era_again doe lt) (omega (int_laws, times146097_parts (day_era z), split)))
