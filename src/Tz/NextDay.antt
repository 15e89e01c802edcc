-- ===== src/Tz/NextDay.antt =====
-- The Gregorian rule for the next day, and the day numbers of components/timesvc/tz.cpp against it.
use lost_swan_firmware.Common.{
  ◌≢◌, ◌⊎◌, ◌∙◌, subst, ℕ, suc, ◌+◌, ◌%◌, ◌≡◌, ◌≤◌, ◌<◌, Bool, ◌&&◌, ◌||◌, not, leb, ltb, ◌==◌,
  if◌then◌else◌, arith, Bool-cases, inl, inr, ltb→lt, ltb→le,
}
use lost_swan_firmware.Common.Int.{ℤ, pos, negsuc, ◌+ℤ◌, ◌-ℤ◌, ◌*ℤ◌, pos_part, neg_part, int_laws}
use lost_swan_firmware.Tz.Civil.{year_era, year_of_era, day_of_year, day_of_era, days_from_civil}
use lost_swan_firmware.Tz.Calendar.{times146097_parts, year_split, year_era_again}

-- The calendar's own rule, with no day numbers in it.
abbrev divides : ℕ → ℤ → Bool
divides k y = (pos_part y + neg_part y) % k == 0

unfoldable pub leap : ℤ → Bool
leap y = divides 4 y && (not (divides 100 y) || divides 400 y)

unfoldable pub days_in_month : ℤ → ℕ → ℕ
days_in_month y m =
    if m == 2
    then if leap y then 29 else 28
    else if m == 4 || m == 6 || m == 9 || m == 11
    then 30
    else 31

abbrev pub first_of_next : ℤ → ℕ → ℤ × ℕ × ℕ
first_of_next y m = if ltb m 12 then (y, m + 1, 1) else (y +ℤ pos 1, 1, 1)

unfoldable pub next_date : ℤ → ℕ → ℕ → ℤ × ℕ × ℕ
unfolding days_in_month
next_date y m d = if ltb d (days_in_month y m) then (y, m, d + 1) else first_of_next y m

days_of : ℤ → ℕ → ℤ
days_of y doy = year_era y *ℤ pos 146097 +ℤ pos (day_of_era (year_of_era y) doy) -ℤ pos 719468

abbrev leap_of_era : ℕ → Bool
leap_of_era yoe = yoe % 4 == 0 && (not (yoe % 100 == 0) || yoe == 0)

leap-year_of_era : (y : ℤ) → leap y ≡ leap_of_era (year_of_era y)
unfolding leap
leap-year_of_era (pos n) = let (split, lt) = year_split (pos n) in ground (arith, split, lt)
leap-year_of_era (negsuc n) = let (split, lt) = year_split (negsuc n) in ground (arith, split, lt)

days_of_next_doy : (y : ℤ) → (doy : ℕ) → days_of y (suc doy) ≡ days_of y doy +ℤ pos 1
unfolding days_of day_of_era
days_of_next_doy y doy = omega int_laws

-- March opens the next year of the era, or the next era.
next_year :
    (y : ℤ)
    → ((year_era (y +ℤ pos 1) ≡ year_era y) × (year_of_era (y +ℤ pos 1) ≡ suc (year_of_era y)))
      ⊎ ((year_era (y +ℤ pos 1) ≡ year_era y +ℤ pos 1)
          × (year_of_era (y +ℤ pos 1) ≡ 0)
          × (year_of_era y ≡ 399))
next_year y =
    let (split, lt) = year_split y in
    elim (Bool-cases (ltb (year_of_era y) 399)) [
      | inl more ↦ inl (
          year_era_again (year_era y) (suc (year_of_era y))
            (omega (arith, ltb→lt (year_of_era y) 399 more)) (y +ℤ pos 1) (omega (int_laws, split)))
      | inr last ↦
          let top : year_of_era y ≡ 399 = omega (arith, ltb→le (year_of_era y) 399 last, lt) in
          let (era, year) =
            year_era_again (year_era y +ℤ pos 1) 0 (omega arith) (y +ℤ pos 1)
              (omega (int_laws, split, top)) in
          inr (era, year, top)
    ]

next_year_days :
    (yoe : ℕ)
    → day_of_era (suc yoe) 0 ≡ suc (day_of_era yoe (if leap_of_era (suc yoe) then 365 else 364))
unfolding day_of_era
next_year_days yoe = ground arith

days_of_march :
    (y : ℤ) → days_of (y +ℤ pos 1) 0 ≡ days_of y (if leap (y +ℤ pos 1) then 365 else 364) +ℤ pos 1
unfolding days_of day_of_era
days_of_march y = elim (next_year y) [
  | inl (era, year) ↦
      rw (leap-year_of_era (y +ℤ pos 1))
        (rw era (rw year (omega (int_laws, next_year_days (year_of_era y)))))
  | inr (era, year, top) ↦ rw (leap-year_of_era (y +ℤ pos 1)) (
      rw era (
        rw year (
          rw top (
            omega (
              int_laws,
              times146097_parts (year_era y),
              times146097_parts (year_era y +ℤ pos 1),
            )))))
]

-- The day of the year, from the first of March, on either side of a month's end.
month_end :
    (y : ℤ)
    → (m : ℕ) → 1 ≤ m
    → m < 12
    → m ≢ 2
    → day_of_year (m + 1) 1 ≡ suc (day_of_year m (days_in_month y m))
unfolding day_of_year days_in_month
month_end y m lo hi not_february = ground arith

february_end : (y : ℤ) → day_of_year 2 (days_in_month y 2) ≡ (if leap y then 365 else 364)
unfolding day_of_year days_in_month
february_end y = ground arith

next_day_of_year : (m d : ℕ) → 1 ≤ d → day_of_year m (d + 1) ≡ suc (day_of_year m d)
unfolding day_of_year
next_day_of_year m d lo = ground arith

-- The year that began last March.
abbrev march_year : ℤ → ℕ → ℤ
march_year y m = y -ℤ (if leb m 2 then pos 1 else pos 0)

same_march_year : (y : ℤ) → (m : ℕ) → m ≢ 2 → march_year y (m + 1) ≡ march_year y m
same_march_year y m not_february = ground arith

pub within_month :
    (y : ℤ) → (m d : ℕ) → 1 ≤ d → days_from_civil y m (d + 1) ≡ days_from_civil y m d +ℤ pos 1
unfolding days_from_civil days_of
within_month y m d lo =
    rw (next_day_of_year m d lo) (days_of_next_doy (march_year y m) (day_of_year m d))

over_month :
    (y : ℤ)
    → (m : ℕ) → 1 ≤ m
    → m < 12
    → m ≢ 2
    → days_from_civil y (m + 1) 1 ≡ days_from_civil y m (days_in_month y m) +ℤ pos 1
unfolding days_from_civil days_of
over_month y m lo hi not_february = rw (same_march_year y m not_february) (
    rw (month_end y m lo hi not_february)
      (days_of_next_doy (march_year y m) (day_of_year m (days_in_month y m))))

over_february : (y : ℤ) → days_from_civil y 3 1 ≡ days_from_civil y 2 (days_in_month y 2) +ℤ pos 1
unfolding days_from_civil days_of day_of_year
over_february y =
    let march : y -ℤ pos 1 +ℤ pos 1 ≡ y -ℤ pos 0 = omega int_laws in
    let same : y -ℤ pos 0 ≡ y = omega int_laws in
    rw (february_end y) (
      rw same (
        subst (λ w. days_of w 0 ≡ days_of (y -ℤ pos 1) (if leap w then 365 else 364) +ℤ pos 1)
          (march ∙ same) (days_of_march (y -ℤ pos 1))))

over_year : (y : ℤ) → days_from_civil (y +ℤ pos 1) 1 1 ≡ days_from_civil y 12 31 +ℤ pos 1
unfolding days_from_civil days_of day_of_year
over_year y =
    let same : y +ℤ pos 1 -ℤ pos 1 ≡ y -ℤ pos 0 = omega int_laws in
    rw same (days_of_next_doy (y -ℤ pos 0) 305)

pub next_month :
    (y : ℤ)
    → (m : ℕ) → 1 ≤ m
    → m ≤ 12
    → let (y₁, m₁, d₁) = first_of_next y m in
      days_from_civil y₁ m₁ d₁ ≡ days_from_civil y m (days_in_month y m) +ℤ pos 1
unfolding days_in_month
next_month y m lo hi = elim (Bool-cases (ltb m 12)) [
  | inl more ↦ rw more (elim (Bool-cases (m == 2)) [
    | inl february ↦ let two : m ≡ 2 = ground arith in rw two (over_february y)
    | inr other ↦ over_month y m lo (ltb→lt m 12 more) (ground arith)
  ])
  | inr last ↦ let end : m ≡ 12 = omega (arith, ltb→le m 12 last) in rw last (rw end (over_year y))
]

-- Each valid date gets the day number after that of the date before it: the number that the code
-- gives to the next date, by the Gregorian rule, is one more.
pub days_from_civil-next_date :
    (y : ℤ)
    → (m d : ℕ) → 1 ≤ m
    → m ≤ 12
    → 1 ≤ d
    → d ≤ days_in_month y m
    → let (y₁, m₁, d₁) = next_date y m d in
      days_from_civil y₁ m₁ d₁ ≡ days_from_civil y m d +ℤ pos 1
unfolding next_date
days_from_civil-next_date y m d m_lo m_hi d_lo d_hi =
    elim (Bool-cases (ltb d (days_in_month y m))) [
      | inl more ↦ rw more (within_month y m d d_lo)
      | inr last ↦
          let end : d ≡ days_in_month y m = omega (arith, ltb→le d (days_in_month y m) last) in
          rw last (rw end (next_month y m m_lo m_hi))
    ]
