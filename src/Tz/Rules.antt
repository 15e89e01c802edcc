-- ===== src/Tz/Rules.antt =====
-- The transition days of components/timesvc/tz.cpp.
use lost_swan_firmware.Common.{
  ◌∙◌, sym, ap, ℕ, zero, suc, ◌+◌, ◌-◌, ◌*◌, ◌/◌, ◌%◌, ◌≤◌, ◌<◌, ◌≡◌, ◌⊎◌, inl, inr, refl, true,
  false, ◌==◌, if◌then◌else◌, leb, ltb, ltb→lt, arith, Bool-cases,
}
use lost_swan_firmware.Common.Int.{
  ℤ, pos, negsuc, sub_ℕ, ◌+ℤ◌, ◌-ℤ◌, ◌*ℤ◌, pos_part, neg_part, int_laws,
}
use lost_swan_firmware.Tz.Civil.{mod_trunc, days_from_civil, weekday_from_days}
use lost_swan_firmware.Tz.NextDay.{days_in_month, within_month, next_month}
use lost_swan_firmware.Tz.Zone.{Rule, fit_month, month_length, nth_weekday, rule_day}

weekday_split :
    (z : ℤ)
    → (w : ℕ) × (q : ℤ) × (w < 7)
      × (weekday_from_days z ≡ pos w)
      × (pos_part z + 4 + 7 * neg_part q ≡ neg_part z + 7 * pos_part q + w)
unfolding weekday_from_days mod_trunc ◌+ℤ◌
weekday_split (pos n) = ((n + 4) % 7, pos ((n + 4) / 7), omega arith, ground arith, omega arith)
weekday_split (negsuc n) =
    ((3 + 6 * n) % 7, sub_ℕ 0 ((n + 3) / 7), omega arith, ground arith, ground arith)

weekday_of :
    (z : ℤ)
    → (w : ℕ) → (q : ℤ) → w < 7
    → pos_part z + 4 + 7 * neg_part q ≡ neg_part z + 7 * pos_part q + w
    → weekday_from_days z ≡ pos w
weekday_of z w q lt parts =
    let (w₁, q₁, lt₁, is, parts₁) = weekday_split z in
    is ∙ ap pos (omega (arith, lt, lt₁, parts, parts₁))

days_in_month-positive : (y : ℤ) → (m : ℕ) → 28 ≤ days_in_month y m
unfolding days_in_month
days_in_month-positive y m = ground arith

day_in_month : (y : ℤ) → (m k : ℕ) → days_from_civil y m (suc k) ≡ days_from_civil y m 1 +ℤ pos k
day_in_month y m zero = omega int_laws
day_in_month y m (suc k) =
    let step : days_from_civil y m (suc k + 1) ≡ days_from_civil y m (suc k) +ℤ pos 1 =
      within_month y m (suc k) (omega arith) in
    let one_more : suc (suc k) ≡ suc k + 1 = omega arith in
    rw one_more (step ∙ rw (day_in_month y m k) (omega int_laws))

-- The first of the next month lies the month's length ahead.
length_before :
    (y : ℤ)
    → (m : ℕ) → (z : ℤ) → z ≡ days_from_civil y m (days_in_month y m) +ℤ pos 1
    → z -ℤ days_from_civil y m 1 ≡ pos (days_in_month y m)
length_before y m z h =
    let k = days_in_month y m - 1 in
    let positive : days_in_month y m ≡ suc k = omega (arith, days_in_month-positive y m) in
    rw h (rw positive (rw (day_in_month y m k) (omega int_laws)))

following_month :
    (y : ℤ)
    → (m : ℕ) → 1 ≤ m
    → m ≤ 12
    → days_from_civil (y +ℤ (if m == 12 then pos 1 else pos 0)) (if m == 12 then 1 else m + 1) 1
      ≡ days_from_civil y m (days_in_month y m) +ℤ pos 1
following_month y m lo hi = elim (Bool-cases (m == 12)) [
  | inl last ↦
      let end : m ≡ 12 = ground arith in rw end (next_month y 12 (omega arith) (omega arith))
  | inr other ↦
      let more : ltb m 12 ≡ true = ground arith in
      let same : y +ℤ pos 0 ≡ y = omega int_laws in
      rw other (rw same (rw more at (next_month y m lo hi)))
]

month_length_days : (y : ℤ) → (m : ℕ) → 1 ≤ m → m ≤ 12 → month_length y m ≡ pos (days_in_month y m)
unfolding month_length
month_length_days y m lo hi = length_before y m _ (following_month y m lo hi)

nth_weekday_lem :
    (r : Rule)
    → (w : ℕ) → w < 7
    → 1 ≤ r.week
    → r.day ≤ 6
    → nth_weekday r (pos w)
      ≡ pos ((if leb w r.day then r.day - w else r.day + 7 - w) + 1 + 7 * (r.week - 1))
unfolding nth_weekday mod_trunc ◌+ℤ◌ ◌-ℤ◌ ◌*ℤ◌
nth_weekday_lem r w lt week day = ground arith

fit_month_done : (fuel limit d : ℕ) → d ≤ limit → fit_month fuel (pos limit) (pos d) ≡ pos d
unfolding fit_month
fit_month_done zero limit d h = refl
fit_month_done (suc fuel) limit d h =
    let inside : ltb (limit + 0) (d + 0) ≡ false = ground arith in rw inside refl

-- One round is enough.
fit_month_lem :
    (fuel limit d : ℕ)
    → 28 ≤ limit
    → d ≤ 35
    → fit_month (suc fuel) (pos limit) (pos d) ≡ pos (if ltb limit d then d - 7 else d)
unfolding fit_month
fit_month_lem fuel limit d lo hi = elim (Bool-cases (ltb limit d)) [
  | inl more ↦
      let over : ltb (limit + 0) (d + 0) ≡ true = ground arith in
      let less : pos d -ℤ pos 7 ≡ pos (d - 7) = omega (int_laws, ltb→lt limit d more) in
      rw over (rw more (rw less (fit_month_done fuel limit (d - 7) (omega arith))))
  | inr fits ↦
      let inside : ltb (limit + 0) (d + 0) ≡ false = ground arith in rw inside (rw fits refl)
]

weekday_ahead :
    (z : ℤ)
    → (w day ahead k : ℕ) → w < 7
    → day ≤ 6
    → weekday_from_days z ≡ pos w
    → ahead ≡ (if leb w day then day - w else day + 7 - w) + 7 * k
    → weekday_from_days (z +ℤ pos ahead) ≡ pos day
weekday_ahead z w day ahead k lt day_lt is far =
    let (w₁, q, lt₁, is₁, parts) = weekday_split z in
    let same : w₁ ≡ w = ap pos_part (sym is₁ ∙ is) in
    let weeks = if leb w day then k else suc k in
    let reach : w + ahead ≡ day + 7 * weeks = ground arith in
    weekday_of (z +ℤ pos ahead) day (q +ℤ pos weeks) (omega arith)
      (omega (int_laws, parts, same, reach))

-- A rule with its fields in range gives a day of the month that falls on the weekday it names: the
-- `week`-th such day, or for week 5 the last, whichever of four or five there are.
pub rule_day_lem :
    (r : Rule)
    → (year : ℤ) → 1 ≤ r.month
    → r.month ≤ 12
    → 1 ≤ r.week
    → r.week ≤ 5
    → r.day ≤ 6
    → (d : ℕ) × (rule_day r year ≡ pos d)
      × (1 ≤ d)
      × (d ≤ days_in_month year r.month)
      × (weekday_from_days (days_from_civil year r.month d) ≡ pos r.day)
      × (((7 * r.week < d + 7) × (d ≤ 7 * r.week))
          ⊎ ((r.week ≡ 5) × (days_in_month year r.month < d + 7)))
unfolding rule_day
rule_day_lem r year m_lo m_hi w_lo w_hi day_hi =
    let first = days_from_civil year r.month 1 in
    let limit = days_in_month year r.month in
    let (w, q, w_lt, is, parts) = weekday_split first in
    let ahead = if leb w r.day then r.day - w else r.day + 7 - w in
    let dom = ahead + 1 + 7 * (r.week - 1) in
    let long = days_in_month-positive year r.month in
    let bound : ahead ≤ 6 = ground arith in
    let dom_hi : dom ≤ 35 = omega (arith, bound) in
    let d = if ltb limit dom then dom - 7 else dom in
    let weeks = if ltb limit dom then r.week - 2 else r.week - 1 in
    let from_first : d ≡ suc (ahead + 7 * weeks) = ground (arith, bound, long) in
    let falls = weekday_ahead first w r.day (ahead + 7 * weeks) weeks w_lt day_hi is refl in
    (
      d,
      rw (month_length_days year r.month m_lo m_hi) (
          rw is
            (rw (nth_weekday_lem r w w_lt w_lo day_hi) (fit_month_lem 4 limit dom long dom_hi))),
      omega (arith, from_first),
      ground (arith, bound, long),
      rw from_first (rw (day_in_month year r.month (ahead + 7 * weeks)) falls),
      ground (arith, bound, long),
    )
