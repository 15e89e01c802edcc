-- ===== src/Tz/Local.antt =====
-- Wall clock and universal time in components/timesvc/tz.cpp.
use lost_swan_firmware.Common.{
  ◌∙◌, ap, ℕ, ◌+◌, ◌-◌, ◌*◌, ◌%◌, ◌≤◌, ◌≡◌, ◌⊎◌, inl, inr, refl, Bool, true, false, ◌&&◌,
  if◌then◌else◌, arith, Bool-cases,
}
use lost_swan_firmware.Common.Int.{ℤ, pos, negsuc, ◌+ℤ◌, ◌-ℤ◌, ◌*ℤ◌, pos_part, neg_part, int_laws}
use lost_swan_firmware.Tz.Civil.{div_trunc, mod_trunc}
use lost_swan_firmware.Tz.Calendar.{days_from_civil-civil_from_days}
use lost_swan_firmware.Tz.Zone.{TimeZone, is_dst, split_day, to_local, wall_clock, from_local}

-- A second of the day, as a number.
split_day_lem :
    (t : ℤ)
    → let (days, sod) = split_day t in
      (s : ℕ) × (sod ≡ pos s)
      × (s + 1 ≤ 86400)
      × (pos_part t + 86400 * neg_part days ≡ neg_part t + 86400 * pos_part days + s)
unfolding split_day div_trunc mod_trunc ◌+ℤ◌ ◌-ℤ◌
split_day_lem (pos n) = (n % 86400, refl, omega arith, omega arith)
split_day_lem (negsuc n) = (86399 - n % 86400, ground arith, omega arith, ground arith)

times_day :
    (a : ℤ)
    → pos_part (a *ℤ pos 86400) + 86400 * neg_part a
      ≡ neg_part (a *ℤ pos 86400) + 86400 * pos_part a
unfolding ◌*ℤ◌
times_day a = ground arith

-- The three fields of a second of the day.
clock_fields :
    (s : ℕ)
    → div_trunc (pos s) 3600 *ℤ pos 3600
        +ℤ mod_trunc (div_trunc (pos s) 60) 60 *ℤ pos 60
        +ℤ mod_trunc (pos s) 60
      ≡ pos s
unfolding div_trunc mod_trunc ◌+ℤ◌ ◌*ℤ◌
clock_fields s = ground arith

day_and_clock :
    (local days : ℤ)
    → (s : ℕ) → pos_part local + 86400 * neg_part days ≡ neg_part local + 86400 * pos_part days + s
    → days *ℤ pos 86400
        +ℤ div_trunc (pos s) 3600 *ℤ pos 3600
        +ℤ mod_trunc (div_trunc (pos s) 60) 60 *ℤ pos 60
        +ℤ mod_trunc (pos s) 60
      ≡ local
day_and_clock local days s parts =
    let hours = div_trunc (pos s) 3600 *ℤ pos 3600 in
    let minutes = mod_trunc (div_trunc (pos s) 60) 60 *ℤ pos 60 in
    let seconds = mod_trunc (pos s) 60 in
    let grouped : days *ℤ pos 86400 +ℤ hours +ℤ minutes +ℤ seconds
        ≡ days *ℤ pos 86400 +ℤ (hours +ℤ minutes +ℤ seconds) =
      omega int_laws in
    grouped ∙ rw (clock_fields s) (omega (int_laws, times_day days, parts))

-- The fields that `to_local` gives are those of the local second.
wall-to_local :
    (tz : TimeZone)
    → (utc : ℤ)
    → let t = to_local tz utc in
      wall_clock t.year t.month t.day t.hour t.minute t.second
      ≡ utc -ℤ (if is_dst tz utc then tz.dst_offset else tz.std_offset)
unfolding to_local wall_clock
wall-to_local tz utc =
    let local = utc -ℤ (if is_dst tz utc then tz.dst_offset else tz.std_offset) in
    let (days, sod) = split_day local in
    let (s, is_s, bound, parts) = split_day_lem local in
    rw (days_from_civil-civil_from_days days) (rw is_s (day_and_clock local days s parts))

has_dst_of : (tz : TimeZone) → (utc : ℤ) → is_dst tz utc ≡ true → tz.has_dst ≡ true
unfolding is_dst
has_dst_of tz utc h = ground arith

choose_both : (b c : Bool) → (x y : ℤ) → b ≡ true → c ≡ true → (if b && c then x else y) ≡ x
choose_both b c x y hb hc = rw hb (rw hc refl)

choose_second : (b c : Bool) → (x y : ℤ) → c ≡ false → (if b && c then x else y) ≡ y
choose_second true c x y hc = rw hc refl
choose_second false c x y hc = refl

-- `from_local` of a wall clock.
abbrev read_wall : TimeZone → ℤ → ℤ
read_wall tz wall =
    let as_dst = wall +ℤ tz.dst_offset in
    if tz.has_dst && is_dst tz as_dst then as_dst else wall +ℤ tz.std_offset

read_daylight :
    (tz : TimeZone) → (utc : ℤ) → is_dst tz utc ≡ true → read_wall tz (utc -ℤ tz.dst_offset) ≡ utc
read_daylight tz utc h =
    let back : utc -ℤ tz.dst_offset +ℤ tz.dst_offset ≡ utc = omega int_laws in
    rw back (
      choose_both tz.has_dst (is_dst tz utc) utc (utc -ℤ tz.dst_offset +ℤ tz.std_offset)
        (has_dst_of tz utc h) h)

read_single :
    (tz : TimeZone)
    → (utc : ℤ) → is_dst tz (utc -ℤ tz.std_offset +ℤ tz.dst_offset) ≡ false
    → read_wall tz (utc -ℤ tz.std_offset) ≡ utc
read_single tz utc h =
    let back : utc -ℤ tz.std_offset +ℤ tz.std_offset ≡ utc = omega int_laws in
    let as_dst = utc -ℤ tz.std_offset +ℤ tz.dst_offset in
    choose_second tz.has_dst (is_dst tz as_dst) as_dst (utc -ℤ tz.std_offset +ℤ tz.std_offset) h
    ∙ back

-- To local time and back is the identity, outside the hour that the clock repeats: where the instant
-- is in daylight time, or the instant with the same wall clock read as daylight time is not.
pub from_local-to_local :
    (tz : TimeZone)
    → (utc : ℤ)
    → (is_dst tz utc ≡ true) ⊎ (is_dst tz (utc -ℤ tz.std_offset +ℤ tz.dst_offset) ≡ false)
    → let t = to_local tz utc in from_local tz t.year t.month t.day t.hour t.minute t.second ≡ utc
unfolding from_local
from_local-to_local tz utc (inl daylight) =
    ap (read_wall tz) (wall-to_local tz utc) ∙ rw daylight (read_daylight tz utc daylight)
from_local-to_local tz utc (inr single) =
    ap (read_wall tz) (wall-to_local tz utc) ∙ elim (Bool-cases (is_dst tz utc)) [
      | inl daylight ↦ rw daylight (read_daylight tz utc daylight)
      | inr standard ↦ rw standard (read_single tz utc single)
    ]
