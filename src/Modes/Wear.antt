-- ===== src/Modes/Wear.antt =====
-- components/modes/wear.cpp: the flips that a day of the clock and a run of the countdown cost. The
-- counters have 32 bits. The loops take fuel, and are `none` where it ran out.
use lost_swan_firmware.Common.{
  ℕ, zero, suc, ◌+◌, ◌/◌, ◌%◌, ◌^◌, Bool, false, not, ◌||◌, ltb, ◌==◌, if◌then◌else◌, List, [], ◌∷◌,
  Option, none, some,
}
use lost_swan_firmware.Common.Int.{pos}
use lost_swan_firmware.Motion.Geometry.{ring_forward_distance, ring_home_slot}
use lost_swan_firmware.Tz.Zone.{LocalTime}
use lost_swan_firmware.Countdown.{SecondsMode, clamp, countdown_next_shown_s}
use lost_swan_firmware.Ring.{RingSet}
use lost_swan_firmware.Modes.Render.{render_clock, render_countdown}
use lost_swan_firmware.Common.Int.{ℤ}

pub record WearEstimate : Type 0 where
  pub flips : List ℕ
  pub total : ℕ
  pub renders : ℕ

abbrev pub no_wear : WearEstimate
no_wear = record { flips = 0 ∷ 0 ∷ 0 ∷ 0 ∷ 0 ∷ []; total = 0; renders = 0 }

-- The columns from left to right: their counters, the total, and whether one moved.
unfoldable pub add_columns : List ℕ → List ℕ → List ℕ → ℕ → List ℕ × ℕ × Bool
add_columns (f ∷ fs) (a ∷ froms) (b ∷ tos) total =
    let d = ring_forward_distance a b in
    let (flips, sum, moved) = add_columns fs froms tos ((total + d) % 2 ^ 32) in
    ((f + d) % 2 ^ 32 ∷ flips, sum, not (d == 0) || moved)
add_columns fs _ _ total = (fs, total, false)

unfoldable pub accumulate : WearEstimate → List ℕ → List ℕ → WearEstimate
accumulate w from to =
    let (flips, total, moved) = add_columns w.flips from to w.total in
    record {
      flips = flips;
      total = total;
      renders = if moved then (w.renders + 1) % 2 ^ 32 else w.renders;
    }

abbrev pub granularities : List ℕ
granularities = 1 ∷ 2 ∷ 3 ∷ 4 ∷ 5 ∷ 6 ∷ 10 ∷ 12 ∷ 15 ∷ 20 ∷ 30 ∷ 60 ∷ []

abbrev pub is_one_of : List ℕ → ℕ → Bool
is_one_of [] minutes = false
is_one_of (g ∷ gs) minutes = (g == minutes) || is_one_of gs minutes

unfoldable pub granularity_valid : ℕ → Bool
granularity_valid minutes = is_one_of granularities minutes

unfoldable pub at_minute : ℕ → LocalTime
at_minute minute_of_day = record {
  year = pos 2026;
  month = 1;
  day = 1;
  hour = pos (minute_of_day / 60);
  minute = pos (minute_of_day % 60);
  second = pos 0;
  weekday = pos 4;
  dst = false;
}

abbrev pub at_home : List ℕ
at_home = ring_home_slot ∷ ring_home_slot ∷ ring_home_slot ∷ ring_home_slot ∷ ring_home_slot ∷ []

module _ (ring : RingSet) where
  -- The minutes of a day after its first, then midnight.
  unfoldable pub day_lap : ℕ → Bool → ℕ → ℕ → WearEstimate → List ℕ → Option (WearEstimate × List ℕ)
  day_lap zero h24 step m w cur = none
  day_lap (suc fuel) h24 step m w cur =
      let next = render_clock ring (at_minute m) h24 cur in
      let midnight = render_clock ring (at_minute 0) h24 cur in
      let rest = day_lap fuel h24 step (m + step) (accumulate w cur next) next in
      if ltb m 1440 then rest else some (accumulate w cur midnight, midnight)

  abbrev pub second_lap : Bool → ℕ → Option (WearEstimate × List ℕ) → Option WearEstimate
  second_lap h24 step none = none
  second_lap h24 step (some (w, cur)) = elim (day_lap 1441 h24 step step no_wear cur) [
    | none ↦ none
    | some (lap, last) ↦ some lap
  ]

  unfoldable pub clock_wear_per_day : Bool → ℕ → Option WearEstimate
  clock_wear_per_day h24 step =
      let cur = render_clock ring (at_minute 0) h24 at_home in
      if not (granularity_valid step)
      then some no_wear
      else second_lap h24 step (day_lap 1441 h24 step step no_wear cur)

  -- The run from what is shown down to zero.
  unfoldable pub wear_from : ℕ → SecondsMode → ℕ → ℕ → WearEstimate → List ℕ → Option WearEstimate
  wear_from zero mode live_s shown w cur = none
  wear_from (suc fuel) mode live_s shown w cur =
      let next_shown = countdown_next_shown_s mode shown live_s in
      let next = render_countdown ring next_shown cur in
      let rest = wear_from fuel mode live_s next_shown (accumulate w cur next) next in
      if shown == 0 then some w else rest

  unfoldable pub countdown_wear_per_run : SecondsMode → ℤ → Option WearEstimate
  countdown_wear_per_run mode live_s =
      wear_from 6481 mode (clamp live_s) 6480 no_wear (render_countdown ring 6480 at_home)
