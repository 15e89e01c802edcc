-- ===== src/Modes/Flips.antt =====
-- The estimates of components/modes/wear.cpp: they come back, and their totals add up.
use lost_swan_firmware.Common.{
  ℕ, zero, suc, ◌+◌, ◌%◌, ◌^◌, ◌<◌, ◌≡◌, refl, Bool, true, not, ltb, ◌==◌, arith, List, [], ◌∷◌,
  Option, none, some, by_branch,
}
use lost_swan_firmware.Common.Int.{ℤ}
use lost_swan_firmware.Motion.Geometry.{ring_forward_distance}
use lost_swan_firmware.Countdown.{
  SecondsMode, minutes, tens, seconds, clamp, countdown_step_s, countdown_shown_s,
  countdown_next_shown_s,
}
use lost_swan_firmware.Ring.{RingSet}
use lost_swan_firmware.Modes.Render.{render_clock, render_countdown}
use lost_swan_firmware.Modes.Wear.{
  WearEstimate, no_wear, add_columns, accumulate, granularity_valid, at_minute, at_home, day_lap,
  second_lap, clock_wear_per_day, wear_from, countdown_wear_per_run,
}

abbrev pub sum : List ℕ → ℕ
sum [] = 0
sum (f ∷ fs) = f + sum fs

-- The total is the sum of the columns, modulo 2^32.
abbrev pub Totals : WearEstimate → Type 0
Totals w = w.total ≡ sum w.flips % 2 ^ 32

-- The estimate came back, and its total is that of its columns.
pub data Estimates : Option WearEstimate → Type 0 where
  estimated : (w : WearEstimate) → Totals w → Estimates (some w)

data Laps : Option (WearEstimate × List ℕ) → Type 0 where
  lapped : (w : WearEstimate) (cur : List ℕ) → Totals w → Laps (some (w, cur))

add_columns-sum :
    (fs froms tos : List ℕ) (total base : ℕ)
    → total ≡ (base + sum fs) % 2 ^ 32
    → (add_columns fs froms tos total).1 ≡ (base + sum (add_columns fs froms tos total).0) % 2 ^ 32
unfolding add_columns
add_columns-sum [] froms tos total base h = h
add_columns-sum (f ∷ fs) [] tos total base h = h
add_columns-sum (f ∷ fs) (a ∷ froms) [] total base h = h
add_columns-sum (f ∷ fs) (a ∷ froms) (b ∷ tos) total base h =
    let d = ring_forward_distance a b in
    let rest =
      add_columns-sum fs froms tos ((total + d) % 2 ^ 32) (base + (f + d) % 2 ^ 32)
        (omega (arith, h)) in
    omega (arith, rest)

accumulate-Totals : (w : WearEstimate) (from to : List ℕ) → Totals w → Totals (accumulate w from to)
unfolding accumulate
accumulate-Totals w from to h =
    let added = add_columns-sum w.flips from to w.total 0 (omega (arith, h)) in omega (arith, added)

countdown_next_shown_s-less :
    (mode : SecondsMode)
    → (shown live : ℕ) → 0 < shown
    → countdown_next_shown_s mode shown live < shown
unfolding countdown_next_shown_s countdown_shown_s countdown_step_s
countdown_next_shown_s-less minutes shown live h = ground arith
countdown_next_shown_s-less tens shown live h = ground arith
countdown_next_shown_s-less seconds shown live h = ground arith

module _ (ring : RingSet) where
  day_lap-Laps :
      (fuel : ℕ) (h24 : Bool) (step m : ℕ) (w : WearEstimate) (cur : List ℕ)
      → 0 < step
      → 0 < fuel
      → 1440 < m + fuel
      → Totals w
      → Laps (day_lap ring fuel h24 step m w cur)
  unfolding day_lap
  day_lap-Laps zero h24 step m w cur wide some_left enough h = absurd (omega arith)
  day_lap-Laps (suc fuel) h24 step m w cur wide some_left enough h =
      let next = render_clock ring (at_minute m) h24 cur in
      let midnight = render_clock ring (at_minute 0) h24 cur in
      by_branch Laps (ltb m 1440)
        (λ early.
          day_lap-Laps fuel h24 step (m + step) (accumulate w cur next) next wide
            (ground (arith, enough)) (omega arith) (accumulate-Totals w cur next h))
        (λ late. lapped (accumulate w cur midnight) midnight (accumulate-Totals w cur midnight h))

  last_lap :
      (o : Option (WearEstimate × List ℕ))
      → Laps o
      → Estimates (elim o [ none ↦ none | some (lap, last) ↦ some lap ])
  last_lap o (lapped w cur h) = estimated w h

  second_lap-Estimates :
      (h24 : Bool) (step : ℕ) (o : Option (WearEstimate × List ℕ))
      → 0 < step
      → Laps o
      → Estimates (second_lap ring h24 step o)
  second_lap-Estimates h24 step o wide (lapped w cur h) =
      last_lap _ (day_lap-Laps 1441 h24 step step no_wear cur wide (omega arith) (omega arith) refl)

  granularity_valid-bound : (step : ℕ) → granularity_valid step ≡ true → 0 < step
  unfolding granularity_valid
  granularity_valid-bound step h = ground arith

  clock_wear_per_day-Estimates :
      (h24 : Bool) (step : ℕ) → Estimates (clock_wear_per_day ring h24 step)
  unfolding clock_wear_per_day
  clock_wear_per_day-Estimates h24 step =
      by_branch Estimates (not (granularity_valid step)) (λ bad. estimated no_wear refl)
        (λ good.
          let wide : 0 < step = granularity_valid-bound step (ground (arith, good)) in
          second_lap-Estimates h24 step _ wide (
            day_lap-Laps 1441 h24 step step no_wear (render_clock ring (at_minute 0) h24 at_home)
              wide (omega arith) (omega arith) refl))

  wear_from-Estimates :
      (fuel : ℕ) (mode : SecondsMode) (live_s shown : ℕ) (w : WearEstimate) (cur : List ℕ)
      → shown < fuel
      → Totals w
      → Estimates (wear_from ring fuel mode live_s shown w cur)
  unfolding wear_from
  wear_from-Estimates zero mode live_s shown w cur enough h = absurd (omega arith)
  wear_from-Estimates (suc fuel) mode live_s shown w cur enough h =
      let next = render_countdown ring (countdown_next_shown_s mode shown live_s) cur in
      by_branch Estimates (shown == 0) (λ over. estimated w h)
        (λ more.
          wear_from-Estimates fuel mode live_s (countdown_next_shown_s mode shown live_s)
            (accumulate w cur next) next
            (omega
              (arith, enough, countdown_next_shown_s-less mode shown live_s (ground (arith, more))))
            (accumulate-Totals w cur next h))

  countdown_wear_per_run-Estimates :
      (mode : SecondsMode) (live_s : ℤ) → Estimates (countdown_wear_per_run ring mode live_s)
  unfolding countdown_wear_per_run
  countdown_wear_per_run-Estimates mode live_s =
      wear_from-Estimates 6481 mode (clamp live_s) 6480 no_wear (render_countdown ring 6480 at_home)
        (omega arith) refl

  -- Both estimates of wear come back, the day of the clock for any granularity and the run of the
  -- countdown for any mode of its seconds, and their totals are the flips of their columns
  -- together, modulo 2^32.
  pub wear-Estimates :
      (h24 : Bool) (step : ℕ) (mode : SecondsMode) (live_s : ℤ)
      → Estimates (clock_wear_per_day ring h24 step)
        × Estimates (countdown_wear_per_run ring mode live_s)
  wear-Estimates h24 step mode live_s =
      (clock_wear_per_day-Estimates h24 step, countdown_wear_per_run-Estimates mode live_s)
