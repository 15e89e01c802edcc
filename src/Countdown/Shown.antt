-- ===== src/Countdown/Shown.antt =====
-- What the countdown of components/modes/render.cpp shows over time.
use lost_swan_firmware.Common.{ℕ, ◌+◌, ◌%◌, ◌≤◌, ◌<◌, ◌≡◌, ◌⊎◌, arith}
use lost_swan_firmware.Common.Int.{ℤ, pos, ◌≤ℤ◌}
use lost_swan_firmware.Countdown.{
  SecondsMode, minutes, tens, seconds, countdown_step_s, countdown_shown_s, countdown_next_shown_s,
}

-- The number shown is the least multiple of the step that is not below the seconds left.
pub countdown_shown_s_ceiling :
    (mode : SecondsMode)
    → (remaining live : ℕ)
    → let shown = countdown_shown_s mode (pos remaining) live in
      let step = countdown_step_s mode remaining live in
      (remaining ≤ shown) × (shown < remaining + step) × (shown % step ≡ 0)
unfolding countdown_shown_s countdown_step_s
countdown_shown_s_ceiling minutes remaining live = ground arith
countdown_shown_s_ceiling tens remaining live = ground arith
countdown_shown_s_ceiling seconds remaining live = ground arith

-- The display never counts up: less time left is never shown as more, whatever second the seconds
-- go live at.
pub countdown_shown_s_mono :
    (mode : SecondsMode)
    → (later earlier : ℤ) → (live : ℕ) → later ≤ℤ earlier
    → countdown_shown_s mode later live ≤ countdown_shown_s mode earlier live
unfolding countdown_shown_s countdown_step_s
countdown_shown_s_mono minutes later earlier live h = ground arith
countdown_shown_s_mono tens later earlier live h = ground arith
countdown_shown_s_mono seconds later earlier live h = ground arith

-- After a number other than 0 that is shown comes the next one: it is smaller, and no time left is
-- shown as a number between the two.
pub countdown_next_shown_s_adjacent :
    (mode : SecondsMode)
    → (remaining other live : ℕ)
    → let shown = countdown_shown_s mode (pos remaining) live in
      let after = countdown_next_shown_s mode shown live in
      let any = countdown_shown_s mode (pos other) live in
      ((shown ≡ 0) ⊎ (after < shown)) × ((shown ≤ any) ⊎ (any ≤ after))
unfolding countdown_next_shown_s countdown_shown_s countdown_step_s
countdown_next_shown_s_adjacent minutes remaining other live = ground arith
countdown_next_shown_s_adjacent tens remaining other live = ground arith
countdown_next_shown_s_adjacent seconds remaining other live = ground arith
