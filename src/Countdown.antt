-- ===== src/Countdown.antt =====
-- components/modes/render.cpp, the countdown: which number stands on the drums for the seconds left.
-- Callers bound `live_s` below by 0; `remaining_s` may have passed 0.
pub mod Shown
mod Examples
use lost_swan_firmware.Common.{
  ℕ, ◌+◌, ◌-◌, ◌*◌, ◌/◌, Bool, true, false, ltb, ◌==◌, if◌then◌else◌, Option, none, some,
}
use lost_swan_firmware.Common.Int.{ℤ, pos, negsuc, sub_ℕ}
use Prim.Native.String.{String}
use text.Mathlib.Text.{◌==◌ as str_eq}

pub data SecondsMode : Type 0 where
  minutes tens seconds : SecondsMode

unfoldable pub seconds_mode_name : SecondsMode → String
seconds_mode_name minutes = "minutes"
seconds_mode_name tens = "tens"
seconds_mode_name seconds = "seconds"

-- `none` is the result `false`, with `out` left alone.
unfoldable pub seconds_mode_from_name : String → Option SecondsMode
seconds_mode_from_name s =
    if str_eq s "minutes"
    then some minutes
    else if str_eq s "tens"
    then some tens
    else if str_eq s "seconds"
    then some seconds
    else none

abbrev pub live_step : SecondsMode → ℕ
live_step seconds = 1
live_step _ = 10

abbrev pub is_minutes : SecondsMode → Bool
is_minutes minutes = true
is_minutes _ = false

-- Both callers have raised `remaining_s` to 0 at least.
unfoldable pub countdown_step_s : SecondsMode → ℕ → ℕ → ℕ
countdown_step_s mode remaining_s live_s =
    if is_minutes mode
    then 60
    else if ltb (live_s / 60 * 60) remaining_s
    then 60
    else live_step mode

abbrev pub clamp : ℤ → ℕ
clamp (pos n) = n
clamp (negsuc n) = 0

unfoldable pub countdown_shown_s : SecondsMode → ℤ → ℕ → ℕ
unfolding countdown_step_s
countdown_shown_s mode remaining_s live_s =
    let remaining = clamp remaining_s in
    let step = countdown_step_s mode remaining live_s in (remaining + step - 1) / step * step

unfoldable pub countdown_next_shown_s : SecondsMode → ℕ → ℕ → ℕ
unfolding countdown_step_s countdown_shown_s
countdown_next_shown_s mode shown_s live_s =
    if shown_s == 0
    then 0
    else countdown_shown_s mode (sub_ℕ shown_s (countdown_step_s mode shown_s live_s)) live_s
