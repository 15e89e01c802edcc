-- ===== src/Countdown/Examples.antt =====
-- The countdown of components/modes/render.cpp at concrete times.
use lost_swan_firmware.Common.{◌≤◌, ◌<◌, ◌≡◌, ◌⊎◌, refl}
use lost_swan_firmware.Common.Int.{pos}
use lost_swan_firmware.Countdown.{
  seconds, countdown_step_s, countdown_shown_s, countdown_next_shown_s,
}
use lost_swan_firmware.Countdown.Shown.{countdown_next_shown_s_adjacent}

-- 107:55 left reads 108:00.
first_minute_test : countdown_shown_s seconds (pos 6475) 240 ≡ 6480
unfolding countdown_shown_s countdown_step_s
first_minute_test = refl

countdown_next_shown_s_adjacent_example :
    let shown = countdown_shown_s seconds (pos 241) 240 in
    let after = countdown_next_shown_s seconds shown 240 in
    let any = countdown_shown_s seconds (pos 240) 240 in
    ((shown ≡ 0) ⊎ (after < shown)) × ((shown ≤ any) ⊎ (any ≤ after))
countdown_next_shown_s_adjacent_example = countdown_next_shown_s_adjacent seconds 241 240 240
