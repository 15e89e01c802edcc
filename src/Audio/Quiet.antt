-- ===== src/Audio/Quiet.antt =====
-- The quiet hours and the volume of components/audio/wav.cpp.
use lost_swan_firmware.Common.{ℕ, ◌+◌, ◌-◌, ◌%◌, ◌<◌, ◌≡◌, arith, ltb}
use lost_swan_firmware.Audio.{in_quiet_hours}

-- The quiet hours are the minutes from the start on for as long as it takes to come to the end,
-- counted around the day: also over midnight, and none where start and end are the same.
pub in_quiet_hours_lem :
    (minute_of_day start_min end_min : ℕ)
    → minute_of_day < 1440
    → start_min < 1440
    → end_min < 1440
    → in_quiet_hours minute_of_day start_min end_min
      ≡ ltb ((minute_of_day + 1440 - start_min) % 1440) ((end_min + 1440 - start_min) % 1440)
unfolding in_quiet_hours
in_quiet_hours_lem minute_of_day start_min end_min h k l = ground arith
