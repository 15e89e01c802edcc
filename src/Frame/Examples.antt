-- ===== src/Frame/Examples.antt =====
-- The theorems on the frame scheduler at concrete inputs.
use lost_swan_firmware.Common.{
  All, ℕ, ◌≡◌, ◌⊎◌, refl, true, false, none, some, List, [], ◌∷◌, ltb, test_bit, bit_of,
}
use lost_swan_firmware.Motion.Geometry.{ring_target_usteps, flaps_s_to_usteps_s}
use lost_swan_firmware.Motion.Axis.{idle}
use lost_swan_firmware.Frame.{
  MotionPort, go, Scheduler, lead_ms, none_posted, show, spin_all, tick, settled, settled_from,
  issue, each_col, issue_col, note_tick,
}
use lost_swan_firmware.Frame.Duration.{isqrt_search, move_duration_ms}
use lost_swan_firmware.Frame.Commands.{Allowed, tick-Allowed}
use lost_swan_firmware.Frame.Convergence.{Refused, tick-spin_all}
use lost_swan_firmware.Frame.Lead.{Within, Attained, lead_ms_max}

abbrev blank : List ℕ
blank = 0 ∷ 0 ∷ 0 ∷ 0 ∷ 0 ∷ []

-- Five columns at rest on slot 0 that take every command.
abbrev resting : MotionPort
resting = record {
  col = λ i. record { state = idle; index = some 0; dest_index = some 0 };
  go_ok = λ i want. true;
  spin_ok = λ i. ltb i 4;
}

-- Column 2 is out of the frame.
abbrev showing_blank : Scheduler
showing_blank = record {
  timing = record { flaps_s = 15; accel = 12000 };
  desired = blank;
  have_desired = true;
  pending = blank;
  have_pending = false;
  start_at_ms = 0;
  posted_cols = none_posted;
  excluded = 4;
  posted_tick_ms = none;
}

abbrev noon : List ℕ
noon = 38 ∷ 48 ∷ 47 ∷ 49 ∷ 24 ∷ []

settled_blank : settled resting showing_blank ≡ true
unfolding settled settled_from test_bit bit_of
settled_blank = refl

tick-spin_all_example :
    All (Refused resting) (tick resting (spin_all resting showing_blank 25 6 500).0 500).1
tick-spin_all_example = tick-spin_all resting showing_blank 25 6 500 refl

tick-Allowed_example :
    All (Allowed 4) (tick resting (record showing_blank { desired = noon }) 500).1
tick-Allowed_example = tick-Allowed resting (record showing_blank { desired = noon }) 500

lead_ms_max_example :
    Within resting showing_blank.timing 4 0 noon (lead_ms resting showing_blank noon)
    × ((lead_ms resting showing_blank noon ≡ 0)
        ⊎ Attained resting showing_blank.timing 4 0 noon (lead_ms resting showing_blank noon))
lead_ms_max_example = lead_ms_max resting showing_blank noon

-- A full wrap of 49 flips at 15 flaps a second.
full_wrap : move_duration_ms 49 15 12000 ≡ 3346
unfolding move_duration_ms ring_target_usteps flaps_s_to_usteps_s isqrt_search
full_wrap = refl

-- One flip never reaches cruise: the triangular branch.
one_flip : move_duration_ms 1 15 12000 ≡ 146
unfolding move_duration_ms ring_target_usteps flaps_s_to_usteps_s isqrt_search
one_flip = refl

-- A shown frame commands the four columns that are in it.
shown_noon : (show resting showing_blank noon 500 0).1 ≡ go 0 38 ∷ go 1 48 ∷ go 3 49 ∷ go 4 24 ∷ []
unfolding show note_tick issue each_col issue_col test_bit bit_of lead_ms
shown_noon = refl
