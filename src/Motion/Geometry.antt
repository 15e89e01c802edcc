-- ===== src/Motion/Geometry.antt =====
-- components/ring/include/ring/geometry.h and ring.h: the drive constants, T(i), the slot arithmetic.
-- Slots are numbers; `RING_INVALID` (-1) is `none`. The forward distance is taken of valid slots.
use lost_swan_firmware.Common.{
  ℕ, ◌+◌, ◌-◌, ◌*◌, ◌/◌, ◌%◌, ◌≡◌, Bool, false, Option, none, some, arith, ltb,
}

abbrev pub steps_per_motor_rev : ℕ
steps_per_motor_rev = 200

abbrev pub microsteps : ℕ
microsteps = 16

abbrev pub n_ring : ℕ
n_ring = 50

abbrev pub drive_reduction_num : ℕ
drive_reduction_num = 1

abbrev pub drive_reduction_den : ℕ
drive_reduction_den = 1

abbrev pub usteps_per_motor_rev : ℕ
usteps_per_motor_rev = steps_per_motor_rev * microsteps

abbrev pub usteps_per_flap_num : ℕ
usteps_per_flap_num = usteps_per_motor_rev * drive_reduction_num / n_ring

abbrev pub usteps_per_flap_den : ℕ
usteps_per_flap_den = drive_reduction_den

abbrev pub usteps_per_spool_rev_num : ℕ
usteps_per_spool_rev_num = usteps_per_motor_rev * drive_reduction_num

abbrev pub usteps_per_spool_rev_den : ℕ
usteps_per_spool_rev_den = drive_reduction_den

abbrev pub usteps_per_spool_rev_nominal : ℕ
usteps_per_spool_rev_nominal =
    (2 * usteps_per_spool_rev_num + usteps_per_spool_rev_den) / (2 * usteps_per_spool_rev_den)

unfoldable pub ring_target_usteps : ℕ → ℕ
ring_target_usteps i =
    (2 * i * usteps_per_flap_num + usteps_per_flap_den) / (2 * usteps_per_flap_den)

unfoldable pub flaps_s_to_usteps_s : ℕ → ℕ
flaps_s_to_usteps_s flaps_s =
    (2 * flaps_s * usteps_per_flap_num + usteps_per_flap_den) / (2 * usteps_per_flap_den)

abbrev pub ring_slot_count : ℕ
ring_slot_count = 50

abbrev pub ring_home_slot : ℕ
ring_home_slot = 0

abbrev pub n_columns : ℕ
n_columns = 5

unfoldable pub ring_index_valid : Option ℕ → Bool
ring_index_valid none = false
ring_index_valid (some i) = ltb i ring_slot_count

-- `((to - from) % 50 + 50) % 50` in C, where `%` keeps the sign of its left side. For slots below
-- 50 the inner remainder is `to - from` itself, so the sum under the outer one is never negative.
unfoldable pub ring_forward_distance : ℕ → ℕ → ℕ
ring_forward_distance from to = (to + ring_slot_count - from) % ring_slot_count

-- T(i) is 64 microsteps a flap, with no rounding at the 1:1 drive.
pub ring_target_usteps-exact : (i : ℕ) → ring_target_usteps i ≡ 64 * i
unfolding ring_target_usteps
ring_target_usteps-exact i = omega arith

pub flaps_s_to_usteps_s-exact : (f : ℕ) → flaps_s_to_usteps_s f ≡ 64 * f
unfolding flaps_s_to_usteps_s
flaps_s_to_usteps_s-exact f = omega arith
