-- ===== src/Motion/Ramp.antt =====
-- components/motion/include/motion/motion_math.h, the velocity ramp and the step DDA.
-- Speeds are never negative, and `accel` is positive wherever a theorem needs it (`accel_plausible`
-- of motion_types.h is what the load path checks). `remaining` is the distance to a target, 0 where
-- the drum is at or past it, which is the case the code tests by `remaining <= 0`.
use lost_swan_firmware.Common.{
  ℕ, ◌+◌, ◌-◌, ◌*◌, ◌/◌, ◌%◌, ◌≤◌, ◌<◌, ◌≡◌, Bool, true, false, arith, ltb, leb, ◌==◌, ◌↔◌, ◌^◌,
  ◌&&◌, if◌then◌else◌,
}

abbrev pub tick_hz : ℕ
tick_hz = 50000

abbrev pub control_hz : ℕ
control_hz = 1000

pub record RampParams : Type 0 where
  pub v_max : ℕ
  pub accel : ℕ
  pub control_rate : ℕ

abbrev at_least_one : ℕ → ℕ
at_least_one dv = if ltb dv 1 then 1 else dv

-- `v -= dv` may pass below 0 in C; the floor at `dv` that follows makes both the same.
unfoldable pub ramp_next_velocity : ℕ → ℕ → RampParams → ℕ
ramp_next_velocity remaining v p =
    let dv = at_least_one (p.accel / p.control_rate) in
    let brake = v * v / (2 * p.accel) in
    let v₁ =
      if leb remaining brake then v - dv else if ltb p.v_max (v + dv) then p.v_max else v + dv in
    let v₂ = if ltb v₁ dv then dv else v₁ in
    if remaining == 0 then 0 else if ltb tick_hz v₂ then tick_hz else v₂

-- The accumulator is a uint32_t; the result is the new accumulator and whether a step is due.
unfoldable pub dda_tick : ℕ → ℕ → ℕ × Bool
dda_tick accum v =
    let a = (accum + v) % 2 ^ 32 in if leb tick_hz a then (a - tick_hz, true) else (a, false)

-- motion_types.h: the bounds that the API and the load path share.
abbrev pub accel_min : ℕ
accel_min = 1000

abbrev pub accel_max : ℕ
accel_max = 60000

unfoldable pub accel_plausible : ℕ → Bool
accel_plausible v = leb accel_min v && leb v accel_max

-- The commanded speed is positive exactly before the target - the drum never stalls there - and
-- never outruns the one step a tick that the DDA can issue.
pub ramp_next_velocity_bounds :
    (remaining v : ℕ) (p : RampParams)
    → ((0 < ramp_next_velocity remaining v p) ↔ (0 < remaining))
      × (ramp_next_velocity remaining v p ≤ tick_hz)
unfolding ramp_next_velocity
ramp_next_velocity_bounds remaining v p = ground arith

-- One control tick changes the speed by at most `dv` microsteps a second, as long as the drum is
-- still turning under the cap of the DDA and the new cruise speed is not below the current one.
pub ramp_next_velocity_smooth :
    (remaining v dv : ℕ) (p : RampParams)
    → 0 < remaining
    → dv ≡ p.accel / p.control_rate
    → 0 < dv
    → v ≤ tick_hz
    → v ≤ p.v_max
    → (ramp_next_velocity remaining v p ≤ v + dv) × (v ≤ ramp_next_velocity remaining v p + dv)
unfolding ramp_next_velocity
ramp_next_velocity_smooth remaining v dv p hr hdv pos cap cruise = ground arith
