-- ===== src/Motion/Isr/Steps.antt =====
-- What the step interrupt does to the position (components/motion/include/motion/axis_control.h).
use lost_swan_firmware.Common.{
  ◌+◌, ◌*◌, ◌≤◌, ◌<◌, ◌≡◌, refl, ◌∙◌, Bool, arith, List, [], ◌∷◌, length,
}
use lost_swan_firmware.Motion.Ramp.{tick_hz, dda_tick}
use lost_swan_firmware.Motion.Isr.{AxisIsr, on_step_alarm, run_alarms}

-- What holds of an axis between two interrupts.
pub record IsTracked (a : AxisIsr) : Type 0 where
  pub short : a.pos_abs ≤ a.target_abs
  pub latched : a.hall_abs ≤ a.pos_abs
  pub carry : a.accum < tick_hz
  pub speed : a.velocity ≤ tick_hz

pub on_step_alarm-IsTracked :
    (a : AxisIsr) (raw : Bool) → IsTracked a → IsTracked (on_step_alarm a raw).0
unfolding on_step_alarm dda_tick
on_step_alarm-IsTracked a raw t = ground arith

unmoved :
    (a : AxisIsr) (raw : Bool)
    → ((on_step_alarm a raw).0.target_abs ≡ a.target_abs)
      × ((on_step_alarm a raw).0.velocity ≡ a.velocity)
unfolding on_step_alarm
unmoved a raw = ground arith

advances :
    (a : AxisIsr) (raw : Bool)
    → (a.pos_abs ≤ (on_step_alarm a raw).0.pos_abs)
      × ((on_step_alarm a raw).0.pos_abs ≤ a.pos_abs + 1)
unfolding on_step_alarm
advances a raw = ground arith

-- Over any sequence of interrupts the drum never passes its target, never turns back, and the last
-- latched edge is never ahead of it; the accumulator stays below one step.
pub run_alarms-IsTracked :
    (a : AxisIsr) (samples : List Bool)
    → IsTracked a
    → IsTracked (run_alarms a samples)
      × (a.pos_abs ≤ (run_alarms a samples).pos_abs)
      × ((run_alarms a samples).target_abs ≡ a.target_abs)
unfolding run_alarms
run_alarms-IsTracked a [] t = (t, omega arith, refl)
run_alarms-IsTracked a (raw ∷ samples) t =
    let rest =
      run_alarms-IsTracked (on_step_alarm a raw).0 samples (on_step_alarm-IsTracked a raw t) in
    (rest.0, omega (arith, rest.1, advances a raw), rest.2 ∙ (unmoved a raw).0)

step_rate :
    (a : AxisIsr) (raw : Bool)
    → IsTracked a
    → 0 < a.velocity
    → a.pos_abs < a.target_abs
    → tick_hz * (on_step_alarm a raw).0.pos_abs + (on_step_alarm a raw).0.accum
      ≡ tick_hz * a.pos_abs + a.accum + a.velocity
unfolding on_step_alarm dda_tick
step_rate a raw t moving short = ground arith

-- The rate law: while the target is out of reach, n interrupts issue the steps of n * velocity
-- fiftythousandths exactly, the remainder standing in the accumulator. No rounding error builds up.
pub run_alarms_rate :
    (a : AxisIsr) (samples : List Bool)
    → IsTracked a
    → 0 < a.velocity
    → a.pos_abs + length samples ≤ a.target_abs
    → tick_hz * (run_alarms a samples).pos_abs + (run_alarms a samples).accum
      ≡ tick_hz * a.pos_abs + a.accum + length samples * a.velocity
unfolding run_alarms
run_alarms_rate a [] t moving room = omega arith
run_alarms_rate a (raw ∷ samples) t moving room = ground (
  arith,
  unmoved a raw,
  advances a raw,
  step_rate a raw t moving (omega arith),
  on_step_alarm-IsTracked a raw t,
  run_alarms_rate (on_step_alarm a raw).0 samples (on_step_alarm-IsTracked a raw t),
)
