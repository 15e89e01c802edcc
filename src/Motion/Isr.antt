-- ===== src/Motion/Isr.antt =====
-- components/motion/include/motion/axis_control.h, the per-axis step interrupt: the DDA advance and
-- the Hall filter. `sample` is the body of the interrupt for one axis, as motion.cpp composes it.
pub mod Steps
pub mod Filter
use lost_swan_firmware.Common.{
  ℕ, zero, suc, ◌+◌, ◌-◌, ◌*◌, ◌/◌, ◌%◌, ◌^◌, ◌≤◌, ◌<◌, ◌≡◌, refl, Bool, true, false, not, ◌&&◌,
  arith, ltb, leb, ◌==◌, if◌then◌else◌, List, [], ◌∷◌,
}
use lost_swan_firmware.Motion.Ramp.{tick_hz, dda_tick}

pub record AxisIsr : Type 0 where
  pub pos_abs : ℕ
  pub target_abs : ℕ
  pub hall_abs : ℕ
  pub velocity : ℕ
  pub accum : ℕ  -- uint32_t
  pub hall_seq : ℕ  -- uint32_t
  pub hall_hist : ℕ  -- uint8_t
  pub hall_active : Bool

-- `a.accum` is passed by reference to `dda_tick`.
unfoldable pub axis_isr_dda : AxisIsr → AxisIsr × Bool
axis_isr_dda a =
    let (accum, due) = dda_tick a.accum a.velocity in
    let stepped = record a { accum = accum; pos_abs = if due then a.pos_abs + 1 else a.pos_abs } in
    if ltb 0 a.velocity && ltb a.pos_abs a.target_abs then (stepped, due) else (a, false)

abbrev pub bit : Bool → ℕ
bit true = 1
bit false = 0

-- `((hist << 1) | raw) & 7`: the shift clears the low bit, so `|` is `+`.
unfoldable pub shift_in : ℕ → Bool → ℕ
shift_in hist raw = (2 * hist + bit raw) % 8

unfoldable pub majority : ℕ → Bool
majority h = leb 2 (h % 2 + h / 2 % 2 + h / 4 % 2)

unfoldable pub axis_isr_hall : AxisIsr → Bool → AxisIsr
unfolding shift_in majority
axis_isr_hall a raw =
    let h = shift_in a.hall_hist raw in
    let level = majority h in
    let a₁ = record a { hall_hist = h; hall_active = level } in
    if level && not a.hall_active
    then record a₁ { hall_abs = a.pos_abs; hall_seq = (a.hall_seq + 1) % 2 ^ 32 }
    else a₁

-- One tick of the step interrupt for one axis: step first, then sample the Hall line.
unfoldable pub on_step_alarm : AxisIsr → Bool → AxisIsr × Bool
unfolding axis_isr_dda axis_isr_hall
on_step_alarm a raw = let (a₁, due) = axis_isr_dda a in (axis_isr_hall a₁ raw, due)

-- The interrupt over a sequence of Hall samples, the velocity and the target unchanged between
-- two control ticks.
unfoldable pub run_alarms : AxisIsr → List Bool → AxisIsr
run_alarms a [] = a
run_alarms a (raw ∷ samples) = run_alarms (on_step_alarm a raw).0 samples
