-- ===== src/Motion/Control/Safety.antt =====
-- What a control tick may command and when it may start a re-home by itself
-- (components/motion/axis_control.cpp).
use lost_swan_firmware.Common.{
  ℕ, ◌+◌, ◌-◌, ◌*◌, ◌≤◌, ◌<◌, ◌≡◌, ◌↔◌, true, arith, Option, none, some,
}
use lost_swan_firmware.Motion.Policy.{FaultCause, slip}
use lost_swan_firmware.Motion.Position.{EdgeVerdict}
use lost_swan_firmware.Motion.Position.Targets.{plan_target_first, retarget_on_edge_before_next}
use lost_swan_firmware.Motion.Ramp.{RampParams, tick_hz, ramp_next_velocity_bounds, control_hz}
use lost_swan_firmware.Motion.Axis.{
  AxisState, homing, HomePhase, release, Request, AxisCtl, IsrSnap, TickEvents, MotionParams,
}
use lost_swan_firmware.Motion.Control.{
  TickCtx, enter_fault, begin_home, judge_edge, measure_edge, rebase, anchor_edge, apply_go,
  apply_stop, dispatch_request, apply_request, run_homing, run_state, tick_request, tick_state,
  tick_ctx, tick_velocity, axis_control_tick, running,
}
use lost_swan_firmware.Motion.Control.Rules.{EdgeRule, Judged, tick_edge_rule}
use Prim.Native.String.{String}

-- A target that the tick writes is not behind the drum.
abbrev Forward : IsrSnap → TickCtx → Type 0
Forward inp c = c.tgt_written ≡ true → inp.position ≤ c.tgt

enter_fault-Forward :
    (inp : IsrSnap) (p : MotionParams) (c : TickCtx) (why : String) (cause : FaultCause)
    → Forward inp c
    → Forward inp (enter_fault p c why cause)
unfolding enter_fault
enter_fault-Forward inp p c why cause f = ground arith

judge_edge-Forward :
    (inp : IsrSnap) (p : MotionParams) (c : TickCtx) (v : EdgeVerdict)
    → Forward inp c
    → Judged (Forward inp) (Forward inp) (judge_edge p c v)
unfolding judge_edge
judge_edge-Forward inp p c EdgeVerdict.minor f = f
judge_edge-Forward inp p c EdgeVerdict.major f = f
judge_edge-Forward inp p c EdgeVerdict.fault f = enter_fault-Forward inp p c _ slip f

rebase-Forward :
    (inp : IsrSnap) (c : TickCtx) (dest : Option ℕ)
    → Forward inp c
    → Forward inp (rebase inp c dest)
unfolding rebase
rebase-Forward inp c none f = f
rebase-Forward inp c (some dest) f =
    ground (arith, retarget_on_edge_before_next inp.hall c.a.cal_offset inp.position dest)

anchor_edge-Forward :
    (inp : IsrSnap) (c : TickCtx) → Forward inp c → Forward inp (anchor_edge inp c)
unfolding anchor_edge
anchor_edge-Forward inp c f = ground (
  arith,
  retarget_on_edge_before_next inp.hall c.a.cal_offset inp.position 0,
  rebase-Forward inp (record c { a = record (c.a) { hall_prev = inp.hall; hall_valid = true } })
      c.a.dest_index f,
)

measure_edge-Forward :
    (inp : IsrSnap) (c : TickCtx) → Forward inp c → Forward inp (measure_edge inp c)
unfolding measure_edge
measure_edge-Forward inp c f = f

edge-Forward : (inp : IsrSnap) (p : MotionParams) → EdgeRule (Forward inp) (Forward inp) inp p
edge-Forward inp p = record {
  no_edge = λ c f. f;
  noted = λ c f. f;
  measured = measure_edge-Forward inp;
  judged = judge_edge-Forward inp p;
  anchored = anchor_edge-Forward inp;
}

-- The reference of a planned move is at most two revolutions old: `edge_overdue` faults a move
-- after one and a half.
pub record IsFresh (inp : IsrSnap) : Type 0 where
  pub behind : inp.hall ≤ inp.position
  pub recent : inp.position ≤ inp.hall + 2 * 3200

tick_request-Forward :
    (inp : IsrSnap) (p : MotionParams) (c : TickCtx) (r : Request)
    → IsFresh inp
    → Forward inp c
    → Forward inp (tick_request inp p c r)
unfolding tick_request apply_request dispatch_request apply_go apply_stop
tick_request-Forward inp p c r fresh f = ground (
  arith,
  plan_target_first inp.hall c.a.cal_offset inp.position r.index fresh.behind fresh.recent,
)

run_homing-Forward :
    (inp : IsrSnap) (p : MotionParams) (c : TickCtx) (phase : HomePhase)
    → Forward inp c
    → Forward inp (run_homing inp p c phase)
unfolding run_homing enter_fault
run_homing-Forward inp p c release f = ground arith
run_homing-Forward inp p c _ f = ground arith

run_state-Forward :
    (inp : IsrSnap) (p : MotionParams) (c : TickCtx) (s : AxisState)
    → Forward inp c
    → Forward inp (run_state inp p c s)
unfolding run_state begin_home enter_fault
run_state-Forward inp p c homing f = run_homing-Forward inp p c c.a.home_phase f
run_state-Forward inp p c _ f = ground arith

-- The drum is never asked to turn back: a target that a control tick writes is at or ahead of the
-- drum's position, whatever request, edge or fault the tick handles.
pub axis_control_tick_forward :
    (a : AxisCtl) (inp : IsrSnap) (r : Request) (p : MotionParams) (ev : TickEvents)
    → IsFresh inp
    → (axis_control_tick a inp r p ev).1.set_target ≡ true
    → inp.position ≤ (axis_control_tick a inp r p ev).1.target
unfolding axis_control_tick tick_ctx tick_state
axis_control_tick_forward a inp r p ev fresh =
    run_state-Forward inp p _ _
      (tick_edge_rule (edge-Forward inp p) _ (tick_request-Forward inp p _ r fresh (λ written. cc)))

tick_velocity_lem :
    (inp : IsrSnap) (p : MotionParams) (c : TickCtx)
    → (tick_velocity inp p c ≤ tick_hz)
      × ((0 < tick_velocity inp p c) ↔ ((running c.a.state ≡ true) × (inp.position < c.tgt)))
unfolding tick_velocity
tick_velocity_lem inp p c =
    let ramp : RampParams = record {
      v_max = c.a.v_max;
      accel = p.accel;
      control_rate = control_hz;
    } in
    ground (arith, ramp_next_velocity_bounds (c.tgt - inp.position) inp.velocity ramp)

-- A speed is written only for an axis that is moving or homing and short of its target; it then is
-- positive and at most one step for each interrupt. Any other axis is written the speed 0.
pub axis_control_tick_velocity :
    (a : AxisCtl) (inp : IsrSnap) (r : Request) (p : MotionParams) (ev : TickEvents)
    → let (b, w, _) = axis_control_tick a inp r p ev in
      (w.velocity ≤ tick_hz)
      × ((0 < w.velocity) ↔ ((running b.state ≡ true) × (inp.position < w.target)))
unfolding axis_control_tick
axis_control_tick_velocity a inp r p ev = tick_velocity_lem inp p (tick_ctx a inp r p ev)
