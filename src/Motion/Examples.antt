-- ===== src/Motion/Examples.antt =====
-- The theorems on the drums at concrete inputs, and runs of the model that follow the code.
use lost_swan_firmware.Common.{
  ◌+◌, ◌*◌, ◌≤◌, ◌<◌, ◌≡◌, ◌≢◌, ◌⊎◌, ◌↔◌, refl, true, false, arith, some, List, [], ◌∷◌, inl,
  replicate,
}
use lost_swan_firmware.Motion.Geometry.{ring_target_usteps, ring_forward_distance}
use lost_swan_firmware.Motion.Position.{
  edge_anchor_offset, reduce_rev, plan_target, wrap_forward, EdgeTolerances, edge_overdue,
}
use lost_swan_firmware.Motion.Ramp.{RampParams, tick_hz}
use lost_swan_firmware.Motion.Isr.{AxisIsr, on_step_alarm, run_alarms}
use lost_swan_firmware.Motion.Isr.Steps.{IsTracked, run_alarms-IsTracked, run_alarms_rate}
use lost_swan_firmware.Motion.Isr.Filter.{Sampled, Quiet, on_step_alarm-Sampled}
use lost_swan_firmware.Motion.Policy.{
  jam, fault_retry_allowed, ColumnMode, real, sim, disabled, excluded_mask,
}
use lost_swan_firmware.Motion.Axis.{
  homing, idle, moving, faulted, seek, Request, no_request, go, stop, AxisCtl, initial_ctl, IsrSnap,
  no_events, default_params,
}
use lost_swan_firmware.Motion.Control.{
  TickCtx, enter_fault, apply_request, dispatch_request, apply_go, run_state, tick_request,
  tick_edge, tick_state, tick_ctx, axis_control_tick, running,
}
use lost_swan_firmware.Motion.Control.Invariant.{Inv, axis_control_tick-Inv}
use lost_swan_firmware.Motion.Control.Safety.{axis_control_tick_forward, axis_control_tick_velocity}
use lost_swan_firmware.Motion.Control.Faults.{
  Report, axis_control_tick-Report, axis_control_tick_no_retry,
}
use lost_swan_firmware.Motion.Control.Requests.{apply_request_go}
use lost_swan_firmware.Motion.Control.Retries.{TickInput, run_ticks, rehomes, rehomes-run_ticks}

abbrev homed_axis : AxisCtl
homed_axis = record initial_ctl {
  state = idle;
  index = some 0;
  dest_index = some 0;
  hall_valid = true;
  hall_prev = 3200;
  seq_seen = 1;
  hall_seen = true;
}

abbrev moving_axis : AxisCtl
moving_axis = record homed_axis { state = moving; dest_index = some 7; v_max = 960 }

abbrev at_rest : IsrSnap
at_rest = record {
  position = 3200;
  hall = 3200;
  target = 3200;
  velocity = 0;
  seq = 1;
  hall_active = false;
}

-- One and a half revolutions after the last edge, short of the target.
abbrev overdue : IsrSnap
overdue = record at_rest { position = 3200 + 4801; target = 9000; velocity = 960 }

abbrev idle_request : Request
idle_request = record {
  kind = no_request;
  index = 0;
  usteps = 0;
  flaps_s = 0;
  delay_ticks = 0;
  invalidate_index = false;
}

abbrev go_seven : Request
go_seven = record idle_request { kind = go; index = 7 }

homed_axis-Inv : Inv homed_axis
homed_axis-Inv = ground arith

jammed :
    (axis_control_tick moving_axis overdue idle_request default_params no_events).2.fault_cause
    ≡ jam
unfolding axis_control_tick tick_ctx tick_request tick_edge tick_state run_state enter_fault
    edge_overdue fault_retry_allowed
jammed = refl

-- A drum that stopped is latched as a jam.
axis_control_tick_no_retry_example :
    let (b, w, ev) = axis_control_tick moving_axis overdue idle_request default_params no_events in
    (b.state ≡ faulted) × (ev.gave_up ≡ true) × (ev.rehome ≡ false) × (w.velocity ≡ 0)
axis_control_tick_no_retry_example =
    axis_control_tick_no_retry moving_axis overdue idle_request default_params (inl jammed)

axis_control_tick-Report_example :
    let (b, _, ev) = axis_control_tick moving_axis overdue idle_request default_params no_events in
    Report default_params b.state ev
axis_control_tick-Report_example =
    axis_control_tick-Report moving_axis overdue idle_request default_params

-- Seven flaps from rest are 448 microsteps.
go_written :
    ((axis_control_tick homed_axis at_rest go_seven default_params no_events).1.set_target ≡ true)
    × ((axis_control_tick homed_axis at_rest go_seven default_params no_events).1.target ≡ 3648)
unfolding axis_control_tick tick_ctx tick_request apply_request dispatch_request apply_go tick_edge
    tick_state run_state plan_target edge_anchor_offset reduce_rev wrap_forward ring_target_usteps
    edge_overdue
go_written = (refl, refl)

axis_control_tick_forward_example :
    3200 ≤ (axis_control_tick homed_axis at_rest go_seven default_params no_events).1.target
axis_control_tick_forward_example =
    axis_control_tick_forward homed_axis at_rest go_seven default_params no_events (omega arith)
      go_written.0

axis_control_tick_velocity_example :
    let (b, w, _) = axis_control_tick homed_axis at_rest go_seven default_params no_events in
    (w.velocity ≤ tick_hz) × ((0 < w.velocity) ↔ ((running b.state ≡ true) × (3200 < w.target)))
axis_control_tick_velocity_example =
    axis_control_tick_velocity homed_axis at_rest go_seven default_params no_events

axis_control_tick-Inv_example :
    Inv (axis_control_tick homed_axis at_rest go_seven default_params no_events).0
axis_control_tick-Inv_example =
    axis_control_tick-Inv homed_axis at_rest go_seven default_params no_events (omega arith)
      homed_axis-Inv

-- A column that never saw an edge, homing until it gives up.
abbrev lost_axis : AxisCtl
lost_axis = record initial_ctl { state = homing; home_phase = seek }

abbrev out_of_reach : TickInput
out_of_reach = record {
  snap = record at_rest { position = 3840; target = 3840; seq = 0 };
  request = idle_request;
  params = default_params;
}

rehomes-run_ticks_example : rehomes (run_ticks lost_axis (replicate 6 out_of_reach)).1 + 0 ≤ 3
rehomes-run_ticks_example =
    rehomes-run_ticks (replicate 6 out_of_reach) lost_axis (ground arith) (ground arith)

apply_request_go_example :
    let c : TickCtx = record { a = homed_axis; ev = no_events; tgt = 3200; tgt_written = false } in
    let d = apply_request at_rest default_params c go_seven in
    ((d.ev.req_rejected ≡ false)
      ↔ ((true ≡ true) × ((idle ≡ idle) ⊎ (idle ≡ moving) ⊎ ((false ≡ true) × (idle ≢ homing)))))
    × ((d.ev.req_rejected ≡ false)
        ⊎ ((d.a ≡ homed_axis) × (d.tgt ≡ 3200) × (d.tgt_written ≡ false)))
    × ((d.ev.req_rejected ≡ true)
        ⊎ ((d.a.state ≡ moving)
            × (d.a.dest_index ≡ some 7)
            × (d.tgt ≡ plan_target 3200 0 3200 7)
            × (d.tgt_written ≡ true)))
apply_request_go_example =
    apply_request_go at_rest default_params
      (record { a = homed_axis; ev = no_events; tgt = 3200; tgt_written = false }) go_seven refl
      refl

abbrev halfway : TickCtx
halfway = record { a = moving_axis; ev = no_events; tgt = 3648; tgt_written = false }

abbrev stop_request : Request
stop_request = record idle_request { kind = stop; invalidate_index = true }

abbrev turning : AxisIsr
turning = record {
  pos_abs = 3200;
  target_abs = 3648;
  hall_abs = 3200;
  velocity = 960;
  accum = 0;
  hall_seq = 1;
  hall_hist = 0;
  hall_active = false;
}

turning-IsTracked : IsTracked turning
turning-IsTracked = ground arith

run_alarms_rate_example :
    tick_hz * (run_alarms turning (replicate 60 false)).pos_abs
      + (run_alarms turning (replicate 60 false)).accum
    ≡ tick_hz * 3200 + 0 + 60 * 960
run_alarms_rate_example =
    run_alarms_rate turning (replicate 60 false) turning-IsTracked (omega arith) (omega arith)

run_alarms-IsTracked_example :
    IsTracked (run_alarms turning (replicate 60 false))
    × (3200 ≤ (run_alarms turning (replicate 60 false)).pos_abs)
    × ((run_alarms turning (replicate 60 false)).target_abs ≡ 3648)
run_alarms-IsTracked_example = run_alarms-IsTracked turning (replicate 60 false) turning-IsTracked

turning-Quiet : Quiet turning
turning-Quiet = (false, ground arith)

-- Two samples in a row are an edge.
on_step_alarm-Sampled_example :
    let a = record turning { hall_hist = 1 } in
    let b = (on_step_alarm a true).0 in
    Sampled b false true true × (b.hall_seq ≡ 2) × (b.hall_abs ≡ b.pos_abs)
on_step_alarm-Sampled_example =
    on_step_alarm-Sampled (record turning { hall_hist = 1 }) false false true true (ground arith)

-- The slot was just passed, so the target is in the next revolution.
planned_next : plan_target 3200 40 3300 0 ≡ 6440
unfolding plan_target edge_anchor_offset reduce_rev wrap_forward ring_target_usteps
planned_next = refl

eight_flaps : ring_forward_distance 45 3 ≡ 8
unfolding ring_forward_distance
eight_flaps = refl

abbrev quarter_flap : EdgeTolerances
quarter_flap = record { silent = 16; major = 64 }

abbrev normal_ramp : RampParams
normal_ramp = record { v_max = 960; accel = 12000; control_rate = 1000 }

abbrev one_out : List ColumnMode
one_out = real ∷ sim ∷ disabled ∷ real ∷ real ∷ []

one_out_mask : excluded_mask one_out ≡ 4
unfolding excluded_mask
one_out_mask = refl
