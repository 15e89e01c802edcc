-- ===== src/Motion/Control.antt =====
-- components/motion/axis_control.cpp: one control tick of one axis. `TickCtx` holds what the tick
-- writes: the axis, the events, the running target and whether it was written. The snapshot and the
-- parameters are arguments. An early `return` is a second result, or the last step of a function.
mod Rules
pub mod Invariant
pub mod Safety
pub mod Faults
pub mod Requests
pub mod Retries
use lost_swan_firmware.Common.{
  ℕ, zero, suc, ◌+◌, ◌-◌, ◌%◌, ◌^◌, ◌≡◌, Bool, true, false, not, ◌&&◌, ◌||◌, leb, ltb, ◌==◌,
  if◌then◌else◌, Option, none, some,
}
use lost_swan_firmware.Common.Int.{sub_ℕ, to_int32}
use lost_swan_firmware.Motion.Geometry.{
  ring_home_slot, ring_index_valid, ring_target_usteps, flaps_s_to_usteps_s,
}
use lost_swan_firmware.Motion.Position.{
  EdgeVerdict, EdgeTolerances, edge_error, classify_edge_error, edge_overdue, plan_target,
  retarget_on_edge,
}
use lost_swan_firmware.Motion.Ramp.{RampParams, ramp_next_velocity, control_hz}
use lost_swan_firmware.Motion.Policy.{
  FaultCause, no_cause, no_hall_ever, slip, jam, fault_retry_allowed,
}
use lost_swan_firmware.Motion.Axis.{
  AxisState, unhomed, homing, idle, moving, faulted, HomePhase, no_phase, release, seek, settle,
  ReqKind, no_request, home, go, step_open, stop, Request, AxisCtl, IsrSnap, IsrWrite, TickEvents,
  MotionParams, rehome_retries_max, home_limit,
}
use Prim.Native.String.{String}

pub record TickCtx : Type 0 where
  pub a : AxisCtl
  pub ev : TickEvents
  pub tgt : ℕ
  pub tgt_written : Bool

abbrev pub set_target : TickCtx → ℕ → TickCtx
set_target c t = record c { tgt = t; tgt_written = true }

unfoldable pub enter_fault : MotionParams → TickCtx → String → FaultCause → TickCtx
enter_fault p c why cause =
    let a₁ = record (c.a) { faults = (c.a.faults + 1) % 2 ^ 32; fault_cause = cause } in
    let ev₁ = record (c.ev) { fault = true; fault_reason = some why; fault_cause = cause } in
    let attempt = (c.a.rehome_retries + 1) % 256 in
    if fault_retry_allowed cause
      && not p.maintenance
      && not p.ota_hold
      && ltb c.a.rehome_retries rehome_retries_max
    then record c {
      a = record a₁ {
        rehome_retries = attempt;
        rehome_attempt = attempt;
        home_delay = 1;
        state = unhomed;
      };
      ev = record ev₁ { rehome = true; rehome_attempt = attempt };
    }
    else record c { a = record a₁ { state = faulted }; ev = record ev₁ { gave_up = true } }

unfoldable pub begin_home : IsrSnap → MotionParams → TickCtx → TickCtx
begin_home inp p c = record c {
  a = record (c.a) {
    dest_index = some ring_home_slot;
    index = none;
    hall_valid = false;
    v_max = flaps_s_to_usteps_s p.flaps_s_home;
    home_phase = if inp.hall_active then release else seek;
    state = homing;
  };
  tgt = inp.position + home_limit;
  tgt_written = true;
}

-- The `switch` on the verdict; the second result says that the edge raised a fault.
unfoldable pub judge_edge : MotionParams → TickCtx → EdgeVerdict → TickCtx × Bool
judge_edge p c EdgeVerdict.minor =
    (record c { a = record (c.a) { resync_minor = (c.a.resync_minor + 1) % 2 ^ 32 } }, false)
judge_edge p c EdgeVerdict.major = (
  record c {
    a = record (c.a) { resync_major = (c.a.resync_major + 1) % 2 ^ 32 };
    ev = record (c.ev) { resync_major = true };
  },
  false,
)
judge_edge p c EdgeVerdict.fault =
    (enter_fault p c "hall edge off by more than one flap" slip, true)

unfoldable pub measure_edge : IsrSnap → TickCtx → TickCtx
measure_edge inp c = record c {
  a = record (c.a) {
    hall_to_hall = to_int32 (sub_ℕ inp.hall c.a.hall_prev);
    last_hall_err = to_int32 (edge_error c.a.hall_prev inp.hall);
    revs = (c.a.revs + 1) % 2 ^ 32;
  };
}

unfoldable pub edge_verdict : IsrSnap → MotionParams → TickCtx → EdgeVerdict
edge_verdict inp p c =
    let tol : EdgeTolerances = record { silent = p.hall_tol; major = ring_target_usteps 1 } in
    classify_edge_error (edge_error c.a.hall_prev inp.hall) tol

unfoldable pub verify_edge : IsrSnap → MotionParams → TickCtx → TickCtx × Bool
verify_edge inp p c =
    if c.a.hall_valid then judge_edge p (measure_edge inp c) (edge_verdict inp p c) else (c, false)

abbrev pub is_homing : AxisState → Bool
is_homing homing = true
is_homing _ = false

abbrev pub is_moving : AxisState → Bool
is_moving moving = true
is_moving _ = false

abbrev pub is_idle : AxisState → Bool
is_idle idle = true
is_idle _ = false

abbrev pub is_seek : HomePhase → Bool
is_seek seek = true
is_seek _ = false

unfoldable pub rebase : IsrSnap → TickCtx → Option ℕ → TickCtx
rebase inp c none = c
rebase inp c (some dest) =
    if is_moving c.a.state && ring_index_valid (some dest)
    then set_target c (retarget_on_edge inp.hall c.a.cal_offset inp.position dest)
    else c

-- The edge was accepted: it is the new reference, ends a homing search, and re-bases a move.
unfoldable pub anchor_edge : IsrSnap → TickCtx → TickCtx
anchor_edge inp c =
    let anchored = record c { a = record (c.a) { hall_prev = inp.hall; hall_valid = true } } in
    if is_homing c.a.state && is_seek c.a.home_phase
    then record anchored {
      a = record (anchored.a) {
        home_phase = settle;
        recovered_after = c.a.rehome_attempt;
        rehome_retries = 0;
        rehome_attempt = 0;
      };
      tgt = retarget_on_edge inp.hall c.a.cal_offset inp.position ring_home_slot;
      tgt_written = true;
    }
    else rebase inp anchored c.a.dest_index

abbrev pub mark_seen : TickCtx → TickCtx
mark_seen c = record c { a = record (c.a) { hall_seen = true } }

unfoldable pub on_hall_edge : IsrSnap → MotionParams → TickCtx → TickCtx
on_hall_edge inp p c =
    let (judged, raised) = verify_edge inp p (mark_seen c) in
    if raised then judged else anchor_edge inp judged

abbrev pub reject : TickCtx → TickCtx
reject c = record c { ev = record (c.ev) { req_rejected = true } }

unfoldable pub apply_go : IsrSnap → MotionParams → TickCtx → ℕ → TickCtx
apply_go inp p c slot =
    let s = c.a.state in
    let state_ok = if p.maintenance then not (is_homing s) else is_idle s || is_moving s in
    let accepted = record c {
      a = record (c.a) {
        dest_index = some slot;
        v_max = flaps_s_to_usteps_s p.flaps_s_normal;
        state = moving;
      };
      tgt = plan_target inp.hall c.a.cal_offset inp.position slot;
      tgt_written = true;
    } in
    if not state_ok || not c.a.hall_valid then reject c else accepted

unfoldable pub apply_stop : IsrSnap → TickCtx → Bool → AxisState → TickCtx
apply_stop inp c invalidate moving =
    let stopped = if invalidate then none else c.a.dest_index in
    record (set_target c inp.position) { a = record (c.a) { index = stopped; state = idle } }
apply_stop inp c invalidate homing = record (set_target c inp.position) {
  a = record (c.a) { home_phase = no_phase; index = none; home_delay = 0; state = unhomed };
}
apply_stop inp c invalidate unhomed = record (set_target c inp.position) {
  a = record (c.a) { home_delay = 0 };
}
apply_stop inp c invalidate _ = set_target c inp.position

unfoldable pub dispatch_request : IsrSnap → MotionParams → TickCtx → Request → ReqKind → TickCtx
dispatch_request inp p c r home = record c {
  a = record (c.a) {
    rehome_retries = 0;
    rehome_attempt = 0;
    home_delay = if ltb 0 r.delay_ticks then r.delay_ticks else 1;
    state = unhomed;
  };
}
dispatch_request inp p c r go = apply_go inp p c r.index
dispatch_request inp p c r step_open = if is_homing c.a.state then reject c else record c {
  a = record (c.a) { dest_index = none; v_max = flaps_s_to_usteps_s r.flaps_s; state = moving };
  tgt = inp.position + r.usteps;
  tgt_written = true;
}
dispatch_request inp p c r stop = apply_stop inp c r.invalidate_index c.a.state
dispatch_request inp p c r no_request = c

-- The call in the tick is guarded by `req.kind != None`.
unfoldable pub apply_request : IsrSnap → MotionParams → TickCtx → Request → TickCtx
apply_request inp p c r =
    dispatch_request inp p (record c { ev = record (c.ev) { drained = r.kind } }) r r.kind

unfoldable pub run_homing : IsrSnap → MotionParams → TickCtx → HomePhase → TickCtx
run_homing inp p c release =
    if not inp.hall_active
    then record c {
      a = record (c.a) { home_phase = seek };
      tgt = inp.position + home_limit;
      tgt_written = true;
    }
    else if leb c.tgt inp.position
    then enter_fault p c "hall never released" no_hall_ever
    else c
run_homing inp p c seek =
    if leb c.tgt inp.position
    then enter_fault p c "no hall edge in 1.2 revolutions"
        (if c.a.hall_seen then jam else no_hall_ever)
    else c
run_homing inp p c settle =
    if leb c.tgt inp.position
    then record c {
      a = record (c.a) {
        home_phase = no_phase;
        index = some ring_home_slot;
        rehome_retries = 0;
        rehome_attempt = 0;
        state = idle;
        recovered_after = 0;
      };
      ev = record (c.ev) { homed = true; recovered_after = c.a.recovered_after };
    }
    else c
run_homing inp p c no_phase = c

-- The `switch` on the state that the request and the edge left.
unfoldable pub run_state : IsrSnap → MotionParams → TickCtx → AxisState → TickCtx
run_state inp p c unhomed =
    let counted = record c { a = record (c.a) { home_delay = c.a.home_delay - 1 } } in
    if ltb 0 c.a.home_delay
    then if c.a.home_delay - 1 == 0 then begin_home inp p counted else counted
    else c
run_state inp p c homing = run_homing inp p c c.a.home_phase
run_state inp p c moving =
    if leb c.tgt inp.position
    then record c { a = record (c.a) { index = c.a.dest_index; state = idle } }
    else if c.a.hall_valid && edge_overdue inp.position inp.hall
    then enter_fault p c "no hall edge for 1.5 revolutions - drum stopped?" jam
    else c
run_state inp p c idle = c
run_state inp p c faulted = c

unfoldable pub running : AxisState → Bool
running s = is_moving s || is_homing s

abbrev is_request : ReqKind → Bool
is_request no_request = false
is_request _ = true

unfoldable pub tick_request : IsrSnap → MotionParams → TickCtx → Request → TickCtx
tick_request inp p c r = if is_request r.kind then apply_request inp p c r else c

abbrev pub take_seq : IsrSnap → TickCtx → TickCtx
take_seq inp c = record c { a = record (c.a) { seq_seen = inp.seq } }

unfoldable pub tick_edge : IsrSnap → MotionParams → TickCtx → TickCtx
tick_edge inp p c = if inp.seq == c.a.seq_seen then c else on_hall_edge inp p (take_seq inp c)

unfoldable pub tick_state : IsrSnap → MotionParams → TickCtx → TickCtx
tick_state inp p c = run_state inp p c c.a.state

-- What the tick's three stages leave; the seqlock is odd while they run.
unfoldable pub tick_ctx : AxisCtl → IsrSnap → Request → MotionParams → TickEvents → TickCtx
tick_ctx a inp req p ev =
    let entered = record a { seq = (a.seq + 1) % 2 ^ 32 } in
    let start : TickCtx = record { a = entered; ev = ev; tgt = inp.target; tgt_written = false } in
    tick_state inp p (tick_edge inp p (tick_request inp p start req))

unfoldable pub tick_velocity : IsrSnap → MotionParams → TickCtx → ℕ
tick_velocity inp p c =
    let ramp : RampParams = record {
      v_max = c.a.v_max;
      accel = p.accel;
      control_rate = control_hz;
    } in
    if running c.a.state then ramp_next_velocity (c.tgt - inp.position) inp.velocity ramp else 0

-- The axis, the write for the interrupt, and the events.
unfoldable pub axis_control_tick :
    AxisCtl → IsrSnap → Request → MotionParams → TickEvents → AxisCtl × IsrWrite × TickEvents
axis_control_tick a inp req p ev =
    let c = tick_ctx a inp req p ev in
    let write : IsrWrite = record {
      set_target = c.tgt_written;
      target = c.tgt;
      velocity = tick_velocity inp p c;
    } in
    (record (c.a) { seq = (c.a.seq + 1) % 2 ^ 32 }, write, c.ev)
