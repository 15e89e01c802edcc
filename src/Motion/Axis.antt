-- ===== src/Motion/Axis.antt =====
-- components/motion/include/motion/axis_control.h and motion_types.h: the control state of an axis,
-- what a tick reads and writes, and the events that it reports. The constructors `None` of ReqKind
-- and HomePhase are `no_request` and `no_phase`; `RING_INVALID` is `none`.
use lost_swan_firmware.Common.{ℕ, ◌*◌, ◌/◌, Bool, true, false, Option, none, List, [], ◌∷◌}
use lost_swan_firmware.Common.Int.{ℤ, pos}
use lost_swan_firmware.Motion.Geometry.{usteps_per_spool_rev_nominal, ring_target_usteps}
use lost_swan_firmware.Motion.Policy.{FaultCause}
use Prim.Native.String.{String}

abbrev pub rehome_retries_max : ℕ
rehome_retries_max = 3

abbrev pub home_limit : ℕ
home_limit = usteps_per_spool_rev_nominal * 6 / 5

pub data AxisState : Type 0 where
  unhomed homing idle moving faulted : AxisState

pub data HomePhase : Type 0 where
  no_phase release seek settle : HomePhase

pub data ReqKind : Type 0 where
  no_request home go step_open stop : ReqKind

pub record Request : Type 0 where
  pub kind : ReqKind
  pub index : ℕ
  pub usteps : ℕ
  pub flaps_s : ℕ
  pub delay_ticks : ℕ  -- uint32_t
  pub invalidate_index : Bool

pub record AxisCtl : Type 0 where
  pub seq : ℕ  -- uint32_t
  pub state : AxisState
  pub index : Option ℕ
  pub dest_index : Option ℕ
  pub hall_valid : Bool
  pub revs : ℕ  -- uint32_t
  pub resync_minor : ℕ  -- uint32_t
  pub resync_major : ℕ  -- uint32_t
  pub faults : ℕ  -- uint32_t
  pub last_hall_err : ℤ  -- int32_t
  pub hall_to_hall : ℤ  -- int32_t
  pub rehome_attempt : ℕ  -- uint8_t
  pub fault_cause : FaultCause
  pub cal_offset : ℕ
  pub home_phase : HomePhase
  pub v_max : ℕ
  pub hall_prev : ℕ
  pub seq_seen : ℕ  -- uint32_t
  pub home_delay : ℕ  -- uint32_t
  pub rehome_retries : ℕ  -- uint8_t
  pub hall_seen : Bool
  pub recovered_after : ℕ  -- uint8_t

abbrev pub initial_ctl : AxisCtl
initial_ctl = record {
  seq = 0;
  state = unhomed;
  index = none;
  dest_index = none;
  hall_valid = false;
  revs = 0;
  resync_minor = 0;
  resync_major = 0;
  faults = 0;
  last_hall_err = pos 0;
  hall_to_hall = pos 0;
  rehome_attempt = 0;
  fault_cause = FaultCause.no_cause;
  cal_offset = 0;
  home_phase = no_phase;
  v_max = 0;
  hall_prev = 0;
  seq_seen = 0;
  home_delay = 0;
  rehome_retries = 0;
  hall_seen = false;
  recovered_after = 0;
}

pub record IsrSnap : Type 0 where
  pub position : ℕ
  pub hall : ℕ
  pub target : ℕ
  pub velocity : ℕ
  pub seq : ℕ  -- uint32_t
  pub hall_active : Bool

pub record IsrWrite : Type 0 where
  pub set_target : Bool
  pub target : ℕ
  pub velocity : ℕ

pub record TickEvents : Type 0 where
  pub drained : ReqKind
  pub req_rejected : Bool
  pub homed : Bool
  pub fault : Bool
  pub fault_reason : Option String
  pub fault_cause : FaultCause
  pub rehome : Bool
  pub rehome_attempt : ℕ
  pub gave_up : Bool
  pub recovered_after : ℕ
  pub resync_major : Bool

abbrev pub no_events : TickEvents
no_events = record {
  drained = no_request;
  req_rejected = false;
  homed = false;
  fault = false;
  fault_reason = none;
  fault_cause = FaultCause.no_cause;
  rehome = false;
  rehome_attempt = 0;
  gave_up = false;
  recovered_after = 0;
  resync_major = false;
}

pub record MotionParams : Type 0 where
  pub flaps_s_normal : ℕ
  pub flaps_s_alarm : ℕ
  pub flaps_s_home : ℕ
  pub accel : ℕ
  pub hall_tol : ℕ
  pub hall_active_low : Bool
  pub dir_invert : Bool
  pub cal : List ℕ
  pub maintenance : Bool
  pub ota_hold : Bool

abbrev pub default_params : MotionParams
default_params = record {
  flaps_s_normal = 15;
  flaps_s_alarm = 25;
  flaps_s_home = 8;
  accel = 12000;
  hall_tol = ring_target_usteps 1 / 4;
  hall_active_low = true;
  dir_invert = false;
  cal = 0 ∷ 0 ∷ 0 ∷ 0 ∷ 0 ∷ [];
  maintenance = false;
  ota_hold = false;
}
