-- ===== src/Motion/Control/Requests.antt =====
-- What a posted request does to an axis, on every branch (components/motion/axis_control.cpp,
-- apply_request). The requests are judged by the control tick, the only writer of the state.
use lost_swan_firmware.Common.{
  ℕ, ◌≡◌, ◌≢◌, ◌⊎◌, ◌↔◌, Bool, true, false, arith, Option, none, some, if◌then◌else◌,
}
use lost_swan_firmware.Motion.Axis.{
  AxisState, unhomed, homing, idle, moving, Request, go, stop, AxisCtl, IsrSnap, MotionParams,
}
use lost_swan_firmware.Motion.Position.{plan_target}
use lost_swan_firmware.Motion.Control.{
  TickCtx, apply_go, apply_stop, dispatch_request, apply_request,
}

-- `go` is accepted exactly where the drum has a Hall reference and may be moved: at rest or moving,
-- or in maintenance in any state but homing. It then moves to the planned target; refused, it
-- changes nothing on the axis and writes no target.
pub apply_request_go :
    (inp : IsrSnap) (p : MotionParams) (c : TickCtx) (r : Request)
    → r.kind ≡ go
    → c.ev.req_rejected ≡ false
    → let d = apply_request inp p c r in
      ((d.ev.req_rejected ≡ false) ↔ (
        (c.a.hall_valid ≡ true)
        × ((c.a.state ≡ idle)
            ⊎ (c.a.state ≡ moving)
            ⊎ ((p.maintenance ≡ true) × (c.a.state ≢ homing)))))
      × ((d.ev.req_rejected ≡ false)
          ⊎ ((d.a ≡ c.a) × (d.tgt ≡ c.tgt) × (d.tgt_written ≡ c.tgt_written)))
      × ((d.ev.req_rejected ≡ true)
          ⊎ ((d.a.state ≡ moving)
              × (d.a.dest_index ≡ some r.index)
              × (d.tgt ≡ plan_target inp.hall c.a.cal_offset inp.position r.index)
              × (d.tgt_written ≡ true)))
unfolding apply_request dispatch_request apply_go
apply_request_go inp p c r k fresh = ground arith

-- Where a stop leaves an axis: a move ends at rest, a homing pass ends with nothing known.
abbrev pub stopped_state : AxisState → AxisState
stopped_state moving = idle
stopped_state homing = unhomed
stopped_state s = s

-- The slot that is shown after it.
abbrev pub stopped_index : AxisCtl → Bool → AxisState → Option ℕ
stopped_index a invalidate moving = if invalidate then none else a.dest_index
stopped_index a invalidate homing = none
stopped_index a invalidate s = a.index

-- A stop leaves nothing in motion: the target becomes the drum's own position, a move ends idle and
-- a homing pass unhomed, and an unhomed axis has no home pending. A move shows its destination,
-- or no slot if it is told to forget it; a homing pass shows none; any other state keeps its slot.
pub apply_request_stop :
    (inp : IsrSnap) (p : MotionParams) (c : TickCtx) (r : Request)
    → r.kind ≡ stop
    → let d = apply_request inp p c r in
      (d.tgt ≡ inp.position)
      × (d.tgt_written ≡ true)
      × (d.a.state ≡ stopped_state c.a.state)
      × (d.a.index ≡ stopped_index c.a r.invalidate_index c.a.state)
      × ((d.a.state ≢ unhomed) ⊎ (d.a.home_delay ≡ 0))
unfolding apply_request dispatch_request apply_stop
apply_request_stop inp p c r k = ground arith
