-- ===== src/Motion/Control/Invariant.antt =====
-- What holds of an axis between two control ticks (components/motion/axis_control.cpp).
use lost_swan_firmware.Common.{
  ℕ, ◌+◌, ◌%◌, ◌^◌, ◌≤◌, ◌<◌, ◌≡◌, ◌≢◌, refl, false, arith, Option, none, some, if◌then◌else◌,
}
use lost_swan_firmware.Motion.Policy.{FaultCause, slip}
use lost_swan_firmware.Motion.Position.{EdgeVerdict}
use lost_swan_firmware.Motion.Axis.{
  AxisState, homing, HomePhase, no_phase, release, seek, settle, Request, ReqKind, home, AxisCtl,
  IsrSnap, TickEvents, MotionParams, initial_ctl,
}
use lost_swan_firmware.Motion.Control.{
  TickCtx, enter_fault, begin_home, judge_edge, measure_edge, rebase, anchor_edge, apply_go,
  apply_stop, dispatch_request, apply_request, run_homing, run_state, tick_request, tick_edge,
  tick_state, tick_ctx, axis_control_tick,
}
use lost_swan_firmware.Motion.Control.Rules.{EdgeRule, Judged, tick_edge_rule}
use Prim.Native.String.{String}

-- An index that is advertised names a slot of the ring.
abbrev pub SlotOk : Option ℕ → Type 0
SlotOk none = Unit {0}
SlotOk (some i) = i < 50

pub record Inv (a : AxisCtl) : Type 0 where
  pub retries_capped : a.rehome_retries ≤ 3
  pub attempt_capped : a.rehome_attempt ≤ 3
  pub recovered_capped : a.recovered_after ≤ 3
  pub phase_known : a.state ≡ homing → a.home_phase ≢ no_phase
  pub settle_fresh : a.state ≡ homing → a.home_phase ≡ settle → a.rehome_retries ≡ 0
  pub index_ok : SlotOk a.index
  pub dest_ok : SlotOk a.dest_index

initial-Inv : Inv initial_ctl
initial-Inv = ground arith

-- The seqlock's counter plays no part in it.
pub reseal : (a : AxisCtl) (n : ℕ) → Inv a → Inv (record a { seq = n % 2 ^ 32 })
reseal a n v = ground arith

enter_fault-Inv :
    (p : MotionParams) (c : TickCtx) (why : String) (cause : FaultCause)
    → Inv c.a
    → Inv (enter_fault p c why cause).a
unfolding enter_fault
enter_fault-Inv p c why cause v = ground arith

judge_edge-Inv :
    (p : MotionParams) (c : TickCtx) (verdict : EdgeVerdict)
    → Inv c.a
    → Judged (λ d. Inv d.a) (λ d. Inv d.a) (judge_edge p c verdict)
unfolding judge_edge
judge_edge-Inv p c EdgeVerdict.minor v = ground arith
judge_edge-Inv p c EdgeVerdict.major v = ground arith
judge_edge-Inv p c EdgeVerdict.fault v = enter_fault-Inv p c _ slip v

anchor_edge-Inv : (inp : IsrSnap) (c : TickCtx) → Inv c.a → Inv (anchor_edge inp c).a
unfolding anchor_edge rebase
anchor_edge-Inv inp c v = ground arith

measure_edge-Inv : (inp : IsrSnap) (c : TickCtx) → Inv c.a → Inv (measure_edge inp c).a
unfolding measure_edge
measure_edge-Inv inp c v = ground arith

edge-Inv : (inp : IsrSnap) (p : MotionParams) → EdgeRule (λ d. Inv d.a) (λ d. Inv d.a) inp p
edge-Inv inp p = record {
  no_edge = λ c v. v;
  noted = λ c v. ground arith;
  measured = measure_edge-Inv inp;
  judged = judge_edge-Inv p;
  anchored = anchor_edge-Inv inp;
}

dispatch_request-Inv :
    (inp : IsrSnap) (p : MotionParams) (c : TickCtx) (r : Request) (k : ReqKind)
    → r.index < 50
    → Inv c.a
    → Inv (dispatch_request inp p c r k).a
unfolding dispatch_request apply_go apply_stop
dispatch_request-Inv inp p c r home h v = ground arith
dispatch_request-Inv inp p c r _ h v = ground arith

run_homing-Inv :
    (inp : IsrSnap) (p : MotionParams) (c : TickCtx) (phase : HomePhase)
    → Inv c.a
    → c.a.state ≡ homing
    → c.a.home_phase ≡ phase
    → Inv (run_homing inp p c phase).a
unfolding run_homing
run_homing-Inv inp p c release v e f =
    ground (arith, enter_fault-Inv p c "hall never released" FaultCause.no_hall_ever v)
run_homing-Inv inp p c seek v e f = ground (
  arith,
  enter_fault-Inv p c "no hall edge in 1.2 revolutions"
      (if c.a.hall_seen then FaultCause.jam else FaultCause.no_hall_ever) v,
)
run_homing-Inv inp p c settle v e f = ground arith
run_homing-Inv inp p c no_phase v e f = v

run_state-Inv :
    (inp : IsrSnap) (p : MotionParams) (c : TickCtx) (s : AxisState)
    → c.a.state ≡ s
    → Inv c.a
    → Inv (run_state inp p c s).a
unfolding run_state begin_home
run_state-Inv inp p c homing e v = run_homing-Inv inp p c c.a.home_phase v e refl
run_state-Inv inp p c AxisState.moving e v =
    ground (
      arith,
      enter_fault-Inv p c "no hall edge for 1.5 revolutions - drum stopped?" FaultCause.jam v,
    )
run_state-Inv inp p c _ e v = ground arith

pub tick_request-Inv :
    (inp : IsrSnap) (p : MotionParams) (c : TickCtx) (r : Request)
    → r.index < 50
    → Inv c.a
    → Inv (tick_request inp p c r).a
unfolding tick_request apply_request
tick_request-Inv inp p c r h v =
    let drained = record c { ev = record (c.ev) { drained = r.kind } } in
    ground (arith, dispatch_request-Inv inp p drained r r.kind h v)

tick_ctx-Inv :
    (a : AxisCtl) (inp : IsrSnap) (r : Request) (p : MotionParams) (ev : TickEvents)
    → r.index < 50
    → Inv a
    → Inv (tick_ctx a inp r p ev).a
unfolding tick_ctx tick_state
tick_ctx-Inv a inp r p ev h v =
    let entered = record a { seq = (a.seq + 1) % 2 ^ 32 } in
    let start : TickCtx = record { a = entered; ev = ev; tgt = inp.target; tgt_written = false } in
    let c = tick_edge inp p (tick_request inp p start r) in
    run_state-Inv inp p c c.a.state refl (
      tick_edge_rule (edge-Inv inp p) _ (tick_request-Inv inp p start r h (reseal a (a.seq + 1) v)))

-- A control tick keeps the axis well formed: never more than three re-home attempts on the
-- counters, a known phase while homing, and every advertised slot on the ring. The request, if
-- any, names a slot of the ring, which the callers check before they post it.
pub axis_control_tick-Inv :
    (a : AxisCtl) (inp : IsrSnap) (r : Request) (p : MotionParams) (ev : TickEvents)
    → r.index < 50
    → Inv a
    → Inv (axis_control_tick a inp r p ev).0
unfolding axis_control_tick
axis_control_tick-Inv a inp r p ev h v =
    let c = tick_ctx a inp r p ev in reseal c.a (c.a.seq + 1) (tick_ctx-Inv a inp r p ev h v)
