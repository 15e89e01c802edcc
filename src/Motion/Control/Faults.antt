-- ===== src/Motion/Control/Faults.antt =====
-- Faults within one control tick: which are retried, and that no other is
-- (components/motion/axis_control.cpp, enter_fault and its callers).
use lost_swan_firmware.Common.{
  ◌≤◌, ◌<◌, ◌≡◌, ◌⊎◌, refl, sym, subst, true, false, arith, inl, inr, if◌then◌else◌,
}
use lost_swan_firmware.Motion.Policy.{
  FaultCause, no_cause, no_hall_ever, jam, fault_retry_allowed, slip,
}
use lost_swan_firmware.Motion.Position.{EdgeVerdict}
use lost_swan_firmware.Motion.Axis.{
  AxisState, unhomed, homing, moving, faulted, HomePhase, release, seek, Request, AxisCtl, IsrSnap,
  TickEvents, MotionParams, no_events,
}
use lost_swan_firmware.Motion.Control.{
  TickCtx, enter_fault, begin_home, judge_edge, measure_edge, rebase, anchor_edge, apply_go,
  apply_stop, dispatch_request, apply_request, run_homing, run_state, tick_request, tick_state,
  tick_ctx, axis_control_tick, running,
}
use lost_swan_firmware.Motion.Control.Safety.{axis_control_tick_velocity}
use lost_swan_firmware.Motion.Control.Rules.{EdgeRule, Judged, tick_edge_rule}
use Prim.Native.String.{String}

-- No fault has been reported in this tick yet.
pub record Silent (ev : TickEvents) : Type 0 where
  pub no_fault : ev.fault ≡ false
  pub no_rehome : ev.rehome ≡ false
  pub no_latch : ev.gave_up ≡ false
  pub no_reason : ev.fault_cause ≡ no_cause

-- A fault that is retried: its cause allows it, nothing holds the axis, and it is one of the first
-- three attempts.
pub record Retried (p : MotionParams) (ev : TickEvents) : Type 0 where
  pub allowed : fault_retry_allowed ev.fault_cause ≡ true
  pub not_maintained : p.maintenance ≡ false
  pub not_held : p.ota_hold ≡ false
  pub counted : 0 < ev.rehome_attempt
  pub capped : ev.rehome_attempt ≤ 3
  pub not_latched : ev.gave_up ≡ false

-- A fault that latches: the axis stands in Fault and no re-home is scheduled.
pub record Latched (s : AxisState) (ev : TickEvents) : Type 0 where
  pub gave_up : ev.gave_up ≡ true
  pub no_rehome : ev.rehome ≡ false
  pub stands : s ≡ faulted

-- How a fault of the tick may be reported: not at all, or once, retried or latched.
abbrev pub Report : MotionParams → AxisState → TickEvents → Type 0
Report p s ev =
    Silent ev
    ⊎ ((ev.fault ≡ true) × (ev.rehome ≡ true) × Retried p ev)
    ⊎ ((ev.fault ≡ true) × Latched s ev)

-- The same after the edge stage, where a retried axis waits unhomed.
abbrev EdgeReport : MotionParams → TickCtx → Type 0
EdgeReport p c =
    Silent c.ev
    ⊎ ((c.ev.fault ≡ true) × (c.ev.rehome ≡ true) × Retried p c.ev × (c.a.state ≡ unhomed))
    ⊎ ((c.ev.fault ≡ true) × Latched c.a.state c.ev)

enter_fault-EdgeReport :
    (p : MotionParams) (c : TickCtx) (why : String) (cause : FaultCause)
    → Silent c.ev
    → EdgeReport p (enter_fault p c why cause)
unfolding enter_fault
enter_fault-EdgeReport p c why cause s = ground arith

measure_edge-Silent : (inp : IsrSnap) (c : TickCtx) → Silent c.ev → Silent (measure_edge inp c).ev
unfolding measure_edge
measure_edge-Silent inp c s = s

judge_edge_report :
    (p : MotionParams) (c : TickCtx) (v : EdgeVerdict)
    → Silent c.ev
    → Judged (λ d. Silent d.ev) (EdgeReport p) (judge_edge p c v)
unfolding judge_edge
judge_edge_report p c EdgeVerdict.minor s = s
judge_edge_report p c EdgeVerdict.major s = ground arith
judge_edge_report p c EdgeVerdict.fault s = enter_fault-EdgeReport p c _ slip s

anchor_edge-Silent : (inp : IsrSnap) (c : TickCtx) → Silent c.ev → Silent (anchor_edge inp c).ev
unfolding anchor_edge rebase
anchor_edge-Silent inp c s = ground arith

edge_report : (inp : IsrSnap) (p : MotionParams) → EdgeRule (λ d. Silent d.ev) (EdgeReport p) inp p
edge_report inp p = record {
  no_edge = λ c s. inl s;
  noted = λ c s. s;
  measured = measure_edge-Silent inp;
  judged = judge_edge_report p;
  anchored = λ c s. inl (anchor_edge-Silent inp c s);
}

tick_request-Silent :
    (inp : IsrSnap) (p : MotionParams) (c : TickCtx) (r : Request)
    → Silent c.ev
    → Silent (tick_request inp p c r).ev
unfolding tick_request apply_request dispatch_request apply_go apply_stop
tick_request-Silent inp p c r s = ground arith

weaken : (p : MotionParams) (c : TickCtx) → EdgeReport p c → Report p c.a.state c.ev
weaken p c (inl s) = inl s
weaken p c (inr (inl (f, r, t, u))) = inr (inl (f, r, t))
weaken p c (inr (inr l)) = inr (inr l)

run_homing-EdgeReport :
    (inp : IsrSnap) (p : MotionParams) (c : TickCtx) (phase : HomePhase)
    → Silent c.ev
    → EdgeReport p (run_homing inp p c phase)
unfolding run_homing
run_homing-EdgeReport inp p c release s =
    ground (arith, enter_fault-EdgeReport p c "hall never released" no_hall_ever s)
run_homing-EdgeReport inp p c seek s = ground (
  arith,
  enter_fault-EdgeReport p c "no hall edge in 1.2 revolutions"
      (if c.a.hall_seen then jam else no_hall_ever) s,
)
run_homing-EdgeReport inp p c _ s = ground arith

run_state-EdgeReport :
    (inp : IsrSnap) (p : MotionParams) (c : TickCtx) (s : AxisState)
    → Silent c.ev
    → EdgeReport p (run_state inp p c s)
unfolding run_state begin_home
run_state-EdgeReport inp p c homing s = run_homing-EdgeReport inp p c c.a.home_phase s
run_state-EdgeReport inp p c moving s =
    ground
      (arith, enter_fault-EdgeReport p c "no hall edge for 1.5 revolutions - drum stopped?" jam s)
run_state-EdgeReport inp p c _ s = ground arith

run_unhomed_ev :
    (inp : IsrSnap) (p : MotionParams) (c : TickCtx) → (run_state inp p c unhomed).ev ≡ c.ev
unfolding run_state begin_home
run_unhomed_ev inp p c = ground arith

abbrev ReportAt : IsrSnap → MotionParams → TickCtx → AxisState → Type 0
ReportAt inp p c s = Report p (run_state inp p c s).a.state (run_state inp p c s).ev

faulted_stays : (inp : IsrSnap) (p : MotionParams) (c : TickCtx) → run_state inp p c faulted ≡ c
unfolding run_state
faulted_stays inp p c = refl

run_state_report :
    (inp : IsrSnap) (p : MotionParams) (c : TickCtx) → EdgeReport p c → ReportAt inp p c c.a.state
run_state_report inp p c (inl s) =
    weaken p (run_state inp p c c.a.state) (run_state-EdgeReport inp p c c.a.state s)
run_state_report inp p c (inr (inl (f, r, t, u))) =
    subst (ReportAt inp p c) (sym u) (rw (run_unhomed_ev inp p c) (inr (inl (f, r, t))))
run_state_report inp p c (inr (inr (f, l))) =
    subst (ReportAt inp p c) (sym l.stands) (rw (faulted_stays inp p c) (inr (inr (f, l))))

-- What one tick reports of faults: nothing; or one fault with a re-home, whose cause may be
-- retried, with the axis neither in maintenance nor held for an update, as attempt 1, 2 or 3; or
-- one fault with no re-home, which gave up and leaves the axis in Fault.
pub axis_control_tick-Report :
    (a : AxisCtl) (inp : IsrSnap) (r : Request) (p : MotionParams)
    → let (b, _, ev) = axis_control_tick a inp r p no_events in Report p b.state ev
unfolding axis_control_tick tick_ctx tick_state
axis_control_tick-Report a inp r p =
    run_state_report inp p _
      (tick_edge_rule (edge_report inp p) _ (tick_request-Silent inp p _ r (ground arith)))

-- A jam is never retried, and in maintenance or under the update hold no fault is: the axis
-- latches in Fault, no re-home is scheduled, and the speed written is 0.
pub axis_control_tick_no_retry :
    (a : AxisCtl) (inp : IsrSnap) (r : Request) (p : MotionParams)
    → ((axis_control_tick a inp r p no_events).2.fault_cause ≡ jam)
      ⊎ (((axis_control_tick a inp r p no_events).2.fault ≡ true)
          × ((p.maintenance ≡ true) ⊎ (p.ota_hold ≡ true)))
    → let (b, w, ev) = axis_control_tick a inp r p no_events in
      (b.state ≡ faulted) × (ev.gave_up ≡ true) × (ev.rehome ≡ false) × (w.velocity ≡ 0)
unfolding fault_retry_allowed running
axis_control_tick_no_retry a inp r p h =
    ground
      (arith, axis_control_tick-Report a inp r p, axis_control_tick_velocity a inp r p no_events)
