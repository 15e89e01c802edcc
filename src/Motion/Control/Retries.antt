-- ===== src/Motion/Control/Retries.antt =====
-- How often an axis re-homes by itself over any run of control ticks
-- (components/motion/axis_control.cpp).
use lost_swan_firmware.Common.{
  ℕ, ◌+◌, ◌%◌, ◌≤◌, ◌<◌, ◌≡◌, ◌≢◌, refl, sym, subst, ◌^◌, ◌∙◌, false, arith, if◌then◌else◌, List,
  [], ◌∷◌,
}
use lost_swan_firmware.Motion.Policy.{FaultCause, no_hall_ever, jam}
use lost_swan_firmware.Motion.Axis.{
  AxisState, homing, moving, HomePhase, release, seek, settle, no_phase, Request, home, AxisCtl,
  IsrSnap, TickEvents, MotionParams, no_events,
}
use lost_swan_firmware.Motion.Control.{
  TickCtx, enter_fault, begin_home, apply_go, apply_stop, dispatch_request, apply_request,
  run_homing, run_state, tick_request, tick_edge, tick_state, tick_ctx, axis_control_tick,
}
use lost_swan_firmware.Motion.Control.Invariant.{
  Inv, reseal, tick_request-Inv, axis_control_tick-Inv,
}
use Prim.Native.String.{String}

-- What one control tick of the shell takes.
pub record TickInput : Type 0 where
  pub snap : IsrSnap
  pub request : Request
  pub params : MotionParams

-- Control ticks one after another, the events of each.
unfoldable pub run_ticks : AxisCtl → List TickInput → AxisCtl × List TickEvents
run_ticks a [] = (a, [])
run_ticks a (t ∷ ts) =
    let (b, _, ev) = axis_control_tick a t.snap t.request t.params no_events in
    let (c, evs) = run_ticks b ts in (c, ev ∷ evs)

-- How many of the ticks scheduled a re-home.
abbrev pub rehomes : List TickEvents → ℕ
rehomes [] = 0
rehomes (ev ∷ evs) = (if ev.rehome then 1 else 0) + rehomes evs

-- No operator command to home, a request on the ring, and no new edge of the Hall sensor.
abbrev pub Blind : ℕ → List TickInput → Type 0
Blind seen [] = Unit {0}
Blind seen (t ∷ ts) =
    (t.request.kind ≢ home) × (t.request.index < 50) × (t.snap.seq ≡ seen) × Blind seen ts

request_keeps :
    (inp : IsrSnap) (p : MotionParams) (c : TickCtx) (r : Request)
    → r.kind ≢ home
    → ((tick_request inp p c r).a.seq_seen ≡ c.a.seq_seen)
      × ((tick_request inp p c r).a.rehome_retries ≡ c.a.rehome_retries)
      × ((tick_request inp p c r).ev.rehome ≡ c.ev.rehome)
unfolding tick_request apply_request dispatch_request apply_go apply_stop
request_keeps inp p c r k = ground arith

-- A scheduled re-home uses up one of the retries, and nothing gives one back.
abbrev Spent : TickCtx → TickCtx → Type 0
Spent c d =
    (d.a.seq_seen ≡ c.a.seq_seen)
    × ((if d.ev.rehome then 1 else 0) + c.a.rehome_retries ≤ d.a.rehome_retries)

enter_fault-Spent :
    (p : MotionParams) (c : TickCtx) (why : String) (cause : FaultCause)
    → c.ev.rehome ≡ false
    → Spent c (enter_fault p c why cause)
unfolding enter_fault
enter_fault-Spent p c why cause quiet = ground arith

run_homing-Spent :
    (inp : IsrSnap) (p : MotionParams) (c : TickCtx) (phase : HomePhase)
    → c.ev.rehome ≡ false
    → c.a.state ≡ homing
    → c.a.home_phase ≡ phase
    → Inv c.a
    → Spent c (run_homing inp p c phase)
unfolding run_homing
run_homing-Spent inp p c release quiet e f v =
    ground (arith, enter_fault-Spent p c "hall never released" no_hall_ever quiet)
run_homing-Spent inp p c seek quiet e f v = ground (
  arith,
  enter_fault-Spent p c "no hall edge in 1.2 revolutions"
      (if c.a.hall_seen then jam else no_hall_ever) quiet,
)
run_homing-Spent inp p c settle quiet e f v = ground arith
run_homing-Spent inp p c no_phase quiet e f v = ground arith

run_state-Spent :
    (inp : IsrSnap) (p : MotionParams) (c : TickCtx) (s : AxisState)
    → c.ev.rehome ≡ false
    → c.a.state ≡ s
    → Inv c.a
    → Spent c (run_state inp p c s)
unfolding run_state begin_home
run_state-Spent inp p c homing quiet e v = run_homing-Spent inp p c c.a.home_phase quiet e refl v
run_state-Spent inp p c moving quiet e v =
    ground
      (arith, enter_fault-Spent p c "no hall edge for 1.5 revolutions - drum stopped?" jam quiet)
run_state-Spent inp p c _ quiet e v = ground arith

no_edge :
    (inp : IsrSnap) (p : MotionParams) (c : TickCtx)
    → inp.seq ≡ c.a.seq_seen
    → tick_edge inp p c ≡ c
unfolding tick_edge
no_edge inp p c e = ground arith

tick_spent :
    (a : AxisCtl) (inp : IsrSnap) (r : Request) (p : MotionParams)
    → r.kind ≢ home
    → r.index < 50
    → inp.seq ≡ a.seq_seen
    → Inv a
    → let (b, _, ev) = axis_control_tick a inp r p no_events in
      (b.seq_seen ≡ a.seq_seen)
      × ((if ev.rehome then 1 else 0) + a.rehome_retries ≤ b.rehome_retries)
unfolding axis_control_tick tick_ctx tick_state
tick_spent a inp r p k ring same v =
    let entered = record a { seq = (a.seq + 1) % 2 ^ 32 } in
    let start : TickCtx = record {
      a = entered;
      ev = no_events;
      tgt = inp.target;
      tgt_written = false;
    } in
    let c = tick_request inp p start r in
    let kept = request_keeps inp p start r k in
    let w = tick_request-Inv inp p start r ring (reseal a (a.seq + 1) v) in
    rw (no_edge inp p c (same ∙ sym kept.0))
      (ground (arith, kept, run_state-Spent inp p c c.a.state (kept.2) refl w))

run_spent :
    (ts : List TickInput) (a : AxisCtl)
    → Inv a
    → Blind a.seq_seen ts
    → (rehomes (run_ticks a ts).1 + a.rehome_retries ≤ (run_ticks a ts).0.rehome_retries)
      × Inv (run_ticks a ts).0
unfolding run_ticks
run_spent [] a v blind = (omega arith, v)
run_spent (t ∷ ts) a v blind =
    let (b, _, ev) = axis_control_tick a t.snap t.request t.params no_events in
    let spent = tick_spent a t.snap t.request t.params blind.0 blind.1 blind.2 v in
    let kept = axis_control_tick-Inv a t.snap t.request t.params no_events blind.1 v in
    let rest = run_spent ts b kept (subst (λ n. Blind n ts) (sym spent.0) blind.3) in
    (omega (arith, spent.1, rest.0), rest.1)

-- An axis that never sees an edge re-homes by itself at most three times, however long it runs and
-- whatever requests other than `home` are posted: a dead sensor cannot keep the drum hunting.
pub rehomes-run_ticks :
    (ts : List TickInput) (a : AxisCtl)
    → Inv a
    → Blind a.seq_seen ts
    → rehomes (run_ticks a ts).1 + a.rehome_retries ≤ 3
rehomes-run_ticks ts a v blind =
    let (spent, kept) = run_spent ts a v blind in omega (arith, spent, kept.retries_capped)
