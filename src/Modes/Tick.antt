-- ===== src/Modes/Tick.antt =====
-- components/modes/mode_manager.cpp: the tick and the change of mode, which call each other. Fuel
-- bounds how deep they go, and a tick that ran out of it is `none`.
use lost_swan_firmware.Common.{
  ℕ, zero, suc, ◌+◌, ◌%◌, Bool, true, false, not, ◌&&◌, ◌||◌, ltb, leb, ◌==◌, if◌then◌else◌, List,
  Option, none, some,
}
use lost_swan_firmware.Common.Int.{ℤ, sub_ℕ, ◌+ℤ◌}
use lost_swan_firmware.Motion.Geometry.{ring_forward_distance}
use lost_swan_firmware.Frame.{cancel_pending}
use lost_swan_firmware.Ring.{col, slot_count}
use lost_swan_firmware.Modes.Render.{set_idx}
use lost_swan_firmware.Modes.State.{
  codes, mode_name, Mode, CdPhase, Origin, mode_change, render_none, shown_none, Manager, Env,
  persist, note_locked, issue, sched_tick, render_again,
}
use lost_swan_firmware.Modes.Clock.{is_negative, tick_clock}
use lost_swan_firmware.Modes.Run.{
  is_running, is_zero, is_spin, is_reveal, set_phase, target_ms, enter_reveal_silently,
  countdown_resume, tick_countdown_offscreen,
}
use lost_swan_firmware.Modes.Face.{tick_countdown, tick_message}

abbrev pub same_mode : Mode → Mode → Bool
same_mode Mode.clock Mode.clock = true
same_mode Mode.message Mode.message = true
same_mode Mode.countdown Mode.countdown = true
same_mode _ _ = false

abbrev pub is_countdown : Mode → Bool
is_countdown m = same_mode m Mode.countdown

-- Leaving the countdown after its zero ends the run.
unfoldable pub leave_countdown : Mode → Manager → Manager
leave_countdown md m =
    let past_zero = is_zero m.cd.phase || is_spin m.cd.phase || is_reveal m.cd.phase in
    if is_countdown m.mode && not (is_countdown md) && past_zero
    then persist (set_phase CdPhase.idle m)
    else m

abbrev pub noted_change : Env → Mode → Option (List ℕ) → Manager → Manager
noted_change env md (some why) m = note_locked env mode_change why m.cd.seq m.cd.set_by m
noted_change env md none m = note_locked env mode_change (codes (mode_name md)) 0 Origin.unknown m

unfoldable pub change_mode : Env → Mode → Manager → Manager
change_mode env md m =
    if same_mode m.mode md
    then m
    else noted_change env md m.mode_note (record m { prev_mode = m.mode })

-- `enter_mode` up to its tick.
unfoldable pub entering : Env → Mode → Manager → Manager
entering env md m =
    let changed = change_mode env md (leave_countdown md m) in
    record changed {
      mode_note = none;
      mode = md;
      clock = record (changed.clock) { rendered_key = render_none };
      cd_shown = shown_none;
      cd_scheduled_land = 0;
    }

abbrev pub cancel : Manager → Manager
cancel m = record m { sched = cancel_pending m.sched }

unfoldable pub handle_time_step : ℤ → Manager → Manager
handle_time_step delta_ms m =
    let since = m.clock.invalid_since_ms in
    cancel (record m {
      msg = record (m.msg) { msg_until_ms = m.msg.msg_until_ms +ℤ delta_ms };
      clock = record (m.clock) {
        invalid_since_ms = if is_negative since then since else since +ℤ delta_ms;
        rendered_key = render_none;
      };
      cd_scheduled_land = 0;
      cd_shown = if is_running m.cd.phase then shown_none else m.cd_shown;
    })

-- More than 5000 ms forward or 1000 ms back.
abbrev pub is_time_step : ℕ → ℕ → Bool
is_time_step last utc_ms = ltb (last + 5000) utc_ms || ltb (utc_ms + 1000) last

abbrev pub step_from : Option ℕ → ℕ → Manager → Manager
step_from none utc_ms m = m
step_from (some last) utc_ms m =
    if is_time_step last utc_ms then handle_time_step (sub_ℕ utc_ms last) m else m

unfoldable pub note_time : ℕ → Manager → Manager
note_time utc_ms m = record (step_from m.last_tick_ms utc_ms m) { last_tick_ms = some utc_ms }

-- The walk, past its stop at `next_index`.
unfoldable pub next_stop : Env → Manager → Manager
next_stop env m =
    let remaining = ring_forward_distance m.ramp.next_index m.ramp.to in
    let wrapped = (m.ramp.next_index + m.ramp.step) % slot_count (col env.ring m.ramp.column) in
    if remaining == 0
    then record m { ramp = record (m.ramp) { last_stop = true } }
    else if leb remaining m.ramp.step
    then record m { ramp = record (m.ramp) { next_index = m.ramp.to; last_stop = true } }
    else record m { ramp = record (m.ramp) { next_index = wrapped } }

unfoldable pub tick_ramp : Env → ℕ → Manager → Manager
tick_ramp env utc_ms m =
    let f = set_idx m.last_frame m.ramp.column m.ramp.next_index in
    let shown = issue env f utc_ms 0 m in
    let timed = record shown { ramp = record (m.ramp) { due_ms = utc_ms + m.ramp.dwell_ms } } in
    if ltb utc_ms m.ramp.due_ms
    then m
    else if m.ramp.last_stop
    then render_again (record timed { ramp = record (timed.ramp) { active = false } })
    else next_stop env timed

abbrev pub is_held : Manager → Bool
is_held m = m.maintenance || m.ota_hold || not m.drivers

-- Only the calibration walk goes on, and only in maintenance.
unfoldable pub held_tick : Env → ℕ → Manager → Manager
held_tick env utc_ms m =
    if m.ramp.active && not m.ota_hold && m.drivers
    then tick_ramp env utc_ms (record m { held = true })
    else record m { held = true }

-- Whether the deadline passed while the display was held.
abbrev pub passed : Env → ℕ → Manager → Bool
passed env utc_ms m =
    is_running m.cd.phase && env.time_valid && ltb 0 m.cd.target_utc && leb (target_ms m) utc_ms

unfoldable pub wake_silently : Env → ℕ → Manager → Manager
wake_silently env utc_ms m =
    if passed env utc_ms m then persist (enter_reveal_silently env m) else m

unfoldable pub leave_hold : Env → ℕ → Manager → Manager
leave_hold env utc_ms m = if m.held then wake_silently env utc_ms (record m { held = false }) else m

unfoldable pub offscreen : Env → ℕ → Manager → Manager × Option Mode
offscreen env utc_ms m =
    if is_countdown m.mode then (m, none) else tick_countdown_offscreen env utc_ms m

unfoldable pub by_mode : Env → ℕ → Mode → Manager → Manager × Option Mode
by_mode env utc_ms Mode.clock m = (tick_clock env utc_ms m, none)
by_mode env utc_ms Mode.message m = tick_message utc_ms m
by_mode env utc_ms Mode.countdown m = tick_countdown env utc_ms m

unfoldable pub render_current : Env → ℕ → Manager → Manager × Option Mode
render_current env utc_ms m =
    if m.ramp.active then (tick_ramp env utc_ms m, none) else by_mode env utc_ms m.mode m

abbrev pub and_then : Option Manager → (Manager → Option Manager) → Option Manager
and_then none k = none
and_then (some m) k = k m

-- The rest of a call that may end by entering a mode, `enter` being that call.
abbrev pub then_enter : (Mode → Manager → Option Manager) → Manager × Option Mode → Option Manager
then_enter enter (m, none) = some m
then_enter enter (m, some md) = enter md m

module _ (env : Env) (utc_ms : ℕ) where
  -- The tick past its holds, with `enter` for `enter_mode`.
  unfoldable pub free_tick : (Mode → Manager → Option Manager) → Manager → Option Manager
  free_tick enter m = and_then (then_enter enter (offscreen env utc_ms m)) (λ n.
      and_then (then_enter enter (render_current env utc_ms n))
        (λ o. some (sched_tick env utc_ms o)))

  abbrev pub resumes : Manager → Bool
  resumes m = m.pending_resume && env.time_valid

  unfoldable pub wake : (Mode → Manager → Option Manager) → Manager → Option Manager
  wake enter m =
      if resumes m
      then enter Mode.countdown (countdown_resume env utc_ms (record m { pending_resume = false }))
      else free_tick enter m

  unfoldable pub tick_with : (Mode → Manager → Option Manager) → Manager → Option Manager
  tick_with enter m =
      let noted = note_time utc_ms m in
      if is_held noted
      then some (held_tick env utc_ms noted)
      else wake enter (leave_hold env utc_ms noted)

  unfoldable pub tick_locked : ℕ → Manager → Option Manager
  tick_locked zero m = none
  tick_locked (suc fuel) m = tick_with (λ md n. tick_locked fuel (entering env md n)) m

  -- A tick goes at most three deep.
  abbrev pub tick : Manager → Option Manager
  tick m = tick_locked 3 m

  abbrev pub enter_mode : Mode → Manager → Option Manager
  enter_mode md m = tick (entering env md m)
