-- ===== src/Modes/Hold.antt =====
-- The holds on the display (components/modes/mode_manager.cpp, `tick_locked`): maintenance, an update
-- and released drivers, and what the first tick after one does.
use lost_swan_firmware.Common.{
  ℕ, ◌≤◌, ◌<◌, ◌≡◌, refl, sym, ◌∙◌, ap, Bool, true, false, not, ◌&&◌, arith, Option, some,
}
use lost_swan_firmware.Modes.State.{Mode, Manager, Env, emit, persist, note_locked}
use lost_swan_firmware.Modes.Run.{
  is_running, target_ms, enter_reveal_silently, note_ended, note_zero,
}
use lost_swan_firmware.Modes.Tick.{
  is_held, passed, wake_silently, leave_hold, note_time, handle_time_step, held_tick, tick_with,
  tick_locked, tick,
}
use lost_swan_firmware.Modes.Control.{control}
use lost_swan_firmware.Modes.Calm.{Returns, returned}
use lost_swan_firmware.Modes.Termination.{lively_thrice}
use lost_swan_firmware.Modes.Induction.{tick_locked-free}
use lost_swan_firmware.Modes.Acts.{Acts, IsLively, IsOver}
use lost_swan_firmware.Modes.Refinement.{decisions-Respects}
use lost_swan_firmware.Modes.Invariants.{noise, Acts-IsOver}
use lost_swan_firmware.Modes.Runs.{Returns-Holds, Returns-map, noise_log}

-- The time that is noted leaves the holds, the walk and the calls alone.
abbrev Untouched : Manager → Manager → Type 0
Untouched m n =
    (n.maintenance ≡ m.maintenance)
    × (n.ota_hold ≡ m.ota_hold)
    × (n.drivers ≡ m.drivers)
    × (n.ramp ≡ m.ramp)
    × (n.log ≡ m.log)
    × (n.cd ≡ m.cd)
    × (n.held ≡ m.held)
    × (n.last_frame ≡ m.last_frame)

note_time-Untouched : (utc_ms : ℕ) (m : Manager) → Untouched m (note_time utc_ms m)
unfolding note_time handle_time_step
note_time-Untouched utc_ms m = ground arith

held_noted : (utc_ms : ℕ) (m : Manager) → is_held m ≡ true → is_held (note_time utc_ms m) ≡ true
unfolding note_time handle_time_step
held_noted utc_ms m h = ground arith

abbrev walks : Manager → Bool
walks m = m.ramp.active && not m.ota_hold && m.drivers

walks_noted : (utc_ms : ℕ) (m : Manager) → walks m ≡ false → walks (note_time utc_ms m) ≡ false
unfolding note_time handle_time_step
walks_noted utc_ms m h = ground arith

tick_with_held :
    (env : Env) (utc_ms : ℕ) (enter : Mode → Manager → Option Manager) (m : Manager)
    → is_held m ≡ true
    → walks m ≡ false
    → tick_with env utc_ms enter m ≡ some (record (note_time utc_ms m) { held = true })
unfolding tick_with held_tick
tick_with_held env utc_ms enter m held still =
    rw (held_noted utc_ms m held, walks_noted utc_ms m still) refl

-- While maintenance, an update or disabled drivers hold the display and no calibration walk is
-- under way, a tick shows no frame, sounds no cue, saves nothing and notes nothing; the countdown
-- and the last frame stand.
pub tick_held :
    (env : Env) (utc_ms : ℕ) (m : Manager)
    → is_held m ≡ true
    → m.ramp.active && not m.ota_hold && m.drivers ≡ false
    → Returns
        (λ n. (n.log ≡ m.log) × (n.cd ≡ m.cd) × (n.last_frame ≡ m.last_frame))
        (tick env utc_ms m)
unfolding tick_locked
tick_held env utc_ms m held still =
    let same = note_time-Untouched utc_ms m in
    rw (tick_with_held env utc_ms _ m held still) (returned _ (same.4, same.5, same.7))

silently-IsOver :
    (env : Env) (m : Manager)
    → m.pending_resume ≡ false
    → IsOver (control (persist (enter_reveal_silently env m)))
      × (noise (persist (enter_reveal_silently env m)).log ≡ noise m.log)
unfolding enter_reveal_silently persist note_ended note_zero note_locked emit control
silently-IsOver env m free = ground arith

leave_hold-IsOver :
    (env : Env) (utc_ms : ℕ) (m : Manager)
    → m.pending_resume ≡ false
    → m.held ≡ true
    → passed env utc_ms m ≡ true
    → IsOver (control (leave_hold env utc_ms m))
      × (noise (leave_hold env utc_ms m).log ≡ noise m.log)
unfolding leave_hold wake_silently
leave_hold-IsOver env utc_ms m free held past =
    rw held (rw past (silently-IsOver env (record m { held = false }) free))

noted_passed :
    (env : Env) (utc_ms : ℕ) (m : Manager)
    → (passed env utc_ms (note_time utc_ms m) ≡ passed env utc_ms m)
      × (is_held (note_time utc_ms m) ≡ is_held m)
      × ((note_time utc_ms m).pending_resume ≡ m.pending_resume)
      × ((note_time utc_ms m).held ≡ m.held)
      × ((note_time utc_ms m).log ≡ m.log)
unfolding note_time handle_time_step
noted_passed env utc_ms m = ground arith

-- The first tick after a hold during which the deadline of a run passed sounds no cue and spins no
-- drum, and the run is over, if the time is known, nothing waits for the clock and the message mode
-- was not entered from itself.
pub tick_wakes_silently :
    (env : Env) (utc_ms : ℕ) (m : Manager)
    → IsLively (control m)
    → m.pending_resume ≡ false
    → m.held ≡ true
    → is_held m ≡ false
    → is_running m.cd.phase ≡ true
    → env.time_valid ≡ true
    → 0 < m.cd.target_utc
    → target_ms m ≤ utc_ms
    → Returns (λ n. IsOver (control n) × (noise n.log ≡ noise m.log)) (tick env utc_ms m)
tick_wakes_silently env utc_ms m lively free held freed run valid set past =
    let (p, h, w, k, l) = noted_passed env utc_ms m in
    let noted = note_time utc_ms m in
    let over : passed env utc_ms m ≡ true = ground arith in
    let (start, same) = leave_hold-IsOver env utc_ms noted (w ∙ free) (k ∙ held) (p ∙ over) in
    Returns-map _
      (λ n acts.
        let (still, quiet) = Acts-IsOver acts start in
        (
          still,
          sym (noise_log n) ∙ quiet ∙ noise_log (leave_hold env utc_ms noted) ∙ same ∙ ap noise l,
        ))
      (Returns-Holds _ (lively_thrice env utc_ms m lively) (
        tick_locked-free env utc_ms (Acts env utc_ms) (decisions-Respects env utc_ms) 2 m
          (h ∙ freed)))
