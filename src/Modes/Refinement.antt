-- ===== src/Modes/Refinement.antt =====
-- The rendering of each mode in components/modes/mode_manager.cpp decides nothing but steps of
-- `Act`, and so does a whole tick.
use lost_swan_firmware.Common.{
  either_branch, by_branch, ℕ, ◌≡◌, refl, sym, ◌∙◌, ap, subst, true, false, leb, arith, Option,
  some, Bool,
}
use lost_swan_firmware.Modes.State.{Mode, CdPhase, Manager, Env, codes, emit, persist, note_locked}
use lost_swan_firmware.Modes.Run.{
  is_idle, is_running, is_reveal, target_ms, set_phase, note_zero, wake_s, warn4, warn1, sound_zero,
  offscreen_zero, tick_countdown_offscreen,
}
use lost_swan_firmware.Modes.Face.{
  zero_face, zero_moment, start_spin, end_spin, end_reveal, reveal_phase, zero_choreography,
  running_tick, after_cues, tick_countdown, tick_message, running_face, idle_face, show_reveal,
  announce_reveal,
}
use lost_swan_firmware.Modes.Tick.{
  is_countdown, entering, offscreen, by_mode, render_current, tick_locked,
}
use lost_swan_firmware.Modes.Control.{
  control, control-mode, tick_clock-control, running_face-control, idle_face-control,
  zero_face-control, show_reveal-control, announce_reveal-control, tick_ramp-control,
}
use lost_swan_firmware.Modes.Course.{
  Kept, control-Kept, Leads, stays, enters, sound_zero-Kept, start_spin-Kept, end_spin-Kept,
  running_tick-Kept,
}
use lost_swan_firmware.Modes.Acts.{Act, Acts, here, compose}
use lost_swan_firmware.Modes.Induction.{Holds, Respects, tick_locked-From}
use lost_swan_firmware.Modes.Moments.{
  Does, shown, raised, IsUp, sound_zero-Does, zero_moment-Does, start_spin-Does, end_spin-Does,
  leave_hold-Does, cues-cd, running_of, cues-Does, offscreen_zero-Does,
}
use lost_swan_firmware.Modes.Entering.{enters_by}
use lost_swan_firmware.Modes.Resume.{resume-Does}

module _ (env : Env) (utc_ms : ℕ) where
  -- A part of a tick that may end by entering a mode.
  abbrev LeadsTo : Manager → Manager × Option Mode → Type 0
  LeadsTo m = Leads (Does env utc_ms m) (λ md n. Does env utc_ms m (entering env md n))

  countdown_offscreen-Does :
      (m : Manager)
      → is_countdown (control m).mode ≡ false
      → LeadsTo m (tick_countdown_offscreen env utc_ms m)
  unfolding tick_countdown_offscreen wake_s control
  countdown_offscreen-Does m off =
      let noted = record m { mode_note = some (codes "countdown (auto, 4:00)") } in
      let cued = warn1 utc_ms (warn4 utc_ms m) in
      by_branch (LeadsTo m) _ (λ over. stays m here)
        (λ run.
          let running : is_running m.cd.phase ≡ true = raised env utc_ms _ run in
          by_branch (LeadsTo m) _
            (λ wakes. enters Mode.countdown noted (
              enters_by env utc_ms m noted Mode.countdown (ground arith) (
                Act.take_display (control m) off running (ground arith) (ground arith)
                  (ground arith))))
            (λ other. stays (offscreen_zero env utc_ms cued) (
              compose (cues-Does env utc_ms m running) (
                offscreen_zero-Does env utc_ms cued
                  (subst (λ md. is_countdown md ≡ false) (sym (cues-cd env utc_ms m).1) off)
                  (running_of env utc_ms m cued (cues-cd env utc_ms m).0 running)))))

  offscreen-Does : (m : Manager) → LeadsTo m (offscreen env utc_ms m)
  unfolding offscreen control
  offscreen-Does m =
      by_branch (LeadsTo m) _ (λ up. stays m here) (λ off. countdown_offscreen-Does m off)

  running_tick-Does :
      (m : Manager)
      → IsUp env utc_ms m
      → is_running (control m).cd.phase ≡ true
      → Does env utc_ms m (running_tick env utc_ms m)
  unfolding running_tick control
  running_tick-Does m up run =
      let cued = warn1 utc_ms (warn4 utc_ms m) in
      compose (cues-Does env utc_ms m run) (
        zero_moment-Does env utc_ms cued
          (subst (λ md. is_countdown md ≡ true) (sym (cues-cd env utc_ms m).1) up)
          (running_of env utc_ms m cued (cues-cd env utc_ms m).0 run))

  note_zero-cd : (m : Manager) → (note_zero env m).cd ≡ m.cd
  unfolding note_zero note_locked emit
  note_zero-cd m = ground arith

  zero_moment-busy :
      (m : Manager)
      → is_running m.cd.phase ≡ true
      → is_idle (zero_moment env utc_ms m).cd.phase ≡ false
  unfolding zero_moment persist emit
  zero_moment-busy m run =
      either_branch (λ (n : Manager). is_idle n.cd.phase ≡ false) (leb (target_ms m) utc_ms) {b = m}
        (subst (λ c. is_idle c.phase ≡ false)
          (sym (note_zero-cd (persist (set_phase CdPhase.zero m)))) refl)
        (ground arith)

  running_tick-busy :
      (m : Manager)
      → is_running m.cd.phase ≡ true
      → is_idle (running_tick env utc_ms m).cd.phase ≡ false
  unfolding running_tick
  running_tick-busy m run =
      let cued = warn1 utc_ms (warn4 utc_ms m) in
      zero_moment-busy cued (running_of env utc_ms m cued (cues-cd env utc_ms m).0 run)

  end_reveal-Does :
      (m : Manager)
      → IsUp env utc_ms m
      → is_reveal (control m).cd.phase ≡ true
      → LeadsTo m (end_reveal utc_ms m)
  unfolding end_reveal persist emit control
  end_reveal-Does m up out =
      let idle = persist (set_phase CdPhase.idle m) in
      by_branch (LeadsTo m) _
        (λ over. enters Mode.clock idle (
          enters_by env utc_ms m idle Mode.clock (ground arith)
            (Act.give_up (control m) up out (ground arith) (ground arith))))
        (λ other. stays m here)

  leads_after :
      (m n : Manager) (r : Manager × Option Mode) → Does env utc_ms m n → LeadsTo n r → LeadsTo m r
  leads_after m n r d (stays o e) = stays o (compose d e)
  leads_after m n r d (enters md o e) = enters md o (compose d e)

  Kept-IsUp : (m n : Manager) → Kept m n → IsUp env utc_ms m → IsUp env utc_ms n
  Kept-IsUp m n k up = subst (λ (c : Mode × Mode × Bool × ℕ). is_countdown c.0 ≡ true) (sym k) up

  reveal_phase-Does : (m : Manager) → IsUp env utc_ms m → LeadsTo m (reveal_phase env utc_ms m)
  unfolding reveal_phase control
  reveal_phase-Does m up =
      let displayed = announce_reveal env (show_reveal env utc_ms m) in
      let e : control displayed ≡ control m =
        announce_reveal-control env utc_ms _ ∙ show_reveal-control env utc_ms m in
      by_branch (LeadsTo m) _
        (λ out. leads_after m displayed _ (shown env utc_ms m displayed e) (
          end_reveal-Does displayed (Kept-IsUp m displayed (control-Kept m displayed e) up)
            (subst (λ c. is_reveal c.cd.phase ≡ true) (sym e) out)))
        (λ other. stays m here)

  zero_choreography-Does :
      (m : Manager)
      → IsUp env utc_ms m
      → is_idle (control m).cd.phase ≡ false
      → is_running (control m).cd.phase ≡ false
      → LeadsTo m (zero_choreography env utc_ms m)
  unfolding zero_choreography
  zero_choreography-Does m up busy over =
      let sounded = sound_zero m in
      let faced = zero_face env utc_ms sounded in
      let spun = start_spin env utc_ms faced in
      let e = zero_face-control env utc_ms sounded in
      let up₁ = Kept-IsUp m sounded (sound_zero-Kept env utc_ms m) up in
      let up₂ = Kept-IsUp sounded faced (control-Kept sounded faced e) up₁ in
      let up₃ = Kept-IsUp faced spun (start_spin-Kept env utc_ms faced) up₂ in
      leads_after m (end_spin env utc_ms spun) _
        (compose (sound_zero-Does env utc_ms m up busy over) (
          compose (shown env utc_ms sounded faced e)
            (compose (start_spin-Does env utc_ms faced up₂) (end_spin-Does env utc_ms spun up₃))))
        (reveal_phase-Does (end_spin env utc_ms spun)
          (Kept-IsUp spun (end_spin env utc_ms spun) (end_spin-Kept env utc_ms spun) up₃))

  after_cues-Does :
      (m : Manager)
      → IsUp env utc_ms m
      → is_idle (control m).cd.phase ≡ false
      → LeadsTo m (after_cues env utc_ms m)
  unfolding after_cues control
  after_cues-Does m up busy =
      by_branch (LeadsTo m) _
        (λ run.
          stays (running_face env utc_ms m)
            (shown env utc_ms m (running_face env utc_ms m) (running_face-control env utc_ms m)))
        (λ over. zero_choreography-Does m up busy over)

  countdown-Does : (m : Manager) → IsUp env utc_ms m → LeadsTo m (tick_countdown env utc_ms m)
  unfolding tick_countdown control
  countdown-Does m up =
      by_branch (LeadsTo m) _
        (λ idle.
          stays (idle_face env utc_ms m)
            (shown env utc_ms m (idle_face env utc_ms m) (idle_face-control env utc_ms m)))
        (λ busy.
          by_branch (λ n. LeadsTo m (after_cues env utc_ms n)) _
            (λ run. leads_after m (running_tick env utc_ms m) _ (running_tick-Does m up run) (
              after_cues-Does (running_tick env utc_ms m)
                (Kept-IsUp m (running_tick env utc_ms m) (running_tick-Kept env utc_ms m) up)
                (running_tick-busy m run)))
            (λ over. after_cues-Does m up busy))

  message-Does : (m : Manager) → (control m).mode ≡ Mode.message → LeadsTo m (tick_message utc_ms m)
  unfolding tick_message control
  message-Does m e =
      let over = record m { msg = record (m.msg) { msg_live = false } } in
      let off : is_countdown m.mode ≡ false = ap is_countdown e in
      by_branch (LeadsTo m) _
        (λ due. enters m.prev_mode over (
          enters_by env utc_ms m over m.prev_mode (ground arith)
            (Act.end_message (control m) e (ground arith))))
        (λ other. stays m here)

  by_mode-Does :
      (md : Mode) (m : Manager) → (control m).mode ≡ md → LeadsTo m (by_mode env utc_ms md m)
  unfolding by_mode
  by_mode-Does Mode.clock m e = stays _ (shown env utc_ms m _ (tick_clock-control env utc_ms m))
  by_mode-Does Mode.message m e = message-Does m e
  by_mode-Does Mode.countdown m e = countdown-Does m (ap is_countdown e)

  render-Does : (m : Manager) → LeadsTo m (render_current env utc_ms m)
  unfolding render_current
  render-Does m =
      either_branch (LeadsTo m) _ (stays _ (shown env utc_ms m _ (tick_ramp-control env utc_ms m)))
        (by_mode-Does m.mode m (control-mode m))

  pub decisions-Respects : Respects env utc_ms (Acts env utc_ms)
  decisions-Respects = record {
    at_rest = λ c. here;
    compose = λ a b c p q. compose p q;
    on_hold = leave_hold-Does env utc_ms;
    on_resume = resume-Does env utc_ms;
    on_offscreen = offscreen-Does;
    on_render = render-Does;
  }

  -- Whatever the tick and the changes of mode inside it do, they decide a sequence of steps of `Act`.
  pub tick_locked-Acts :
      (fuel : ℕ) (m : Manager)
      → Holds (λ n. Acts env utc_ms (control m) (control n)) (tick_locked env utc_ms fuel m)
  tick_locked-Acts = tick_locked-From env utc_ms (Acts env utc_ms) decisions-Respects
