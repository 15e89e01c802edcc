-- ===== src/Modes/Course.antt =====
-- Where a tick of the mode manager goes (components/modes/mode_manager.cpp): which operations keep the
-- mode, and which mode is entered next.
use lost_swan_firmware.Common.{
  either_branch, ℕ, ◌+◌, ◌*◌, ◌<◌, ◌≡◌, ◌⊎◌, inl, inr, refl, ◌∙◌, ap, Bool, true, false, ◌&&◌, ltb,
  leb, arith, Option, none, some, Bool-cases,
}
use lost_swan_firmware.Modes.State.{
  Mode, CdPhase, Manager, Env, Kind, Origin, emit, persist, note_locked, sched_spin_all,
}
use lost_swan_firmware.Modes.Run.{
  is_running, target_ms, wake_s, set_phase, note_zero, note_ended, sound_offscreen,
  enter_reveal_silently, aim, countdown_resume, warn4, warn1, sound_zero, offscreen_zero,
  tick_countdown_offscreen,
}
use lost_swan_firmware.Modes.Face.{
  zero_moment, spin_once, start_spin, end_spin, end_reveal, reveal_phase, zero_choreography,
  running_tick, after_cues, tick_countdown, tick_message, show_reveal, announce_reveal,
}
use lost_swan_firmware.Modes.Tick.{wake_silently, leave_hold, offscreen, by_mode, render_current}
use lost_swan_firmware.Modes.Control.{
  Control, control, tick_clock-control, running_face-control, idle_face-control, zero_face-control,
  show_reveal-control, announce_reveal-control, tick_ramp-control,
}

abbrev pub course : Control → Mode × Mode × Bool × ℕ
course c = (c.mode, c.prev_mode, c.pending_resume, c.cd.target_utc)

-- The mode, the one before it, the deadline and the wait for the clock are those of `m`.
abbrev pub Kept : Manager → Manager → Type 0
Kept m n = course (control n) ≡ course (control m)

pub control-Kept : (m n : Manager) → control n ≡ control m → Kept m n
control-Kept m n e = ap course e

-- What holds of a part of a tick: `P` where it stays, `Q` where it ends by entering a mode.
pub data Leads (P : Manager → Type 0) (Q : Mode → Manager → Type 0)
    : Manager × Option Mode → Type 0 where
  stays : (n : Manager) → P n → Leads P Q (n, none)
  enters : (md : Mode) (n : Manager) → Q md n → Leads P Q (n, some md)

note_locked-Kept :
    (env : Env) (k : Kind) (d : _) (s : ℕ) (by : Origin) (m : Manager)
    → Kept m (note_locked env k d s by m)
unfolding note_locked emit control
note_locked-Kept env k d s by m = either_branch (Kept m) _ refl refl

note_zero-Kept : (env : Env) (m : Manager) → Kept m (note_zero env m)
unfolding note_zero
note_zero-Kept env m = note_locked-Kept env _ _ _ _ m

note_ended-Kept : (env : Env) (m : Manager) → Kept m (note_ended env m)
unfolding note_ended control
note_ended-Kept env m = either_branch (Kept m) _ (note_zero-Kept env m) refl

pub silently-Kept : (env : Env) (m : Manager) → Kept m (enter_reveal_silently env m)
unfolding enter_reveal_silently control
silently-Kept env m = note_ended-Kept env m

module _ (env : Env) (utc_ms : ℕ) where
  warn4-Kept : (m : Manager) → Kept m (warn4 utc_ms m)
  unfolding warn4 emit control
  warn4-Kept m = either_branch (Kept m) _ refl refl

  warn1-Kept : (m : Manager) → Kept m (warn1 utc_ms m)
  unfolding warn1 emit control
  warn1-Kept m = either_branch (Kept m) _ refl refl

  pub sound_zero-Kept : (m : Manager) → Kept m (sound_zero m)
  unfolding sound_zero emit control
  sound_zero-Kept m = either_branch (Kept m) _ refl refl

  zero_moment-Kept : (m : Manager) → Kept m (zero_moment env utc_ms m)
  unfolding zero_moment persist emit control
  zero_moment-Kept m = either_branch (Kept m) _ (note_zero-Kept env _) refl

  spin_once-Kept : (m : Manager) → Kept m (spin_once env utc_ms m)
  unfolding spin_once sched_spin_all emit control
  spin_once-Kept m = either_branch (Kept m) _ refl refl

  pub start_spin-Kept : (m : Manager) → Kept m (start_spin env utc_ms m)
  unfolding start_spin control
  start_spin-Kept m = either_branch (Kept m) _ (spin_once-Kept (set_phase CdPhase.spin m)) refl

  pub end_spin-Kept : (m : Manager) → Kept m (end_spin env utc_ms m)
  unfolding end_spin persist emit control
  end_spin-Kept m = either_branch (Kept m) _ refl refl

  sound_offscreen-Kept : (m : Manager) → Kept m (sound_offscreen env m)
  unfolding sound_offscreen
  sound_offscreen-Kept m = either_branch (Kept m) _ (note_zero-Kept env _ ∙ sound_zero-Kept m) refl

  offscreen_zero-Kept : (m : Manager) → Kept m (offscreen_zero env utc_ms m)
  unfolding offscreen_zero persist emit control
  offscreen_zero-Kept m = either_branch (Kept m) _ refl (sound_offscreen-Kept m)

  pub aim-Kept : (m : Manager) → Kept m (aim env utc_ms m)
  unfolding aim control
  aim-Kept m = either_branch (Kept m) _ refl (silently-Kept env m)

  pub countdown_resume-Kept : (m : Manager) → Kept m (countdown_resume env utc_ms m)
  unfolding countdown_resume control
  countdown_resume-Kept m = aim-Kept _

  wake_silently-Kept : (m : Manager) → Kept m (wake_silently env utc_ms m)
  unfolding wake_silently persist emit control
  wake_silently-Kept m = either_branch (Kept m) _ (silently-Kept env m) refl

  pub leave_hold-Kept : (m : Manager) → Kept m (leave_hold env utc_ms m)
  unfolding leave_hold control
  leave_hold-Kept m = either_branch (Kept m) _ (wake_silently-Kept _) refl

  -- The clock of the run wakes the display only while the deadline is ahead.
  abbrev pub Wakes : Manager → Mode → Manager → Type 0
  Wakes m md n =
      (md ≡ Mode.countdown)
      × (control n ≡ record (control m) { mode_note = (control n).mode_note })
      × (is_running m.cd.phase ≡ true)
      × (utc_ms < target_ms m)

  abbrev wakes : Manager → Bool
  wakes m =
      env.time_valid && ltb utc_ms (target_ms m) && leb (target_ms m) (utc_ms + wake_s m * 1000)

  wakes-lt : (m : Manager) → wakes m ≡ true → utc_ms < target_ms m
  wakes-lt m h = ground arith

  offscreen_running :
      (m : Manager) → Leads (Kept m) (Wakes m) (tick_countdown_offscreen env utc_ms m)
  unfolding tick_countdown_offscreen control
  offscreen_running m = elim (Bool-cases (is_running m.cd.phase)) [
    | inl run ↦ elim (Bool-cases (wakes m)) [
      | inl w ↦ rw (run, w) (enters _ _ (refl, refl, run, wakes-lt m w))
      | inr w ↦ rw (run, w) (stays _ (offscreen_zero-Kept _ ∙ warn1-Kept _ ∙ warn4-Kept m))
    ]
    | inr over ↦ rw over (stays m refl)
  ]

  pub offscreen-Leads : (m : Manager) → Leads (Kept m) (Wakes m) (offscreen env utc_ms m)
  unfolding offscreen
  offscreen-Leads m =
      either_branch (Leads (Kept m) (Wakes m)) _ (stays m refl) (offscreen_running m)

  -- What the rendering of a mode may enter: a message that is over gives way to the mode before it, a
  -- reveal that is over to the clock.
  abbrev pub Ends : Manager → Mode → Manager → Type 0
  Ends m md n =
      Kept m n
      × (((m.mode ≡ Mode.message) × (md ≡ m.prev_mode))
          ⊎ ((m.mode ≡ Mode.countdown) × (md ≡ Mode.clock) × (n.cd.phase ≡ CdPhase.idle)))

  tick_message-Leads :
      (m : Manager) → m.mode ≡ Mode.message → Leads (Kept m) (Ends m) (tick_message utc_ms m)
  unfolding tick_message control
  tick_message-Leads m e =
      either_branch (Leads (Kept m) (Ends m)) _
        (enters _ (record m { msg = record (m.msg) { msg_live = false } }) (refl, inl (e, refl)))
        (stays m refl)

  pub running_tick-Kept : (m : Manager) → Kept m (running_tick env utc_ms m)
  unfolding running_tick
  running_tick-Kept m = zero_moment-Kept _ ∙ warn1-Kept _ ∙ warn4-Kept m

  -- From here on the first manager is the one at the start of the tick.
  module _ (m : Manager) (e : m.mode ≡ Mode.countdown) where
    end_reveal-Leads : (n : Manager) → Kept m n → Leads (Kept m) (Ends m) (end_reveal utc_ms n)
    unfolding end_reveal persist emit control
    end_reveal-Leads n k =
        either_branch (Leads (Kept m) (Ends m)) _
          (enters _ (persist (set_phase CdPhase.idle n)) (k, inr (e, refl, refl))) (stays n k)

    reveal_phase-Leads :
        (n : Manager) → Kept m n → Leads (Kept m) (Ends m) (reveal_phase env utc_ms n)
    unfolding reveal_phase
    reveal_phase-Leads n k =
        let shown : Kept n (announce_reveal env (show_reveal env utc_ms n)) =
          control-Kept _ _
            (announce_reveal-control env utc_ms _ ∙ show_reveal-control env utc_ms n) in
        either_branch (Leads (Kept m) (Ends m)) _ (end_reveal-Leads _ (shown ∙ k)) (stays n k)

    zero_choreography-Leads :
        (n : Manager) → Kept m n → Leads (Kept m) (Ends m) (zero_choreography env utc_ms n)
    unfolding zero_choreography
    zero_choreography-Leads n k = reveal_phase-Leads _ (
        end_spin-Kept _
        ∙ start_spin-Kept _
        ∙ control-Kept _ _ (zero_face-control env utc_ms _)
        ∙ sound_zero-Kept n
        ∙ k)

    after_cues-Leads : (n : Manager) → Kept m n → Leads (Kept m) (Ends m) (after_cues env utc_ms n)
    unfolding after_cues
    after_cues-Leads n k =
        either_branch (Leads (Kept m) (Ends m)) _
          (stays _ (control-Kept _ _ (running_face-control env utc_ms n) ∙ k))
          (zero_choreography-Leads n k)

    tick_countdown-Leads : Leads (Kept m) (Ends m) (tick_countdown env utc_ms m)
    unfolding tick_countdown
    tick_countdown-Leads =
        either_branch (Leads (Kept m) (Ends m)) _
          (stays _ (control-Kept _ _ (idle_face-control env utc_ms m)))
          (after_cues-Leads _ (either_branch (Kept m) _ (running_tick-Kept m) refl))

  by_mode-Leads :
      (md : Mode) (m : Manager) → m.mode ≡ md → Leads (Kept m) (Ends m) (by_mode env utc_ms md m)
  unfolding by_mode
  by_mode-Leads Mode.clock m e = stays _ (control-Kept _ _ (tick_clock-control env utc_ms m))
  by_mode-Leads Mode.message m e = tick_message-Leads m e
  by_mode-Leads Mode.countdown m e = tick_countdown-Leads m e

  pub render_current-Leads : (m : Manager) → Leads (Kept m) (Ends m) (render_current env utc_ms m)
  unfolding render_current
  render_current-Leads m =
      either_branch (Leads (Kept m) (Ends m)) _
        (stays _ (control-Kept _ _ (tick_ramp-control env utc_ms m))) (by_mode-Leads m.mode m refl)
