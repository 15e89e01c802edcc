-- ===== src/Modes/Ahead.antt =====
-- While a countdown is running and its deadline is ahead, no part of a tick of the mode manager
-- changes the run (components/modes/mode_manager.cpp).
use lost_swan_firmware.Common.{
  either_branch, ℕ, ◌*◌, ◌<◌, ◌≡◌, refl, sym, ◌∙◌, ap, subst, Bool, true, false, ◌||◌, ltb, arith,
  Option, none, some,
}
use lost_swan_firmware.Modes.State.{
  Mode, CdPersist, Kind, Manager, Env, emit, persist, note_locked, codes,
}
use lost_swan_firmware.Modes.Run.{
  is_idle, is_running, target_ms, warn4, warn1, tick_countdown_offscreen, offscreen_zero,
}
use lost_swan_firmware.Modes.Face.{
  zero_moment, running_tick, after_cues, tick_countdown, tick_message, running_face,
}
use lost_swan_firmware.Modes.Tick.{
  leave_countdown, change_mode, noted_change, entering, passed, wake_silently, leave_hold,
  offscreen, by_mode, render_current,
}
use lost_swan_firmware.Modes.Control.{
  Control, control, tick_clock-control, running_face-control, tick_ramp-control,
}
use lost_swan_firmware.Modes.Course.{Leads, stays, enters}

-- The mode, the wait for the clock and the whole record of the run.
abbrev pub run : Control → Mode × Mode × Bool × CdPersist
run c = (c.mode, c.prev_mode, c.pending_resume, c.cd)

abbrev pub Steady : Manager → Manager → Type 0
Steady m n = run (control n) ≡ run (control m)

pub control-Steady : (m n : Manager) → control n ≡ control m → Steady m n
control-Steady m n e = ap run e

note_locked-Steady :
    (env : Env) (k : Kind) (d : _) (s : ℕ) (by : _) (m : Manager)
    → Steady m (note_locked env k d s by m)
unfolding note_locked emit control
note_locked-Steady env k d s by m = either_branch (Steady m) _ refl refl

module _ (env : Env) (utc_ms : ℕ) where
  abbrev pub IsAhead : Control → Type 0
  IsAhead c = (is_running c.cd.phase ≡ true) × (utc_ms < c.cd.target_utc * 1000)

  warn4-Steady : (m : Manager) → Steady m (warn4 utc_ms m)
  unfolding warn4 emit control
  warn4-Steady m = either_branch (Steady m) _ refl refl

  warn1-Steady : (m : Manager) → Steady m (warn1 utc_ms m)
  unfolding warn1 emit control
  warn1-Steady m = either_branch (Steady m) _ refl refl

  cues-Steady : (m : Manager) → Steady m (warn1 utc_ms (warn4 utc_ms m))
  cues-Steady m = warn1-Steady _ ∙ warn4-Steady m

  pub IsAhead-Steady : (m n : Manager) → Steady m n → IsAhead (control m) → IsAhead (control n)
  IsAhead-Steady m n e h =
      subst
        (λ (r : Mode × Mode × Bool × CdPersist).
          (is_running r.3.phase ≡ true) × (utc_ms < r.3.target_utc * 1000))
        (sym e) h

  zero_ahead : (m : Manager) → IsAhead (control m) → zero_moment env utc_ms m ≡ m
  unfolding zero_moment control
  zero_ahead m h = ground arith

  running_tick-Steady : (m : Manager) → IsAhead (control m) → Steady m (running_tick env utc_ms m)
  unfolding running_tick
  running_tick-Steady m h =
      ap (λ n. run (control n)) (zero_ahead _ (IsAhead-Steady m _ (cues-Steady m) h))
      ∙ cues-Steady m

  after_cues_ahead :
      (m : Manager)
      → IsAhead (control m)
      → after_cues env utc_ms m ≡ (running_face env utc_ms m, none)
  unfolding after_cues control
  after_cues_ahead m h = rw (h.0) refl

  countdown_start :
      (m : Manager)
      → IsAhead (control m)
      → tick_countdown env utc_ms m ≡ after_cues env utc_ms (running_tick env utc_ms m)
  unfolding tick_countdown control
  countdown_start m h =
      let not_idle : is_idle m.cd.phase ≡ false = ground arith in rw (not_idle, h.0) refl

  pub countdown_ahead :
      (m : Manager)
      → IsAhead (control m)
      → (n : Manager) × (tick_countdown env utc_ms m ≡ (n, none)) × Steady m n
  countdown_ahead m h =
      let ticked : Steady m (running_tick env utc_ms m) = running_tick-Steady m h in
      (
        running_face env utc_ms (running_tick env utc_ms m),
        countdown_start m h ∙ after_cues_ahead _ (IsAhead-Steady m _ ticked h),
        control-Steady _ _ (running_face-control env utc_ms _) ∙ ticked,
      )

  passed_ahead : (m : Manager) → IsAhead (control m) → passed env utc_ms m ≡ false
  unfolding control
  passed_ahead m h = ground arith

  wake_silently_ahead : (m : Manager) → IsAhead (control m) → wake_silently env utc_ms m ≡ m
  unfolding wake_silently
  wake_silently_ahead m h = rw (passed_ahead m h) refl

  pub leave_hold_ahead :
      (m : Manager) → IsAhead (control m) → control (leave_hold env utc_ms m) ≡ control m
  unfolding leave_hold control
  leave_hold_ahead m h =
      either_branch (λ n. control n ≡ control m) _
        (ap control (wake_silently_ahead (record m { held = false }) h)) refl

  -- A part of a tick stays steady, or ends by entering a mode from a state that is.
  abbrev pub SteadyLeads : Manager → Manager × Option Mode → Type 0
  SteadyLeads m = Leads (Steady m) (λ md n. Steady m n)

  offscreen_zero_ahead : (m : Manager) → IsAhead (control m) → offscreen_zero env utc_ms m ≡ m
  unfolding offscreen_zero control
  offscreen_zero_ahead m h =
      let ahead : ltb utc_ms (target_ms m) ≡ true = ground arith in rw ahead refl

  offscreen_cues-Steady :
      (m : Manager)
      → IsAhead (control m)
      → Steady m (offscreen_zero env utc_ms (warn1 utc_ms (warn4 utc_ms m)))
  offscreen_cues-Steady m h =
      ap (λ n. run (control n)) (offscreen_zero_ahead _ (IsAhead-Steady m _ (cues-Steady m) h))
      ∙ cues-Steady m

  offscreen_running :
      (m : Manager) → IsAhead (control m) → SteadyLeads m (tick_countdown_offscreen env utc_ms m)
  unfolding tick_countdown_offscreen control
  offscreen_running m h =
      let noted = record m { mode_note = some (codes "countdown (auto, 4:00)") } in
      either_branch (SteadyLeads m) _ (stays m refl) (
        either_branch (SteadyLeads m) _ (enters Mode.countdown noted refl) (
          stays (offscreen_zero env utc_ms (warn1 utc_ms (warn4 utc_ms m)))
            (offscreen_cues-Steady m h)))

  pub offscreen_ahead : (m : Manager) → IsAhead (control m) → SteadyLeads m (offscreen env utc_ms m)
  unfolding offscreen
  offscreen_ahead m h = either_branch (SteadyLeads m) _ (stays m refl) (offscreen_running m h)

  message-Steady : (m : Manager) → SteadyLeads m (tick_message utc_ms m)
  unfolding tick_message control
  message-Steady m =
      let over = record m { msg = record (m.msg) { msg_live = false } } in
      either_branch (SteadyLeads m) _ (enters m.prev_mode over refl) (stays m refl)

  by_mode_ahead :
      (md : Mode) (m : Manager) → IsAhead (control m) → SteadyLeads m (by_mode env utc_ms md m)
  unfolding by_mode
  by_mode_ahead Mode.clock m h = stays _ (control-Steady _ _ (tick_clock-control env utc_ms m))
  by_mode_ahead Mode.message m h = message-Steady m
  by_mode_ahead Mode.countdown m h = let (n, e, k) = countdown_ahead m h in rw e (stays n k)

  pub render_ahead :
      (m : Manager) → IsAhead (control m) → SteadyLeads m (render_current env utc_ms m)
  unfolding render_current
  render_ahead m h =
      either_branch (SteadyLeads m) _
        (stays _ (control-Steady _ _ (tick_ramp-control env utc_ms m))) (by_mode_ahead m.mode m h)

  -- What a change of mode leaves alone.
  abbrev pub waiting : Control → Bool × CdPersist
  waiting c = (c.pending_resume, c.cd)

  abbrev pub Idem : Manager → Manager → Type 0
  Idem m n = waiting (control n) ≡ waiting (control m)

  note_Idem :
      (k : Kind) (d : _) (s : ℕ) (by : _) (m : Manager) → Idem m (note_locked env k d s by m)
  unfolding note_locked emit control
  note_Idem k d s by m = either_branch (Idem m) _ refl refl

  noted_change-Idem :
      (md : Mode) (why : Option _) (m : Manager) → Idem m (noted_change env md why m)
  noted_change-Idem md none m = note_Idem _ _ _ _ m
  noted_change-Idem md (some why) m = note_Idem _ _ _ _ m

  pub change_mode-Idem : (md : Mode) (m : Manager) → Idem m (change_mode env md m)
  unfolding change_mode control
  change_mode-Idem md m =
      either_branch (Idem m) _ refl
        (noted_change-Idem md m.mode_note (record m { prev_mode = m.mode }))

  leave_countdown_ahead :
      (md : Mode) (m : Manager)
      → is_idle (control m).cd.phase || is_running (control m).cd.phase ≡ true
      → leave_countdown md m ≡ m
  unfolding leave_countdown control
  leave_countdown_ahead md m h = ground arith

  pub entering-mode : (md : Mode) (m : Manager) → (control (entering env md m)).mode ≡ md
  unfolding entering control
  entering-mode md m = refl

  -- Entering a mode keeps a run that is idle or running, and its wait for the clock.
  pub entering_ahead :
      (md : Mode) (m : Manager)
      → is_idle (control m).cd.phase || is_running (control m).cd.phase ≡ true
      → Idem m (entering env md m)
  unfolding entering control
  entering_ahead md m h =
      change_mode-Idem md _ ∙ ap (λ n. waiting (control n)) (leave_countdown_ahead md m h)

  leave_countdown-pending :
      (md : Mode) (m : Manager) → (leave_countdown md m).pending_resume ≡ m.pending_resume
  unfolding leave_countdown persist emit
  leave_countdown-pending md m = ground arith

  pub entering-pending :
      (md : Mode) (m : Manager)
      → (control (entering env md m)).pending_resume ≡ (control m).pending_resume
  unfolding entering control
  entering-pending md m =
      ap (λ w. w.0) (change_mode-Idem md (leave_countdown md m)) ∙ leave_countdown-pending md m
