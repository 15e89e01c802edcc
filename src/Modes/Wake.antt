-- ===== src/Modes/Wake.antt =====
-- The display takes itself back for the end of a countdown (components/modes/mode_manager.cpp,
-- `tick_countdown_offscreen`).
use lost_swan_firmware.Common.{
  ℕ, suc, if◌then◌else◌, ◌+◌, ◌*◌, ◌≤◌, ◌<◌, ◌≡◌, inl, inr, refl, sym, ap, subst, true, false, ◌&&◌,
  ltb, leb, arith, Option, some,
}
use lost_swan_firmware.Modes.State.{Mode, Manager, Env, codes}
use lost_swan_firmware.Modes.Run.{is_running, target_ms, wake_s, tick_countdown_offscreen}
use lost_swan_firmware.Modes.Tick.{
  is_countdown, is_held, entering, leave_hold, offscreen, note_time, handle_time_step, free_tick,
  tick_with, tick_locked, tick,
}
use lost_swan_firmware.Modes.Control.{Control, control, note_time-control}
use lost_swan_firmware.Modes.Course.{Wakes}
use lost_swan_firmware.Modes.Ahead.{leave_hold_ahead}
use lost_swan_firmware.Modes.Calm.{
  Returns, returned, Calm, and_then-Returns, then_enter-Returns, display-Returns, control-Calm,
  Never, render-Calm,
}
use lost_swan_firmware.Modes.Termination.{wake-Free, calm_once, enter_running}
use lost_swan_firmware.Modes.Induction.{Holds}
use lost_swan_firmware.Modes.Refinement.{tick_locked-Acts}
use lost_swan_firmware.Modes.Invariants.{Acts-IsPending}
use lost_swan_firmware.Modes.Runs.{Returns-map}

module _ (env : Env) (utc_ms : ℕ) where
  -- Where the display wakes: at the live window, or at one minute where there is none.
  abbrev pub wake_of : Control → ℕ
  wake_of c = if ltb 0 c.cfg.seconds_live_s then c.cfg.seconds_live_s else 60

  -- A run off the display whose end is near, with the time known and nothing that waits.
  abbrev pub IsDue : Control → Type 0
  IsDue c =
      (c.pending_resume ≡ false)
      × (env.time_valid ≡ true)
      × (is_countdown c.mode ≡ false)
      × (is_running c.cd.phase ≡ true)
      × (utc_ms < c.cd.target_utc * 1000)
      × (c.cd.target_utc * 1000 ≤ utc_ms + wake_of c * 1000)

  abbrev announced : Manager → Manager
  announced m = record m { mode_note = some (codes "countdown (auto, 4:00)") }

  offscreen_due :
      (m : Manager)
      → IsDue (control m)
      → offscreen env utc_ms m ≡ (announced m, some Mode.countdown)
  unfolding offscreen tick_countdown_offscreen wake_s control
  offscreen_due m (free, valid, off, run, ahead, near) =
      let wakes : env.time_valid
            && ltb utc_ms (target_ms m)
            && leb (target_ms m) (utc_ms + wake_s m * 1000)
          ≡ true =
        ground arith in
      rw (off, run, wakes) refl

  IsDue-Wakes : (m : Manager) → IsDue (control m) → Wakes env utc_ms m Mode.countdown (announced m)
  unfolding control
  IsDue-Wakes m (free, valid, off, run, ahead, near) = (refl, refl, run, ahead)

  abbrev enters_within : ℕ → Mode → Manager → Option Manager
  enters_within fuel md n = tick_locked env utc_ms (suc fuel) (entering env md n)

  free_tick_due :
      (fuel : ℕ) (m : Manager)
      → IsDue (control m)
      → Returns (Calm env utc_ms) (free_tick env utc_ms (enters_within fuel) m)
  unfolding free_tick
  free_tick_due fuel m due = rw (offscreen_due m due) (
      and_then-Returns (Calm env utc_ms) (Calm env utc_ms) _ _
        (calm_once env utc_ms fuel Mode.countdown (announced m) (
          enter_running env utc_ms m Mode.countdown (announced m)
            (ap (λ b. b && env.time_valid) due.0) (IsDue-Wakes m due)))
        (λ n calm. display-Returns env utc_ms (Calm env utc_ms) (control-Calm env utc_ms) _ (
          then_enter-Returns (Calm env utc_ms) (Calm env utc_ms) (Never env utc_ms)
            (enters_within fuel) _ (render-Calm env utc_ms n calm) (λ o k. k)
            (λ md o k. absurd k))))

  noted_held : (m : Manager) → is_held m ≡ false → is_held (note_time utc_ms m) ≡ false
  unfolding note_time handle_time_step
  noted_held m h = ground arith

  tick_with_due :
      (fuel : ℕ) (m : Manager)
      → is_held m ≡ false
      → IsDue (control m)
      → Returns (Calm env utc_ms) (tick_with env utc_ms (enters_within fuel) m)
  unfolding tick_with
  tick_with_due fuel m free due =
      let noted = note_time utc_ms m in
      let soon : IsDue (control noted) = subst IsDue (sym (note_time-control env utc_ms m)) due in
      let left = leave_hold env utc_ms noted in
      let still : IsDue (control left) =
        subst IsDue (sym (leave_hold_ahead env utc_ms noted (soon.3, soon.4))) soon in
      rw (noted_held m free) (
        rw
          (wake-Free env utc_ms (enters_within fuel) (calm_once env utc_ms fuel) left
            (ap (λ b. b && env.time_valid) still.0))
          (free_tick_due fuel left still))

  tick_due :
      (m : Manager)
      → is_held m ≡ false
      → IsDue (control m)
      → Returns (Calm env utc_ms) (tick env utc_ms m)
  unfolding tick_locked
  tick_due m free due = tick_with_due 1 m free due

  both :
      {P Q : Manager → Type 0} (o : Option Manager)
      → Returns P o
      → Holds Q o
      → Returns (λ n. P n × Q n) o
  both o (returned n h) k = returned n (h, k)

  Calm-mode :
      (n : Manager)
      → Calm env utc_ms n
      → is_running (control n).cd.phase ≡ true
      → (control n).mode ≡ Mode.countdown
  Calm-mode n (free, inl (e, h, t)) run = e
  Calm-mode n (free, inr (e, over)) run = absurd (cc (run, over))

  -- With the time known, a run whose end is ahead, by at most the live window, or by 60 seconds
  -- where that window is zero, takes the display back at the next tick and stands unchanged, if the
  -- clock or the message is up, nothing holds the display and no stored run waits for the clock.
  pub tick_takes_display :
      (m : Manager)
      → is_held m ≡ false
      → IsDue (control m)
      → Returns
          (λ n. ((control n).mode ≡ Mode.countdown) × ((control n).cd ≡ (control m).cd))
          (tick env utc_ms m)
  tick_takes_display m free due =
      Returns-map _
        (λ n (calm, acts).
          let (still, same) = Acts-IsPending acts (due.0, due.3, due.4) in
          (Calm-mode n calm still.1, same))
        (both _ (tick_due m free due) (tick_locked-Acts env utc_ms 3 m))
