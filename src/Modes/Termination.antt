-- ===== src/Modes/Termination.antt =====
-- The tick of the mode manager and its change of mode call each other (components/modes/mode_manager.cpp):
-- how deep they go. A mode other than the message enters at most a calm one, and the message mode
-- gives way to one of those.
use lost_swan_firmware.Common.{
  either_branch, ℕ, suc, ◌≡◌, ◌≢◌, inl, inr, refl, sym, ◌∙◌, ap, subst, Bool, true, false, ◌&&◌,
  Option, some, Bool-cases,
}
use lost_swan_firmware.Modes.State.{Mode, CdPhase, CdPersist, Manager, Env, sched_tick}
use lost_swan_firmware.Modes.Run.{is_running, countdown_resume}
use lost_swan_firmware.Modes.Tick.{
  entering, render_current, and_then, then_enter, free_tick, resumes, wake, tick_with, tick_locked,
  tick,
}
use lost_swan_firmware.Modes.Control.{control, note_time-control}
use lost_swan_firmware.Modes.Course.{
  Kept, control-Kept, course, Leads, stays, enters, Wakes, Ends, offscreen-Leads,
  render_current-Leads, leave_hold-Kept, countdown_resume-Kept,
}
use lost_swan_firmware.Modes.Acts.{is_lively, IsLively}
use lost_swan_firmware.Modes.Ahead.{entering_ahead, entering-mode, entering-pending}
use lost_swan_firmware.Modes.Calm.{
  tick_with-Calm, Returns, returned, Anything, and_then-Returns, forget, then_enter-Returns,
  lively_not, is_fixed, running_fixed, CalmRun, Calm, Never, render-Calm, display-Returns,
}

module _ (env : Env) (utc_ms : ℕ) where
  -- No clock is waited for, and the message mode is not up.
  abbrev IsReady : Mode × Mode × Bool × ℕ → Type 0
  IsReady (mode, prev, pending, target) =
      (pending && env.time_valid ≡ false) × (mode ≢ Mode.message)

  abbrev Ready : Manager → Type 0
  Ready m = IsReady (course (control m))

  Kept-Ready : (m n : Manager) → Kept m n → Ready m → Ready n
  Kept-Ready m n e h = subst IsReady (sym e) h

  abbrev pub Calms : (Mode → Manager → Option Manager) → Type 0
  Calms enter =
      (md : Mode) (n : Manager)
      → Calm env utc_ms (entering env md n)
      → Returns (Calm env utc_ms) (enter md n)

  entering-Calm :
      (md : Mode) (n : Manager)
      → is_fixed (control n).cd.phase ≡ true
      → CalmRun env utc_ms (md, md, (control n).pending_resume, (control n).cd)
      → Calm env utc_ms (entering env md n)
  entering-Calm md n fixed h =
      let e = entering_ahead env utc_ms md n fixed in
      rw
        (
          entering-mode env utc_ms md n,
          ap (λ (w : Bool × CdPersist). w.0) e,
          ap (λ (w : Bool × CdPersist). w.1) e,
        )
        h

  pub enter_running :
      (m : Manager) (md : Mode) (n : Manager)
      → (control m).pending_resume && env.time_valid ≡ false
      → Wakes env utc_ms m md n
      → Calm env utc_ms (entering env md n)
  unfolding control
  enter_running m md n h (e, same, runs, ahead) =
      entering-Calm md n
        (subst (λ c. is_fixed c.cd.phase ≡ true) (sym same) (running_fixed m.cd.phase runs))
        (subst (λ c. CalmRun env utc_ms (md, md, c.pending_resume, c.cd)) (sym same)
          (h, inl (e, runs, ahead)))

  enter_over :
      (n : Manager)
      → (control n).pending_resume && env.time_valid ≡ false
      → n.cd.phase ≡ CdPhase.idle
      → Calm env utc_ms (entering env Mode.clock n)
  unfolding control
  enter_over n free idle =
      entering-Calm Mode.clock n (ap is_fixed idle) (free, inr (refl, ap is_running idle))

  -- What is left of a tick once the display is settled: a mode other than the message is rendered.
  render-Ready :
      (enter : Mode → Manager → Option Manager) (m : Manager)
      → Calms enter
      → Ready m
      → Returns Anything (then_enter enter (render_current env utc_ms m))
  unfolding control
  render-Ready enter m calms h =
      then_enter-Returns (Kept m) Anything (Ends env utc_ms m) enter _
        (render_current-Leads env utc_ms m) (λ n k. tt)
        (λ md n (k, why). elim why [
          | inl (e, q) ↦ absurd (h.1 e)
          | inr (e, q, idle) ↦ forget _ (
              calms md n (
                subst (λ d. Calm env utc_ms (entering env d n)) (sym q)
                  (enter_over n (Kept-Ready m n k h).0 idle)))
        ])

  abbrev Free : Manager → Type 0
  Free m = (control m).pending_resume && env.time_valid ≡ false

  Kept-Free : (m n : Manager) → Kept m n → Free m → Free n
  Kept-Free m n k h =
      subst (λ (c : Mode × Mode × Bool × ℕ). c.2 && env.time_valid ≡ false) (sym k) h

  render_current-Calm :
      (enter : Mode → Manager → Option Manager) (m : Manager)
      → Calm env utc_ms m
      → Returns Anything (then_enter enter (render_current env utc_ms m))
  render_current-Calm enter m h =
      then_enter-Returns (Calm env utc_ms) Anything (Never env utc_ms) enter _
        (render-Calm env utc_ms m h) (λ n k. tt) (λ md n k. absurd k)

  module _ (enter : Mode → Manager → Option Manager) (calms : Calms enter) where
    abbrev rest : Manager → Option Manager
    rest n =
        and_then (then_enter enter (render_current env utc_ms n))
          (λ o. some (sched_tick env utc_ms o))

    rest-Returns :
        (n : Manager)
        → Returns Anything (then_enter enter (render_current env utc_ms n))
        → Returns Anything (rest n)
    rest-Returns n h = display-Returns env utc_ms Anything (λ m o e k. tt) _ h

    after_offscreen :
        (m : Manager) (r : Manager × Option Mode)
        → Free m
        → ((n : Manager)
            → Kept m n
            → Returns Anything (then_enter enter (render_current env utc_ms n)))
        → Leads (Kept m) (Wakes env utc_ms m) r
        → Returns Anything (and_then (then_enter enter r) rest)
    after_offscreen m r h render (stays n k) = rest-Returns n (render n k)
    after_offscreen m r h render (enters md n w) =
        and_then-Returns (Calm env utc_ms) Anything (enter md n) rest
          (calms md n (enter_running m md n h w))
          (λ o c. rest-Returns o (render_current-Calm enter o c))

    -- A tick returns where the rendering of what is up does.
    free_tick-Returns :
        (m : Manager)
        → Free m
        → ((n : Manager)
            → Kept m n
            → Returns Anything (then_enter enter (render_current env utc_ms n)))
        → Returns Anything (free_tick env utc_ms enter m)
    unfolding free_tick
    free_tick-Returns m h render = after_offscreen m _ h render (offscreen-Leads env utc_ms m)

    tick_with-Returns :
        (m : Manager)
        → ((n : Manager) → Kept m n → Returns Anything (wake env utc_ms enter n))
        → Returns Anything (tick_with env utc_ms enter m)
    unfolding tick_with
    tick_with-Returns m go =
        either_branch (Returns Anything) _ (returned _ tt)
          (go _ (leave_hold-Kept env utc_ms _ ∙ control-Kept _ _ (note_time-control env utc_ms m)))

    pub wake-Free : (m : Manager) → Free m → wake env utc_ms enter m ≡ free_tick env utc_ms enter m
    unfolding wake control
    wake-Free m h = rw h refl

    tick_with-Ready : (m : Manager) → Ready m → Returns Anything (tick_with env utc_ms enter m)
    tick_with-Ready m h = tick_with-Returns m (λ n k.
        let ready = Kept-Ready m n k h in
        rw (wake-Free n ready.0) (
          free_tick-Returns n ready.0 (λ o j. render-Ready enter o calms (Kept-Ready n o j ready))))

  pub calm_once : (fuel : ℕ) → Calms (λ md n. tick_locked env utc_ms (suc fuel) (entering env md n))
  unfolding tick_locked
  calm_once fuel md n h = tick_with-Calm env utc_ms _ _ h

  tick_locked-Ready : (m : Manager) → Ready m → Returns Anything (tick_locked env utc_ms 2 m)
  unfolding tick_locked
  tick_locked-Ready m h = tick_with-Ready _ (calm_once 0) m h

  abbrev Readies : (Mode → Manager → Option Manager) → Type 0
  Readies enter =
      (md : Mode) (n : Manager) → Ready (entering env md n) → Returns Anything (enter md n)

  entering-Ready :
      (md : Mode) (n : Manager) → Free n → md ≢ Mode.message → Ready (entering env md n)
  entering-Ready md n h other = (
    ap (λ b. b && env.time_valid) (entering-pending env utc_ms md n) ∙ h,
    λ e. other (sym (entering-mode env utc_ms md n) ∙ e),
  )

  Kept-IsLively : (m n : Manager) → Kept m n → IsLively (control m) → IsLively (control n)
  Kept-IsLively m n k h = subst (λ (c : Mode × Mode × Bool × ℕ). is_lively c.0 c.1 ≡ true) (sym k) h

  render_lively :
      (enter : Mode → Manager → Option Manager) (m : Manager)
      → Calms enter
      → Readies enter
      → Free m
      → IsLively (control m)
      → Returns Anything (then_enter enter (render_current env utc_ms m))
  unfolding control
  render_lively enter m calms readies free h =
      then_enter-Returns (Kept m) Anything (Ends env utc_ms m) enter _
        (render_current-Leads env utc_ms m) (λ n k. tt)
        (λ md n (k, why). elim why [
          | inl (e, q) ↦ readies md n (
              entering-Ready md n (Kept-Free m n k free)
                (λ same. lively_not _ _ h e (sym q ∙ same)))
          | inr (e, q, idle) ↦ forget _ (
              calms md n (
                subst (λ d. Calm env utc_ms (entering env d n)) (sym q)
                  (enter_over n (Kept-Free m n k free) idle)))
        ])

  wake_lively :
      (enter : Mode → Manager → Option Manager) (m : Manager)
      → Calms enter
      → Readies enter
      → IsLively (control m)
      → Returns Anything (wake env utc_ms enter m)
  unfolding wake control
  wake_lively enter m calms readies h =
      let awake = record m { pending_resume = false } in
      elim (Bool-cases (resumes env utc_ms m)) [
        | inl waits ↦ rw waits (
            readies Mode.countdown (countdown_resume env utc_ms awake) (
              entering-Ready Mode.countdown (countdown_resume env utc_ms awake)
                (Kept-Free awake (countdown_resume env utc_ms awake)
                  (countdown_resume-Kept env utc_ms awake) refl)
                (λ e. cc e)))
        | inr free ↦ rw free (
            free_tick-Returns enter calms m free (λ n k.
              render_lively enter n calms readies (Kept-Free m n k free) (Kept-IsLively m n k h)))
      ]

  pub lively_thrice : (m : Manager) → IsLively (control m) → Returns Anything (tick env utc_ms m)
  unfolding tick_locked
  lively_thrice m h = tick_with-Returns _ (calm_once 1) m (λ n k.
      wake_lively _ n (calm_once 1) (λ md o. tick_locked-Ready (entering env md o))
        (Kept-IsLively m n k h))
