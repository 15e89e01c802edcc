-- ===== src/Modes/Calm.antt =====
-- A calm manager (components/modes/mode_manager.cpp): a countdown that runs towards its deadline is
-- on the display, or the clock with no countdown running. Its tick enters no mode and returns.
use lost_swan_firmware.Common.{
  either_branch, ℕ, ◌*◌, ◌<◌, ◌≡◌, ◌⊎◌, inl, inr, refl, sym, ap, subst, Bool, true, false, ◌&&◌,
  ◌||◌, arith, Option, none, some,
}
use lost_swan_firmware.Modes.State.{Mode, CdPhase, CdPersist, Manager, Env, sched_tick}
use lost_swan_firmware.Modes.Run.{is_idle, is_running, tick_countdown_offscreen}
use lost_swan_firmware.Modes.Tick.{
  is_countdown, leave_hold, wake_silently, offscreen, by_mode, render_current, note_time, and_then,
  then_enter, free_tick, wake, tick_with,
}
use lost_swan_firmware.Modes.Control.{
  control, control-mode, note_time-control, held_tick-control, sched_tick-control,
  tick_clock-control, tick_ramp-control,
}
use lost_swan_firmware.Modes.Course.{Leads, stays, enters}
use lost_swan_firmware.Modes.Acts.{is_lively}
use lost_swan_firmware.Modes.Ahead.{Steady, run, countdown_ahead, leave_hold_ahead}

-- The call returned, with a manager of which `P` holds.
pub data Returns (P : Manager → Type 0) : Option Manager → Type 0 where
  returned : (m : Manager) → P m → Returns P (some m)

abbrev pub Anything : Manager → Type 0
Anything m = Unit

pub and_then-Returns :
    (P Q : Manager → Type 0) (o : Option Manager) (k : Manager → Option Manager)
    → Returns P o
    → ((m : Manager) → P m → Returns Q (k m))
    → Returns Q (and_then o k)
and_then-Returns P Q o k (returned m h) step = step m h

pub forget : {P : Manager → Type 0} (o : Option Manager) → Returns P o → Returns Anything o
forget o (returned m h) = returned m tt

pub then_enter-Returns :
    (P R : Manager → Type 0) (Q : Mode → Manager → Type 0) (enter : Mode → Manager → Option Manager)
    (r : Manager × Option Mode)
    → Leads P Q r
    → ((n : Manager) → P n → R n)
    → ((md : Mode) (n : Manager) → Q md n → Returns R (enter md n))
    → Returns R (then_enter enter r)
then_enter-Returns P R Q enter r (stays n h) keep go = returned n (keep n h)
then_enter-Returns P R Q enter r (enters md n h) keep go = go md n h

pub lively_not : (a b : Mode) → is_lively a b ≡ true → a ≡ Mode.message → b ≡ Mode.message → ⊥
lively_not a b h e k = ground arith

abbrev pub is_fixed : CdPhase → Bool
is_fixed p = is_idle p || is_running p

pub running_fixed : (p : CdPhase) → is_running p ≡ true → is_fixed p ≡ true
running_fixed p h = ground arith

module _ (env : Env) (utc_ms : ℕ) where
  -- A countdown that runs towards its deadline, or a clock with no countdown running; nothing waits.
  abbrev pub CalmRun : Mode × Mode × Bool × CdPersist → Type 0
  CalmRun (mode, prev, pending, cd) =
      (pending && env.time_valid ≡ false)
      × (((mode ≡ Mode.countdown) × (is_running cd.phase ≡ true) × (utc_ms < cd.target_utc * 1000))
          ⊎ ((mode ≡ Mode.clock) × (is_running cd.phase ≡ false)))

  abbrev pub Calm : Manager → Type 0
  Calm m = CalmRun (run (control m))

  Calm-Steady : (m n : Manager) → Steady m n → Calm m → Calm n
  Calm-Steady m n e h = subst CalmRun (sym e) h

  pub control-Calm : (m n : Manager) → control n ≡ control m → Calm m → Calm n
  control-Calm m n e h = Calm-Steady m n (ap run e) h

  wake_silently_over :
      (m : Manager) → is_running m.cd.phase ≡ false → wake_silently env utc_ms m ≡ m
  unfolding wake_silently
  wake_silently_over m h = rw h refl

  pub leave_hold_over :
      (m : Manager)
      → is_running (control m).cd.phase ≡ false
      → control (leave_hold env utc_ms m) ≡ control m
  unfolding leave_hold control
  leave_hold_over m h =
      either_branch (λ n. control n ≡ control m) _
        (ap control (wake_silently_over (record m { held = false }) h)) refl

  leave_hold-Calm : (m : Manager) → Calm m → Calm (leave_hold env utc_ms m)
  leave_hold-Calm m (free, inl (e, h, t)) =
      control-Calm m _ (leave_hold_ahead env utc_ms m (h, t)) (free, inl (e, h, t))
  leave_hold-Calm m (free, inr (e, h)) = control-Calm m _ (leave_hold_over m h) (free, inr (e, h))

  offscreen-Calm : (m : Manager) → Calm m → offscreen env utc_ms m ≡ (m, none)
  unfolding offscreen tick_countdown_offscreen control
  offscreen-Calm m (free, inl (e, h, t)) = rw (ap is_countdown e) refl
  offscreen-Calm m (free, inr (e, h)) = rw (ap is_countdown e, h) refl

  abbrev pub Never : Mode → Manager → Type 0
  Never md n = ⊥

  by_mode-Calm :
      (md : Mode) (m : Manager)
      → (control m).mode ≡ md
      → Calm m
      → Leads Calm Never (by_mode env utc_ms md m)
  unfolding by_mode
  by_mode-Calm Mode.clock m same h = stays _ (control-Calm m _ (tick_clock-control env utc_ms m) h)
  by_mode-Calm Mode.message m same (free, inl (e, h, t)) = absurd (cc (same, e))
  by_mode-Calm Mode.message m same (free, inr (e, h)) = absurd (cc (same, e))
  by_mode-Calm Mode.countdown m same (free, inl (e, h, t)) =
      let (n, eq, k) = countdown_ahead env utc_ms m (h, t) in
      rw eq (stays n (Calm-Steady m n k (free, inl (e, h, t))))
  by_mode-Calm Mode.countdown m same (free, inr (e, h)) = absurd (cc (same, e))

  pub render-Calm : (m : Manager) → Calm m → Leads Calm Never (render_current env utc_ms m)
  unfolding render_current
  render-Calm m h =
      either_branch (Leads Calm Never) _
        (stays _ (control-Calm m _ (tick_ramp-control env utc_ms m) h))
        (by_mode-Calm m.mode m (control-mode m) h)

  pub display-Returns :
      (P : Manager → Type 0)
      → ((m n : Manager) → control n ≡ control m → P m → P n)
      → (o : Option Manager) → Returns P o
      → Returns P (and_then o (λ n. some (sched_tick env utc_ms n)))
  display-Returns P same o h =
      and_then-Returns P P o _ h (λ n k. returned _ (same n _ (sched_tick-control env utc_ms n) k))

  module _ (enter : Mode → Manager → Option Manager) where
    free_tick-Calm : (m : Manager) → Calm m → Returns Calm (free_tick env utc_ms enter m)
    unfolding free_tick
    free_tick-Calm m h = rw (offscreen-Calm m h) (
        display-Returns Calm control-Calm _ (
          then_enter-Returns Calm Calm Never enter _ (render-Calm m h) (λ n k. k)
            (λ md n k. absurd k)))

    wake-Calm : (m : Manager) → Calm m → Returns Calm (wake env utc_ms enter m)
    unfolding wake control
    wake-Calm m h = rw (h.0) (free_tick-Calm m h)

    pub tick_with-Calm : (m : Manager) → Calm m → Returns Calm (tick_with env utc_ms enter m)
    unfolding tick_with
    tick_with-Calm m h =
        let noted : Calm (note_time utc_ms m) =
          control-Calm m _ (note_time-control env utc_ms m) h in
        either_branch (Returns Calm) _
          (returned _ (control-Calm _ _ (held_tick-control env utc_ms _) noted))
          (wake-Calm _ (leave_hold-Calm _ noted))
