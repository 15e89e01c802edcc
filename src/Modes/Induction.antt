-- ===== src/Modes/Induction.antt =====
-- Induction over a tick of the mode manager (components/modes/mode_manager.cpp): a relation between
-- its decisions before and after that every part of a tick respects holds over a whole tick.
use lost_swan_firmware.Common.{
  ℕ, zero, suc, ◌≡◌, inl, inr, true, false, Option, none, some, Bool-cases,
}
use lost_swan_firmware.Modes.State.{Mode, Manager, Env}
use lost_swan_firmware.Modes.Run.{countdown_resume}
use lost_swan_firmware.Modes.Tick.{
  entering, leave_hold, offscreen, render_current, note_time, and_then, then_enter, free_tick,
  resumes, wake, tick_with, tick_locked, is_held,
}
use lost_swan_firmware.Modes.Control.{
  Control, control, note_time-control, held_tick-control, sched_tick-control,
}
use lost_swan_firmware.Modes.Course.{Leads, stays, enters}

-- Where the call returned, `P` holds of the manager.
abbrev pub Holds : (Manager → Type 0) → Option Manager → Type 0
Holds P none = Unit
Holds P (some m) = P m

Holds_map :
    {P Q : Manager → Type 0} (o : Option Manager)
    → ((m : Manager) → P m → Q m)
    → Holds P o
    → Holds Q o
Holds_map none f h = tt
Holds_map (some m) f h = f m h

and_then-Holds :
    (P Q : Manager → Type 0) (o : Option Manager) (k : Manager → Option Manager)
    → Holds P o
    → ((m : Manager) → P m → Holds Q (k m))
    → Holds Q (and_then o k)
and_then-Holds P Q none k h step = tt
and_then-Holds P Q (some m) k h step = step m h

pub record Respects (env : Env) (utc_ms : ℕ) (R : Control → Control → Type 0) : Type 0 where
  pub at_rest : (c : Control) → R c c
  pub compose : (a b c : Control) → R a b → R b c → R a c
  pub on_hold : (m : Manager) → R (control m) (control (leave_hold env utc_ms m))
  pub on_resume :
      (m : Manager)
      → resumes env utc_ms m ≡ true
      → R (control m) (
          control (
            entering env Mode.countdown
              (countdown_resume env utc_ms (record m { pending_resume = false }))))
  pub on_offscreen :
      (m : Manager)
      → Leads
          (λ n. R (control m) (control n))
          (λ md n. R (control m) (control (entering env md n)))
          (offscreen env utc_ms m)
  pub on_render :
      (m : Manager)
      → Leads
          (λ n. R (control m) (control n))
          (λ md n. R (control m) (control (entering env md n)))
          (render_current env utc_ms m)

module _ (env : Env) (utc_ms : ℕ) (R : Control → Control → Type 0)
    (law : Respects env utc_ms R) where
  abbrev From : Manager → Manager → Type 0
  From m n = R (control m) (control n)

  same : (m n : Manager) → control n ≡ control m → From m n
  same m n e = rw e (law.at_rest (control m))

  after : (m n : Manager) (o : Option Manager) → From m n → Holds (From n) o → Holds (From m) o
  after m n o h k = Holds_map o (λ p j. law.compose (control m) (control n) (control p) h j) k

  module _ (enter : Mode → Manager → Option Manager)
      (entered : (md : Mode) (n : Manager) → Holds (From (entering env md n)) (enter md n)) where
    then_enter-From :
        (m : Manager) (r : Manager × Option Mode)
        → Leads (From m) (λ md n. From m (entering env md n)) r
        → Holds (From m) (then_enter enter r)
    then_enter-From m r (stays n h) = h
    then_enter-From m r (enters md n h) = after m (entering env md n) (enter md n) h (entered md n)

    free_tick-From : (m : Manager) → Holds (From m) (free_tick env utc_ms enter m)
    unfolding free_tick
    free_tick-From m =
        and_then-Holds (From m) (From m) _ _ (then_enter-From m _ (law.on_offscreen m)) (λ n h.
          after m n _ h (
            and_then-Holds (From n) (From n) _ _ (then_enter-From n _ (law.on_render n)) (λ o k.
              law.compose (control n) (control o) _ k
                (same o _ (sched_tick-control env utc_ms o)))))

    wake-From : (m : Manager) → Holds (From m) (wake env utc_ms enter m)
    unfolding wake
    wake-From m = elim (Bool-cases (resumes env utc_ms m)) [
      | inl waits ↦ rw waits (after m _ _ (law.on_resume m waits) (entered Mode.countdown _))
      | inr free ↦ rw free (free_tick-From m)
    ]

    tick_with-From : (m : Manager) → Holds (From m) (tick_with env utc_ms enter m)
    unfolding tick_with
    tick_with-From m =
        let noted : From m (note_time utc_ms m) = same m _ (note_time-control env utc_ms m) in
        elim (Bool-cases (is_held (note_time utc_ms m))) [
          | inl held ↦ rw held (
              law.compose (control m) _ _ noted
                (same _ _ (held_tick-control env utc_ms (note_time utc_ms m))))
          | inr free ↦
              rw free
                (after m _ _ noted (after _ _ _ (law.on_hold (note_time utc_ms m)) (wake-From _)))
        ]

  pub tick_locked-From : (fuel : ℕ) (m : Manager) → Holds (From m) (tick_locked env utc_ms fuel m)
  unfolding tick_locked
  tick_locked-From zero m = tt
  tick_locked-From (suc fuel) m =
      tick_with-From _ (λ md n. tick_locked-From fuel (entering env md n)) m

  -- A tick that is not held, seen from the end of the hold.
  pub tick_locked-free :
      (fuel : ℕ) (m : Manager)
      → is_held (note_time utc_ms m) ≡ false
      → Holds
          (From (leave_hold env utc_ms (note_time utc_ms m)))
          (tick_locked env utc_ms (suc fuel) m)
  unfolding tick_locked tick_with
  tick_locked-free fuel m free = rw free (
      wake-From _ (λ md n. tick_locked-From fuel (entering env md n))
        (leave_hold env utc_ms (note_time utc_ms m)))
