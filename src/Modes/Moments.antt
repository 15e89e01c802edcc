-- ===== src/Modes/Moments.antt =====
-- The moments of a countdown in a tick of the mode manager (components/modes/mode_manager.cpp): each
-- decides nothing but steps of `Act`.
use lost_swan_firmware.Common.{
  by_branch, ℕ, ◌≤◌, ◌≡◌, refl, sym, ◌∙◌, ap, subst, Bool, true, false, not, arith, ltb→le, leb→le,
  if◌then◌else◌, List, ◌∷◌, inl, inr, Bool-cases,
}
use lost_swan_firmware.Modes.State.{
  CdPhase, system_failure, cued, Kind, Origin, who_of, Manager, Env, emit, persist, note_locked,
  sched_spin_all,
}
use lost_swan_firmware.Modes.Run.{
  is_idle, is_running, is_spin, target_ms, set_phase, note_zero, note_ended, sound_offscreen,
  enter_reveal_silently, warn4, warn1, sound_zero, offscreen_zero,
}
use lost_swan_firmware.Modes.Face.{zero_moment, spin_once, start_spin, end_spin}
use lost_swan_firmware.Modes.Tick.{is_countdown, wake_silently, leave_hold}
use lost_swan_firmware.Modes.Control.{Control, control}
use lost_swan_firmware.Modes.Acts.{
  Act, Acts, here, next, compose, noting, noting_zero, saving, with_reveal, with_no_spin,
  with_phase,
}

module _ (env : Env) (utc_ms : ℕ) where
  abbrev pub Does : Manager → Manager → Type 0
  Does m n = Acts env utc_ms (control m) (control n)

  pub one : {c d : Control} → Act env utc_ms c d → Acts env utc_ms c d
  one s = next here s

  -- A step to decisions that are those of `n`.
  pub arrives :
      (m n : Manager) (d : Control) → control n ≡ d → Act env utc_ms (control m) d → Does m n
  arrives m n d e s = subst (λ c. Acts env utc_ms (control m) c) (sym e) (one s)

  pub shown : (m n : Manager) → control n ≡ control m → Does m n
  shown m n e = subst (λ c. Acts env utc_ms (control m) c) (sym e) here

  pub note_locked-noting :
      (k : Kind) (d : List ℕ) (s : ℕ) (by : Origin) (m : Manager)
      → control (note_locked env k d s by m) ≡ noting env k d s (who_of by) (control m)
  unfolding note_locked emit control
  note_locked-noting k d s by m = elim (Bool-cases m.has_journal) [
    | inl h ↦ rw h refl
    | inr h ↦ rw h refl
  ]

  note_zero-noting : (m : Manager) → control (note_zero env m) ≡ noting_zero env (control m)
  unfolding note_zero control
  note_zero-noting m = note_locked-noting _ _ _ _ m

  pub note_ended-noting :
      (m : Manager)
      → control (note_ended env m)
        ≡ (if is_running (control m).cd.phase then noting_zero env (control m) else control m)
  unfolding note_ended control
  note_ended-noting m = elim (Bool-cases (is_running m.cd.phase)) [
    | inl run ↦ rw run (note_zero-noting m)
    | inr over ↦ rw over refl
  ]

  warn4-Does : (m : Manager) → is_running (control m).cd.phase ≡ true → Does m (warn4 utc_ms m)
  unfolding warn4 emit control
  warn4-Does m run =
      by_branch (Does m) _
        (λ due. one (Act.sound_warn4 (control m) run (ground arith) (ground arith))) (λ other. here)

  warn1-Does : (m : Manager) → is_running (control m).cd.phase ≡ true → Does m (warn1 utc_ms m)
  unfolding warn1 emit control
  warn1-Does m run =
      by_branch (Does m) _
        (λ due. one (Act.sound_warn1 (control m) run (ground arith) (ground arith))) (λ other. here)

  lowered : (b : Bool) → not b ≡ true → b ≡ false
  lowered b h = ground arith

  pub raised : (b : Bool) → not b ≡ false → b ≡ true
  raised b h = ground arith

  abbrev pub IsUp : Manager → Type 0
  IsUp m = is_countdown (control m).mode ≡ true

  pub sound_zero-Does :
      (m : Manager)
      → IsUp m
      → is_idle (control m).cd.phase ≡ false
      → is_running (control m).cd.phase ≡ false
      → Does m (sound_zero m)
  unfolding sound_zero emit control
  sound_zero-Does m up busy past =
      by_branch (Does m) _
        (λ silent. one (Act.sound_failure (control m) up busy past (lowered _ silent)))
        (λ other. here)

  pub zero_moment-Does :
      (m : Manager)
      → IsUp m
      → is_running (control m).cd.phase ≡ true
      → Does m (zero_moment env utc_ms m)
  unfolding zero_moment persist emit control
  zero_moment-Does m up run =
      by_branch (Does m) _
        (λ past.
          arrives m (note_zero env (persist (set_phase CdPhase.zero m)))
            (noting_zero env (saving (with_phase CdPhase.zero (control m))))
            (note_zero-noting (persist (set_phase CdPhase.zero m)))
            (Act.reach_zero (control m) up run (leb→le _ _ past)))
        (λ ahead. here)

  spin_once-Does :
      (m : Manager) → IsUp m → is_spin (control m).cd.phase ≡ true → Does m (spin_once env utc_ms m)
  unfolding spin_once sched_spin_all emit control
  spin_once-Does m up spinning =
      by_branch (Does m) _
        (λ fresh. one (Act.spin_drums (control m) _ up spinning (lowered _ fresh))) (λ other. here)

  pub start_spin-Does : (m : Manager) → IsUp m → Does m (start_spin env utc_ms m)
  unfolding start_spin control
  start_spin-Does m up =
      by_branch (Does m) _
        (λ due.
          compose (one (Act.begin_spin (control m) up (ground arith) (ground arith)))
            (spin_once-Does (set_phase CdPhase.spin m) up refl))
        (λ other. here)

  pub end_spin-Does : (m : Manager) → IsUp m → Does m (end_spin env utc_ms m)
  unfolding end_spin persist emit control
  end_spin-Does m up =
      by_branch (Does m) _ (λ over. one (Act.reveal (control m) up (ground arith) (ground arith)))
        (λ other. here)

  wake_silently-Does : (m : Manager) → Does m (wake_silently env utc_ms m)
  unfolding wake_silently enter_reveal_silently persist emit control
  wake_silently-Does m =
      by_branch (Does m) _
        (λ p.
          let run : is_running m.cd.phase ≡ true = ground arith in
          let noted : control (note_ended env m) ≡ noting_zero env (control m) =
            note_ended-noting m ∙ rw run refl in
          arrives m (persist (enter_reveal_silently env m))
            (saving (with_reveal (noting_zero env (control m))))
            (ap (λ c. saving (with_reveal c)) noted)
            (Act.zero_held (control m) run (ground arith) (ground arith) (ground arith)))
        (λ other. here)

  pub leave_hold-Does : (m : Manager) → Does m (leave_hold env utc_ms m)
  unfolding leave_hold control
  leave_hold-Does m =
      by_branch (Does m) _ (λ held. wake_silently-Does (record m { held = false })) (λ other. here)

  pub cues-cd :
      (m : Manager)
      → ((warn1 utc_ms (warn4 utc_ms m)).cd ≡ m.cd)
        × ((warn1 utc_ms (warn4 utc_ms m)).mode ≡ m.mode)
  unfolding warn1 warn4 emit
  cues-cd m = ground arith

  warn4-cd : (m : Manager) → (warn4 utc_ms m).cd ≡ m.cd
  unfolding warn4 emit
  warn4-cd m = ground arith

  pub running_of :
      (m n : Manager) → n.cd ≡ m.cd → is_running m.cd.phase ≡ true → is_running n.cd.phase ≡ true
  running_of m n e run = subst (λ c. is_running c.phase ≡ true) (sym e) run

  pub cues-Does :
      (m : Manager)
      → is_running (control m).cd.phase ≡ true
      → Does m (warn1 utc_ms (warn4 utc_ms m))
  unfolding control
  cues-Does m run =
      compose (warn4-Does m run)
        (warn1-Does (warn4 utc_ms m) (running_of m (warn4 utc_ms m) (warn4-cd m) run))

  -- The manager whose zero has just sounded.
  abbrev sounding : Manager → Manager
  sounding m =
      emit (cued system_failure) (record m { latches = record (m.latches) { cue_zero = true } })

  sound_offscreen-noting :
      (m : Manager)
      → m.latches.cue_zero ≡ false
      → control (sound_offscreen env m) ≡ noting_zero env (control (sounding m))
  unfolding sound_offscreen sound_zero
  sound_offscreen-noting m silent = rw silent (note_zero-noting (sounding m))

  ended_sounding :
      (m : Manager)
      → saving (with_no_spin (noting_zero env (control (sounding m))))
        ≡ saving (
            with_reveal (
              noting_zero env (record (control m) { log = cued system_failure ∷ (control m).log })))
  unfolding emit control
  ended_sounding m = elim (Bool-cases m.has_journal) [ inl h ↦ rw h refl | inr h ↦ rw h refl ]

  sound_offscreen_marked :
      (m : Manager) → m.latches.cue_zero ≡ true → control (sound_offscreen env m) ≡ control m
  unfolding sound_offscreen
  sound_offscreen_marked m marked =
      by_branch (λ n. control n ≡ control m) (not m.latches.cue_zero)
        (λ silent. absurd (ground (arith, marked))) (λ other. refl)

  ended-Does :
      (m : Manager)
      → is_countdown (control m).mode ≡ false
      → is_running (control m).cd.phase ≡ true
      → target_ms m ≤ utc_ms
      → Acts env utc_ms (control m) (saving (with_no_spin (control (sound_offscreen env m))))
  unfolding control
  ended-Does m off run past = elim (Bool-cases m.latches.cue_zero) [
    | inl marked ↦
        subst (λ d. Acts env utc_ms (control m) d)
          (sym (ap (λ c. saving (with_no_spin c)) (sound_offscreen_marked m marked)))
          (one (Act.zero_marked (control m) off run past marked))
    | inr silent ↦
        subst (λ d. Acts env utc_ms (control m) d)
          (sym (
            ap (λ c. saving (with_no_spin c)) (sound_offscreen-noting m silent) ∙ ended_sounding m))
          (one (Act.zero_unseen (control m) off run past silent))
  ]

  pub offscreen_zero-Does :
      (m : Manager)
      → is_countdown (control m).mode ≡ false
      → is_running (control m).cd.phase ≡ true
      → Does m (offscreen_zero env utc_ms m)
  unfolding offscreen_zero persist emit control
  offscreen_zero-Does m off run =
      by_branch (Does m) _ (λ ahead. here) (λ over. ended-Does m off run (ltb→le _ _ over))
