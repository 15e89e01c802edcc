-- ===== src/Modes/Entering.antt =====
-- The change of mode of components/modes/mode_manager.cpp (`enter_mode`), as the decisions see it.
use lost_swan_firmware.Common.{
  ℕ, ◌≡◌, refl, ◌∙◌, ap, Bool, false, not, ◌&&◌, ◌||◌, List, Option, none, some, Bool-cases, inl,
  inr,
}
use lost_swan_firmware.Modes.State.{Mode, Manager, Env}
use lost_swan_firmware.Modes.Run.{is_zero, is_spin, is_reveal}
use lost_swan_firmware.Modes.Tick.{
  is_countdown, same_mode, leave_countdown, change_mode, noted_change, entering,
}
use lost_swan_firmware.Modes.Control.{Control, control}
use lost_swan_firmware.Modes.Acts.{Act, with_mode, noting_mode}
use lost_swan_firmware.Modes.Moments.{Does, arrives, note_locked-noting}

-- Entering the mode ends the run on the display.
abbrev pub ends_run : Mode → Control → Bool
ends_run md c =
    is_countdown c.mode
    && not (is_countdown md)
    && (is_zero c.cd.phase || is_spin c.cd.phase || is_reveal c.cd.phase)

module _ (env : Env) (utc_ms : ℕ) where
  noted_change-noting :
      (md : Mode) (why : Option (List ℕ)) (m : Manager)
      → control (noted_change env md why m) ≡ noting_mode env md why (control m)
  unfolding control
  noted_change-noting md none m = note_locked-noting env utc_ms _ _ _ _ m
  noted_change-noting md (some why) m = note_locked-noting env utc_ms _ _ _ _ m

  abbrev placed : Mode → Control → Control
  placed md c = record c { mode = md; mode_note = none }

  change_mode-with_mode :
      (md : Mode) (m : Manager)
      → placed md (control (change_mode env md m)) ≡ with_mode env md (control m)
  unfolding change_mode control
  change_mode-with_mode md m = elim (Bool-cases (same_mode m.mode md)) [
    | inl same ↦ rw same refl
    | inr other ↦
        rw other
          (ap (placed md) (noted_change-noting md m.mode_note (record m { prev_mode = m.mode })))
  ]

  leave_countdown_stays :
      (md : Mode) (m : Manager) → ends_run md (control m) ≡ false → leave_countdown md m ≡ m
  unfolding leave_countdown control
  leave_countdown_stays md m h = rw h refl

  pub entering-with_mode :
      (md : Mode) (m : Manager)
      → ends_run md (control m) ≡ false
      → control (entering env md m) ≡ with_mode env md (control m)
  unfolding entering control
  entering-with_mode md m h =
      ap (λ n. placed md (control (change_mode env md n))) (leave_countdown_stays md m h)
      ∙ change_mode-with_mode md m

  -- A step that changes the mode of `n`.
  pub enters_by :
      (m n : Manager) (md : Mode)
      → ends_run md (control n) ≡ false
      → Act env utc_ms (control m) (with_mode env md (control n))
      → Does env utc_ms m (entering env md n)
  enters_by m n md going s =
      arrives env utc_ms m (entering env md n) (with_mode env md (control n))
        (entering-with_mode md n going) s
