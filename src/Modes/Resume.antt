-- ===== src/Modes/Resume.antt =====
-- A run that was stored before a restart, in a tick of components/modes/mode_manager.cpp: how it is
-- taken up is a step of `Act`.
use lost_swan_firmware.Common.{
  by_branch, ℕ, ◌≡◌, refl, ◌∙◌, ap, true, false, arith, ltb→lt, ltb→le, if◌then◌else◌, inl, inr,
  Bool-cases,
}
use lost_swan_firmware.Modes.State.{Mode, CdPhase, shown_none, Manager, Env}
use lost_swan_firmware.Modes.Run.{is_running, enter_reveal_silently, aim, countdown_resume}
use lost_swan_firmware.Modes.Tick.{entering, resumes}
use lost_swan_firmware.Modes.Control.{Control, control}
use lost_swan_firmware.Modes.Acts.{Act, with_phase, with_reveal, with_mode, noting_zero}
use lost_swan_firmware.Modes.Moments.{Does, arrives, note_ended-noting}
use lost_swan_firmware.Modes.Entering.{enters_by, entering-with_mode}

module _ (env : Env) (utc_ms : ℕ) where
  -- The manager that a resume starts from, past the marks that it clears.
  abbrev cleared : Manager → Manager
  cleared m = record m {
    pending_resume = false;
    cd_shown = shown_none;
    cd_scheduled_land = 0;
    latches = record (m.latches) {
      cue_warn4 = false;
      cue_warn1 = false;
      cue_zero = false;
      spin_started = false;
    };
  }

  abbrev revealed : Control → Control
  revealed c = record (with_phase CdPhase.reveal c) {
    pending_resume = false;
    latches = record { cue_warn4 = false; cue_warn1 = false; cue_zero = true; spin_started = true };
  }

  cleared-revealed :
      (m : Manager)
      → with_reveal (
          if is_running m.cd.phase
          then noting_zero env (control (cleared m))
          else control (cleared m))
        ≡ revealed (if is_running m.cd.phase then noting_zero env (control m) else control m)
  unfolding control
  cleared-revealed m = elim (Bool-cases (is_running m.cd.phase)) [
    | inl run ↦ elim (Bool-cases m.has_journal) [
      | inl h ↦ rw (run, h) refl
      | inr h ↦ rw (run, h) refl
    ]
    | inr over ↦ rw over refl
  ]

  silently-revealed :
      (m : Manager)
      → control (enter_reveal_silently env (cleared m))
        ≡ revealed
            (if is_running (control m).cd.phase then noting_zero env (control m) else control m)
  unfolding enter_reveal_silently control
  silently-revealed m =
      ap with_reveal (note_ended-noting env utc_ms (cleared m)) ∙ cleared-revealed m

  pub resume-Does :
      (m : Manager)
      → resumes env utc_ms m ≡ true
      → Does env utc_ms m (
          entering env Mode.countdown
            (countdown_resume env utc_ms (record m { pending_resume = false })))
  unfolding countdown_resume aim control
  resume-Does m waits =
      let pending : m.pending_resume ≡ true = ground arith in
      let valid : env.time_valid ≡ true = ground arith in
      let silent = enter_reveal_silently env (cleared m) in
      by_branch (λ n. Does env utc_ms m (entering env Mode.countdown n)) _
        (λ ahead.
          enters_by env utc_ms m _ Mode.countdown (ground arith)
            (Act.resume_running (control m) pending valid (ltb→lt _ _ ahead)))
        (λ past.
          arrives env utc_ms m (entering env Mode.countdown silent) _
            (entering-with_mode env utc_ms Mode.countdown silent (ground arith)
              ∙ ap (with_mode env Mode.countdown) (silently-revealed m))
            (Act.resume_reveal (control m) pending valid (ltb→le _ _ past)))
