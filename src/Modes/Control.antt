-- ===== src/Modes/Control.antt =====
-- What the mode manager decides (components/modes/mode_manager.cpp), apart from what it displays: the
-- mode, the countdown, and its calls out other than frames. An operation that only displays leaves it
-- alone, which these lemmas say of each.
use lost_swan_firmware.Common.{either_branch, ℕ, ◌≡◌, refl, ◌∙◌, Bool, arith, Option, List, [], ◌∷◌}
use lost_swan_firmware.Modes.State.{
  Mode, CdPersist, Latches, Output, commanded, spun, cued, saved, journalled, ModesConfig, Manager,
  Env, issue, sched_tick, render_again,
}
use lost_swan_firmware.Modes.Clock.{
  clock_unsynced, clock_land, clock_show, clock_synced, tick_clock,
}
use lost_swan_firmware.Modes.Face.{
  show_value, show_window, land_next, running_face, zero_face, show_reveal, announce_reveal,
  idle_face,
}
use lost_swan_firmware.Modes.Tick.{handle_time_step, note_time, next_stop, tick_ramp, held_tick}

-- The calls out, without the frames.
abbrev pub calls : List Output → List Output
calls [] = []
calls (commanded cs ∷ os) = calls os
calls (spun cs ∷ os) = spun cs ∷ calls os
calls (cued c ∷ os) = cued c ∷ calls os
calls (saved s ∷ os) = saved s ∷ calls os
calls (journalled e ∷ os) = journalled e ∷ calls os

pub record Control : Type 0 where
  pub cfg : ModesConfig
  pub has_journal : Bool
  pub drivers : Bool
  pub maintenance : Bool
  pub ota_hold : Bool
  pub mode : Mode
  pub prev_mode : Mode
  pub mode_note : Option (List ℕ)
  pub msg_hold : Bool
  pub cd : CdPersist
  pub latches : Latches
  pub pending_resume : Bool
  pub log : List Output

unfoldable pub control : Manager → Control
control m = record {
  cfg = m.cfg;
  has_journal = m.has_journal;
  drivers = m.drivers;
  maintenance = m.maintenance;
  ota_hold = m.ota_hold;
  mode = m.mode;
  prev_mode = m.prev_mode;
  mode_note = m.mode_note;
  msg_hold = m.msg.msg_hold;
  cd = m.cd;
  latches = m.latches;
  pending_resume = m.pending_resume;
  log = calls m.log;
}

pub control-mode : (m : Manager) → (control m).mode ≡ m.mode
unfolding control
control-mode m = refl

-- The decisions are those of `m`.
abbrev pub Same : Manager → Manager → Type 0
Same m n = control n ≡ control m

module _ (env : Env) (utc_ms : ℕ) where
  pub issue-control :
      (f : List ℕ) (land_at : ℕ) (m : Manager) → control (issue env f utc_ms land_at m) ≡ control m
  unfolding issue control
  issue-control f land_at m = refl

  pub sched_tick-control : (m : Manager) → control (sched_tick env utc_ms m) ≡ control m
  unfolding sched_tick control
  sched_tick-control m = refl

  clock_show-control :
      (lt : _) (fresh : Bool) (m : Manager) → control (clock_show env utc_ms lt fresh m) ≡ control m
  unfolding clock_show issue control
  clock_show-control lt fresh m = ground arith

  clock_land-control :
      (now : _) (g : ℕ) (m : Manager) → control (clock_land env utc_ms now g m) ≡ control m
  unfolding clock_land issue control
  clock_land-control now g m = ground arith

  clock_synced-control : (m : Manager) → Same m (clock_synced env utc_ms m)
  unfolding clock_synced control
  clock_synced-control m =
      either_branch (Same m) _ refl (clock_land-control _ _ _ ∙ clock_show-control _ _ _)

  clock_unsynced-control : (m : Manager) → Same m (clock_unsynced env utc_ms m)
  unfolding clock_unsynced control
  clock_unsynced-control m = either_branch (Same m) _ (issue-control _ 0 _) refl

  pub tick_clock-control : (m : Manager) → Same m (tick_clock env utc_ms m)
  unfolding tick_clock control
  tick_clock-control m =
      either_branch (Same m) _ (clock_synced-control m) (clock_unsynced-control m)

  show_window-control : (s : ℕ) (m : Manager) → control (show_window env utc_ms s m) ≡ control m
  unfolding show_window show_value issue control
  show_window-control s m = ground arith

  land_next-control : (s : ℕ) (m : Manager) → control (land_next env utc_ms s m) ≡ control m
  unfolding land_next issue control
  land_next-control s m = ground arith

  pub running_face-control : (m : Manager) → control (running_face env utc_ms m) ≡ control m
  unfolding running_face control
  running_face-control m = land_next-control _ _ ∙ show_window-control _ _

  pub idle_face-control : (m : Manager) → control (idle_face env utc_ms m) ≡ control m
  unfolding idle_face show_value issue control
  idle_face-control m = ground arith

  pub zero_face-control : (m : Manager) → control (zero_face env utc_ms m) ≡ control m
  unfolding zero_face show_value issue control
  zero_face-control m = ground arith

  pub show_reveal-control : (m : Manager) → control (show_reveal env utc_ms m) ≡ control m
  unfolding show_reveal issue control
  show_reveal-control m = ground arith

  pub announce_reveal-control : (m : Manager) → control (announce_reveal env m) ≡ control m
  unfolding announce_reveal control
  announce_reveal-control m = ground arith

  next_stop-control : (m : Manager) → control (next_stop env m) ≡ control m
  unfolding next_stop control
  next_stop-control m = ground arith

  pub tick_ramp-control : (m : Manager) → control (tick_ramp env utc_ms m) ≡ control m
  unfolding tick_ramp render_again control
  tick_ramp-control m =
      either_branch (Same m) _ refl
        (either_branch (Same m) _ (issue-control _ 0 m) (next_stop-control _ ∙ issue-control _ 0 m))

  pub held_tick-control : (m : Manager) → control (held_tick env utc_ms m) ≡ control m
  unfolding held_tick control
  held_tick-control m = either_branch (Same m) _ (tick_ramp-control _) refl

  pub note_time-control : (m : Manager) → control (note_time utc_ms m) ≡ control m
  unfolding note_time handle_time_step control
  note_time-control m = ground arith
