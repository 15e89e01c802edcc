-- ===== src/Modes/Run.antt =====
-- components/modes/mode_manager.cpp, the countdown off the display: its record, its cues, and the
-- zero that comes under another mode. A test of a signed difference is written with the terms moved
-- to the side where they are added. A call of `enter_mode`, which stands last where it stands, is
-- handed to the caller as the mode to enter.
use lost_swan_firmware.Common.{
  ℕ, suc, ◌+◌, ◌-◌, ◌*◌, ◌/◌, ◌%◌, ◌^◌, Bool, true, false, not, ◌&&◌, ltb, leb, if◌then◌else◌, List,
  [], ◌∷◌, Option, none, some,
}
use lost_swan_firmware.Ring.{RingSet, col, slot_count}
use lost_swan_firmware.Modes.Render.{render_blank}
use lost_swan_firmware.Modes.State.{
  codes, Mode, CdPhase, warn4_min, warn1_min, system_failure, Origin, countdown_zero, cued,
  shown_none, Manager, Env, emit, persist, note_locked,
}

abbrev pub is_idle : CdPhase → Bool
is_idle CdPhase.idle = true
is_idle _ = false

abbrev pub is_running : CdPhase → Bool
is_running CdPhase.running = true
is_running _ = false

abbrev pub is_zero : CdPhase → Bool
is_zero CdPhase.zero = true
is_zero _ = false

abbrev pub is_spin : CdPhase → Bool
is_spin CdPhase.spin = true
is_spin _ = false

abbrev pub is_reveal : CdPhase → Bool
is_reveal CdPhase.reveal = true
is_reveal _ = false

abbrev pub target_ms : Manager → ℕ
target_ms m = m.cd.target_utc * 1000

abbrev pub set_phase : CdPhase → Manager → Manager
set_phase p m = record m { cd = record (m.cd) { phase = p } }

unfoldable pub note_zero : Env → Manager → Manager
note_zero env m = note_locked env countdown_zero [] m.cd.seq m.cd.set_by m

unfoldable pub note_ended : Env → Manager → Manager
note_ended env m = if is_running m.cd.phase then note_zero env m else m

unfoldable pub enter_reveal_silently : Env → Manager → Manager
enter_reveal_silently env m =
    let noted = note_ended env m in
    record noted {
      cd = record (noted.cd) { phase = CdPhase.reveal };
      latches = record (noted.latches) { cue_zero = true; spin_started = true };
      reveal_landed = false;
      cd_shown = shown_none;
    }

-- The branch of `countdown_arm` and `countdown_resume` on the seconds that are left.
unfoldable pub aim : Env → ℕ → Manager → Manager
aim env utc_ms m =
    let rem_s = m.cd.target_utc - utc_ms / 1000 in
    if ltb (utc_ms / 1000) m.cd.target_utc
    then record m {
      cd = record (m.cd) { phase = CdPhase.running };
      latches = record (m.latches) { cue_warn4 = leb rem_s 240; cue_warn1 = leb rem_s 60 };
    }
    else enter_reveal_silently env m

unfoldable pub countdown_arm : Env → ℕ → ℕ → Origin → Manager → Manager
countdown_arm env target_utc utc_ms by m = persist (
    aim env utc_ms (record m {
      cd = record (m.cd) { target_utc = target_utc; set_by = by; seq = (m.cd.seq + 1) % 2 ^ 32 };
      cd_shown = shown_none;
      cd_scheduled_land = 0;
      latches = record {
        cue_warn4 = false;
        cue_warn1 = false;
        cue_zero = false;
        spin_started = false;
      };
      reveal_landed = false;
    }))

unfoldable pub countdown_resume : Env → ℕ → Manager → Manager
countdown_resume env utc_ms m = aim env utc_ms (record m {
  cd_shown = shown_none;
  cd_scheduled_land = 0;
  latches = record (m.latches) {
    cue_warn4 = false;
    cue_warn1 = false;
    cue_zero = false;
    spin_started = false;
  };
})

unfoldable pub reveal_from : RingSet → ℕ → List (Option ℕ) → List ℕ → List ℕ
reveal_from ring i (some idx ∷ rs) (b ∷ bs) =
    (if ltb idx (slot_count (col ring i)) then idx else b) ∷ reveal_from ring (suc i) rs bs
reveal_from ring i (none ∷ rs) (b ∷ bs) = b ∷ reveal_from ring (suc i) rs bs
reveal_from ring i [] bs = bs
reveal_from ring i (r ∷ rs) [] = []

unfoldable pub reveal_frame : Env → Manager → List ℕ
reveal_frame env m = reveal_from env.ring 0 m.cfg.reveal (render_blank env.ring m.last_frame)

-- The two warnings from the deadline, each at most once.
unfoldable pub warn4 : ℕ → Manager → Manager
warn4 utc_ms m =
    if not m.latches.cue_warn4 && leb (target_ms m) (utc_ms + 240 * 1000)
    then emit (cued warn4_min) (record m { latches = record (m.latches) { cue_warn4 = true } })
    else m

unfoldable pub warn1 : ℕ → Manager → Manager
warn1 utc_ms m =
    if not m.latches.cue_warn1 && leb (target_ms m) (utc_ms + 60 * 1000)
    then emit (cued warn1_min) (record m { latches = record (m.latches) { cue_warn1 = true } })
    else m

unfoldable pub sound_zero : Manager → Manager
sound_zero m =
    if not m.latches.cue_zero
    then emit (cued system_failure) (record m { latches = record (m.latches) { cue_zero = true } })
    else m

unfoldable pub wake_s : Manager → ℕ
wake_s m = if ltb 0 m.cfg.seconds_live_s then m.cfg.seconds_live_s else 60

unfoldable pub sound_offscreen : Env → Manager → Manager
sound_offscreen env m = if not m.latches.cue_zero then note_zero env (sound_zero m) else m

-- The zero that comes while another mode is on the display.
unfoldable pub offscreen_zero : Env → ℕ → Manager → Manager
offscreen_zero env utc_ms m =
    let sounded = sound_offscreen env m in
    if ltb utc_ms (target_ms m)
    then m
    else persist (record sounded {
      latches = record (sounded.latches) { spin_started = true };
      reveal_landed = false;
      cd = record (sounded.cd) { phase = CdPhase.reveal };
      cd_shown = shown_none;
    })

unfoldable pub tick_countdown_offscreen : Env → ℕ → Manager → Manager × Option Mode
tick_countdown_offscreen env utc_ms m =
    let wakes =
      env.time_valid && ltb utc_ms (target_ms m) && leb (target_ms m) (utc_ms + wake_s m * 1000) in
    if not (is_running m.cd.phase)
    then (m, none)
    else if wakes
    then (record m { mode_note = some (codes "countdown (auto, 4:00)") }, some Mode.countdown)
    else (offscreen_zero env utc_ms (warn1 utc_ms (warn4 utc_ms m)), none)
