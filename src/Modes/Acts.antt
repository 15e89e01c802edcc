-- ===== src/Modes/Acts.antt =====
-- What a tick of the mode manager may decide, as a step relation on its decisions: each step has the
-- condition under which components/modes/mode_manager.cpp takes it, with the saves and the entries
-- of the journal that go with it. Frames are no steps, nor are commands.
use lost_swan_firmware.Common.{
  ℕ, ◌+◌, ◌-◌, ◌*◌, ◌/◌, ◌≤◌, ◌<◌, ◌≡◌, ◌⊎◌, Bool, true, false, ltb, leb, if◌then◌else◌, Option,
  none, some, List, [], ◌∷◌,
}
use lost_swan_firmware.Frame.{Command}
use lost_swan_firmware.Modes.State.{
  codes, mode_name, Mode, CdPhase, warn4_min, warn1_min, system_failure, spun, cued, saved,
  journalled, Env, Kind, who_of, countdown_zero, mode_change,
}
use lost_swan_firmware.Modes.Run.{is_idle, is_running, is_zero, is_spin, is_reveal}
use lost_swan_firmware.Modes.Tick.{is_countdown, same_mode}
use lost_swan_firmware.Modes.Control.{Control}

abbrev pub deadline_ms : Control → ℕ
deadline_ms c = c.cd.target_utc * 1000

-- The message mode was not entered from itself, so it does not give way to itself.
abbrev pub is_lively : Mode → Mode → Bool
is_lively Mode.message Mode.message = false
is_lively _ _ = true

abbrev pub IsLively : Control → Type 0
IsLively c = is_lively c.mode c.prev_mode ≡ true

-- A running countdown whose deadline is ahead, and no stored run that waits for the clock.
abbrev pub IsPending : ℕ → Control → Type 0
IsPending utc_ms c =
    (c.pending_resume ≡ false) × (is_running c.cd.phase ≡ true) × (utc_ms < deadline_ms c)

-- No countdown, or one whose zero has sounded and spun or was passed over in silence.
abbrev pub IsOver : Control → Type 0
IsOver c =
    (c.pending_resume ≡ false)
    × ((is_idle c.cd.phase ≡ true)
        ⊎ ((is_running c.cd.phase ≡ false)
            × (c.latches.cue_zero ≡ true)
            × (c.latches.spin_started ≡ true)))

-- How long before its end a countdown takes the display back.
abbrev pub live_window_ms : Control → ℕ
live_window_ms c = (if ltb 0 c.cfg.seconds_live_s then c.cfg.seconds_live_s else 60) * 1000

abbrev pub with_phase : CdPhase → Control → Control
with_phase p c = record c { cd = record (c.cd) { phase = p } }

-- The record is saved as it is now.
abbrev pub saving : Control → Control
saving c = record c { log = saved c.cd ∷ c.log }

-- An entry of the journal, if there is one; its time is 0 where the clock is not known.
abbrev pub noting : Env → Kind → List ℕ → ℕ → List ℕ → Control → Control
noting env k detail seq who c =
    if c.has_journal
    then record c {
      log =
          journalled (record {
            kind = k;
            utc_s = if env.time_valid then env.now_utc else 0;
            seq = seq;
            who = who;
            detail = detail;
          })
          ∷ c.log;
    }
    else c

-- The entry for the zero of a run, with its number and who set it.
abbrev pub noting_zero : Env → Control → Control
noting_zero env c = noting env countdown_zero [] c.cd.seq (who_of c.cd.set_by) c

-- The entry for a change of mode: why it came, if that was left, or else the mode.
abbrev pub noting_mode : Env → Mode → Option (List ℕ) → Control → Control
noting_mode env md (some why) c = noting env mode_change why c.cd.seq (who_of c.cd.set_by) c
noting_mode env md none c = noting env mode_change (codes (mode_name md)) 0 [] c

-- The mode is changed, with its entry, or entered again.
abbrev pub with_mode : Env → Mode → Control → Control
with_mode env md c =
    if same_mode c.mode md
    then record c { mode = md; mode_note = none }
    else record (noting_mode env md c.mode_note (record c { prev_mode = c.mode })) {
      mode = md;
      mode_note = none;
    }

-- The reveal without its spin, which counts as done.
abbrev pub with_no_spin : Control → Control
with_no_spin c = record (with_phase CdPhase.reveal c) {
  latches = record (c.latches) { spin_started = true };
}

-- The reveal without the zero before it: its cue and its spin count as done.
abbrev pub with_reveal : Control → Control
with_reveal c = record (with_phase CdPhase.reveal c) {
  latches = record (c.latches) { cue_zero = true; spin_started = true };
}

pub data Act (env : Env) (utc_ms : ℕ) : Control → Control → Type 0 where
  -- the cues
  sound_warn4 :
      (c : Control)
      → is_running c.cd.phase ≡ true
      → c.latches.cue_warn4 ≡ false
      → deadline_ms c ≤ utc_ms + 240 * 1000
      → Act env utc_ms c (record c {
        latches = record (c.latches) { cue_warn4 = true };
        log = cued warn4_min ∷ c.log;
      })
  sound_warn1 :
      (c : Control)
      → is_running c.cd.phase ≡ true
      → c.latches.cue_warn1 ≡ false
      → deadline_ms c ≤ utc_ms + 60 * 1000
      → Act env utc_ms c (record c {
        latches = record (c.latches) { cue_warn1 = true };
        log = cued warn1_min ∷ c.log;
      })
  sound_failure :
      (c : Control)
      → is_countdown c.mode ≡ true
      → is_idle c.cd.phase ≡ false
      → is_running c.cd.phase ≡ false
      → c.latches.cue_zero ≡ false
      → Act env utc_ms c (record c {
        latches = record (c.latches) { cue_zero = true };
        log = cued system_failure ∷ c.log;
      })
  -- the phases of the run on the display
  reach_zero :
      (c : Control)
      → is_countdown c.mode ≡ true
      → is_running c.cd.phase ≡ true
      → deadline_ms c ≤ utc_ms
      → Act env utc_ms c (noting_zero env (saving (with_phase CdPhase.zero c)))
  begin_spin :
      (c : Control)
      → is_countdown c.mode ≡ true
      → is_zero c.cd.phase ≡ true
      → deadline_ms c + c.cfg.zero_hold_s * 1000 ≤ utc_ms
      → Act env utc_ms c (with_phase CdPhase.spin c)
  spin_drums :
      (c : Control) (cs : List Command)
      → is_countdown c.mode ≡ true
      → is_spin c.cd.phase ≡ true
      → c.latches.spin_started ≡ false
      → Act env utc_ms c
          (record c { latches = record (c.latches) { spin_started = true }; log = spun cs ∷ c.log })
  reveal :
      (c : Control)
      → is_countdown c.mode ≡ true
      → is_spin c.cd.phase ≡ true
      → deadline_ms c + c.cfg.zero_hold_s * 1000 + c.cfg.spin_s * 1000 ≤ utc_ms
      → Act env utc_ms c (saving (with_phase CdPhase.reveal c))
  -- the zero under another mode: with its cue, or, where that was marked, without
  zero_unseen :
      (c : Control)
      → is_countdown c.mode ≡ false
      → is_running c.cd.phase ≡ true
      → deadline_ms c ≤ utc_ms
      → c.latches.cue_zero ≡ false
      → Act env utc_ms c
          (saving (with_reveal (noting_zero env (record c { log = cued system_failure ∷ c.log }))))
  zero_marked :
      (c : Control)
      → is_countdown c.mode ≡ false
      → is_running c.cd.phase ≡ true
      → deadline_ms c ≤ utc_ms
      → c.latches.cue_zero ≡ true
      → Act env utc_ms c (saving (with_no_spin c))
  -- the zero that passed while the display was held
  zero_held :
      (c : Control)
      → is_running c.cd.phase ≡ true
      → env.time_valid ≡ true
      → 0 < c.cd.target_utc
      → deadline_ms c ≤ utc_ms
      → Act env utc_ms c (saving (with_reveal (noting_zero env c)))
  -- the changes of mode
  take_display :
      (c : Control)
      → is_countdown c.mode ≡ false
      → is_running c.cd.phase ≡ true
      → env.time_valid ≡ true
      → utc_ms < deadline_ms c
      → deadline_ms c ≤ utc_ms + live_window_ms c
      → Act env utc_ms c (
          with_mode env Mode.countdown
            (record c { mode_note = some (codes "countdown (auto, 4:00)") }))
  end_message :
      (c : Control)
      → c.mode ≡ Mode.message
      → c.msg_hold ≡ false
      → Act env utc_ms c (with_mode env c.prev_mode c)
  give_up :
      (c : Control)
      → is_countdown c.mode ≡ true
      → is_reveal c.cd.phase ≡ true
      → 0 < c.cfg.failure_timeout_s
      → deadline_ms c
          + c.cfg.zero_hold_s * 1000
          + c.cfg.spin_s * 1000
          + c.cfg.failure_timeout_s * 1000
        ≤ utc_ms
      → Act env utc_ms c (with_mode env Mode.clock (saving (with_phase CdPhase.idle c)))
  -- the run that was stored before a restart, once the time is known
  resume_running :
      (c : Control)
      → c.pending_resume ≡ true
      → env.time_valid ≡ true
      → utc_ms / 1000 < c.cd.target_utc
      → Act env utc_ms c (
          with_mode env Mode.countdown (record (with_phase CdPhase.running c) {
            pending_resume = false;
            latches = record {
              cue_warn4 = leb (c.cd.target_utc - utc_ms / 1000) 240;
              cue_warn1 = leb (c.cd.target_utc - utc_ms / 1000) 60;
              cue_zero = false;
              spin_started = false;
            };
          }))
  resume_reveal :
      (c : Control)
      → c.pending_resume ≡ true
      → env.time_valid ≡ true
      → c.cd.target_utc ≤ utc_ms / 1000
      → Act env utc_ms c (
          with_mode env Mode.countdown
            (record (with_phase CdPhase.reveal
              (if is_running c.cd.phase then noting_zero env c else c)) {
                pending_resume = false;
                latches = record {
                  cue_warn4 = false;
                  cue_warn1 = false;
                  cue_zero = true;
                  spin_started = true;
                };
              }))

pub data Acts (env : Env) (utc_ms : ℕ) (c : Control) : Control → Type 0 where
  here : Acts env utc_ms c c
  next : {d e : Control} → Acts env utc_ms c d → Act env utc_ms d e → Acts env utc_ms c e

pub compose :
    {env : Env} {t : ℕ} {c d e : Control} → Acts env t c d → Acts env t d e → Acts env t c e
compose p here = p
compose p (next q s) = next (compose p q) s
