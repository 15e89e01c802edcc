-- ===== src/Modes/Examples.antt =====
-- Runs of the mode manager of components/modes/mode_manager.cpp, and its theorems at concrete inputs.
use lost_swan_firmware.Common.{
  ℕ, ◌+◌, ◌≤◌, ◌≡◌, inl, refl, true, false, arith, List, [], ◌∷◌, none, some,
}
use lost_swan_firmware.Common.Int.{pos, negsuc}
use lost_swan_firmware.Motion.Axis.{idle}
use lost_swan_firmware.Frame.{MotionPort, Scheduler, none_posted}
use lost_swan_firmware.Ring.{RingCategory, Slot, RingSet, build_caches}
use lost_swan_firmware.Tz.Zone.{utc_zone}
use lost_swan_firmware.Countdown.{seconds}
use lost_swan_firmware.Modes.State.{
  Mode, CdPhase, system_failure, Origin, ModesConfig, Manager, Env, render_none, shown_none,
}
use lost_swan_firmware.Countdown.{tens}
use lost_swan_firmware.Modes.Wear.{clock_wear_per_day, countdown_wear_per_run}
use lost_swan_firmware.Modes.Flips.{Estimates, wear-Estimates}
use lost_swan_firmware.Modes.Tick.{tick}
use lost_swan_firmware.Modes.Control.{control}
use lost_swan_firmware.Modes.Calm.{Returns}
use lost_swan_firmware.Modes.Acts.{Acts, IsLively, IsOver}
use lost_swan_firmware.Modes.Invariants.{soundings, noise}
use lost_swan_firmware.Modes.Runs.{
  tick-Acts, tick-IsLively, run_ticks, run_ticks-soundings, run_ticks-IsOver, run_ticks-IsPending,
}
use lost_swan_firmware.Modes.Hold.{tick_held, tick_wakes_silently}
use lost_swan_firmware.Modes.Wake.{tick_takes_display}
use lost_swan_firmware.Modes.Commands.{cmd_countdown_set_target, cmd_mode_set}
use lost_swan_firmware.Modes.Arming.{
  Answers, Sets, KeepsRun, cmd_countdown_set_target-Sets, cmd_mode_set-KeepsRun,
}

-- Ten digits, three blanks: a small drum.
abbrev digit_slot : ℕ → Slot
digit_slot d = record { id = (48 + d) ∷ []; label = []; cat = RingCategory.digit }

abbrev blank_slot : Slot
blank_slot = record { id = 95 ∷ []; label = []; cat = RingCategory.blank }

abbrev small_drum : List Slot
small_drum = blank_slot ∷ digit_slot 1 ∷ digit_slot 0 ∷ blank_slot ∷ []

abbrev ring : RingSet
ring = record { shared = build_caches small_drum; per_col = λ _. none }

abbrev port : MotionPort
port = record {
  col = λ i. record { state = idle; index = some 0; dest_index = some 0 };
  go_ok = λ i want. true;
  spin_ok = λ i. true;
}

abbrev synced : Env
synced = record { ring = ring; port = port; time_valid = true; now_utc = 1_800_000_000 }

abbrev config : ModesConfig
config = record {
  h24 = false;
  granularity_min = 15;
  seconds_mode = seconds;
  seconds_live_s = 240;
  wifi_grace_s = 15;
  msg_dwell_s = 600;
  clock_land_on_tick = false;
  cd_land_on_tick = true;
  zero_hold_s = 3;
  spin_s = 6;
  failure_timeout_s = 0;
  alarm_flaps_s = 25;
  reveal = none ∷ none ∷ none ∷ none ∷ none ∷ [];
}

abbrev at_home : List ℕ
at_home = 0 ∷ 0 ∷ 0 ∷ 0 ∷ 0 ∷ []

abbrev sched : Scheduler
sched = record {
  timing = record { flaps_s = 12; accel = 200 };
  desired = at_home;
  have_desired = false;
  pending = at_home;
  have_pending = false;
  start_at_ms = 0;
  posted_cols = none_posted;
  excluded = 0;
  posted_tick_ms = none;
}

-- The manager as it is made, on its first run of the clock.
abbrev fresh : Manager
fresh = record {
  cfg = config;
  tz = utc_zone;
  tz_str = [];
  ntp = [];
  has_journal = true;
  drivers = true;
  maintenance = false;
  ota_hold = false;
  held = false;
  mode = Mode.clock;
  prev_mode = Mode.clock;
  mode_note = none;
  sched = sched;
  last_frame = at_home;
  clock = record { rendered_key = render_none; invalid_since_ms = negsuc 0; wifi_glyph = false };
  msg = record {
    msg_frame = at_home;
    msg_tokens = [];
    msg_live = false;
    msg_hold = false;
    msg_until_ms = pos 0;
  };
  cd = record { phase = CdPhase.idle; target_utc = 0; seq = 0; set_by = Origin.unknown };
  latches = record { cue_warn4 = false; cue_warn1 = false; cue_zero = false; spin_started = false };
  reveal_landed = false;
  reveal_announce = false;
  cd_shown = shown_none;
  cd_step_s = 60;
  cd_scheduled_land = 0;
  pending_resume = false;
  last_tick_ms = none;
  ramp = record {
    active = false;
    column = 0;
    to = 0;
    step = 1;
    dwell_ms = 1000;
    next_index = 0;
    due_ms = 0;
    last_stop = false;
  };
  log = [];
}

-- A run that ends at 1000 s, with the clock on the display.
abbrev running : Manager
running = record fresh {
  cd = record { phase = CdPhase.running; target_utc = 1000; seq = 7; set_by = Origin.ui };
}

fresh-IsLively : IsLively (control fresh)
unfolding control
fresh-IsLively = refl

running-IsLively : IsLively (control running)
unfolding control
running-IsLively = refl

-- Maintenance comes to an end after the deadline.
abbrev woken : Manager
woken = record running { held = true }

abbrev maintained : Manager
maintained = record running { maintenance = true }

tick-IsLively_example : Returns (λ n. IsLively (control n)) (tick synced 900_000 running)
tick-IsLively_example = tick-IsLively synced 900_000 running running-IsLively

tick-Acts_example :
    Returns
      (λ n. Acts synced 1_001_000 (control running) (control n))
      (tick synced 1_001_000 running)
tick-Acts_example = tick-Acts synced 1_001_000 running running-IsLively

run_ticks-soundings_example :
    Returns
      (λ n. soundings system_failure n.log ≤ 1)
      (run_ticks ((synced, 1_000_000) ∷ (synced, 1_000_050) ∷ []) running)
run_ticks-soundings_example =
    run_ticks-soundings system_failure ((synced, 1_000_000) ∷ (synced, 1_000_050) ∷ []) running
      running-IsLively refl

run_ticks-IsOver_example :
    Returns
      (λ n. IsOver (control n) × (noise n.log ≡ 0))
      (run_ticks ((synced, 1_000_000) ∷ (synced, 1_000_050) ∷ []) fresh)
unfolding control
run_ticks-IsOver_example =
    run_ticks-IsOver ((synced, 1_000_000) ∷ (synced, 1_000_050) ∷ []) fresh fresh-IsLively
      (refl, inl refl)

run_ticks-IsPending_example :
    Returns
      (λ n. n.cd ≡ running.cd)
      (run_ticks ((synced, 500_000) ∷ (synced, 900_000) ∷ []) running)
run_ticks-IsPending_example =
    run_ticks-IsPending ((synced, 500_000) ∷ (synced, 900_000) ∷ []) running running-IsLively refl
      refl (omega arith, (omega arith, tt))

tick_held_example :
    Returns
      (λ n. (n.log ≡ []) × (n.cd ≡ running.cd) × (n.last_frame ≡ at_home))
      (tick synced 1_001_000 maintained)
tick_held_example = tick_held synced 1_001_000 maintained refl refl

tick_wakes_silently_example :
    Returns (λ n. IsOver (control n) × (noise n.log ≡ 0)) (tick synced 1_001_000 woken)
unfolding control
tick_wakes_silently_example =
    tick_wakes_silently synced 1_001_000 woken refl refl refl refl refl refl (omega arith)
      (omega arith)

tick_takes_display_example :
    Returns
      (λ n. ((control n).mode ≡ Mode.countdown) × ((control n).cd ≡ running.cd))
      (tick synced 800_000 running)
unfolding control
tick_takes_display_example =
    tick_takes_display synced 800_000 running refl
      (refl, refl, refl, refl, omega arith, omega arith)

cmd_countdown_set_target-Sets_example :
    Sets synced 2_000_000 2300 Origin.mqtt running
      (cmd_countdown_set_target synced 2_000_000 (pos 2300) Origin.mqtt running)
cmd_countdown_set_target-Sets_example =
    cmd_countdown_set_target-Sets synced 2_000_000 2300 Origin.mqtt running refl running-IsLively
      refl

cmd_mode_set-KeepsRun_example :
    Answers (KeepsRun synced 900_000 running) (cmd_mode_set synced 900_000 Mode.countdown running)
cmd_mode_set-KeepsRun_example =
    cmd_mode_set-KeepsRun synced 900_000 Mode.countdown running running-IsLively refl refl
      (omega arith)

wear-Estimates_example :
    Estimates (clock_wear_per_day synced.ring true 5)
    × Estimates (countdown_wear_per_run synced.ring tens (pos 240))
wear-Estimates_example = wear-Estimates synced.ring true 5 tens (pos 240)
