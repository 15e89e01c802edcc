-- ===== src/Modes/Face.antt =====
-- components/modes/mode_manager.cpp, the countdown and the message on the display. A call of
-- `enter_mode`, which stands last where it stands, is handed to the caller as the mode to enter.
use lost_swan_firmware.Common.{
  ℕ, ◌+◌, ◌-◌, ◌*◌, ◌/◌, ◌%◌, ◌^◌, Bool, true, false, not, ◌&&◌, ◌||◌, ltb, leb, ◌==◌,
  if◌then◌else◌, List, [], ◌∷◌, Option, none, some,
}
use lost_swan_firmware.Common.Int.{pos, leb_ℤ}
use lost_swan_firmware.Frame.{lead_ms, settled}
use lost_swan_firmware.Countdown.{countdown_shown_s, countdown_step_s, countdown_next_shown_s}
use lost_swan_firmware.Modes.Render.{render_countdown}
use lost_swan_firmware.Modes.State.{
  Mode, CdPhase, Shown, shown_none, shown_reveal, value, Manager, Env, persist, issue,
  sched_spin_all,
}
use lost_swan_firmware.Modes.Run.{
  is_idle, is_running, is_zero, is_spin, is_reveal, target_ms, set_phase, note_zero, reveal_frame,
  warn4, warn1, sound_zero,
}

abbrev pub shows : Shown → ℕ → Bool
shows (value v) s = v == s
shows _ s = false

abbrev pub has_value : Shown → Bool
has_value (value v) = true
has_value _ = false

abbrev pub shows_reveal : Shown → Bool
shows_reveal shown_reveal = true
shows_reveal _ = false

unfoldable pub show_value : Env → ℕ → ℕ → Manager → Manager
show_value env utc_ms v m =
    issue env (render_countdown env.ring v m.last_frame) utc_ms 0 (record m { cd_shown = value v })

-- The zero seen on the display.
unfoldable pub zero_moment : Env → ℕ → Manager → Manager
zero_moment env utc_ms m =
    if leb (target_ms m) utc_ms then note_zero env (persist (set_phase CdPhase.zero m)) else m

-- The seconds left, cut to an `int`; a negative one counts as 0 wherever it is used.
abbrev pub rem_s : ℕ → Manager → ℕ
rem_s utc_ms m =
    let cut = (target_ms m - utc_ms + 999) / 1000 % 2 ^ 32 in if ltb cut (2 ^ 31) then cut else 0

unfoldable pub show_window : Env → ℕ → ℕ → Manager → Manager
show_window env utc_ms shown m =
    if not (has_value m.cd_shown) || not m.cfg.cd_land_on_tick && not (shows m.cd_shown shown)
    then show_value env utc_ms shown m
    else m

-- The next value is below what is left, so it does not land before the epoch.
unfoldable pub land_next : Env → ℕ → ℕ → Manager → Manager
land_next env utc_ms shown m =
    let next_shown = countdown_next_shown_s m.cfg.seconds_mode shown m.cfg.seconds_live_s in
    let land = target_ms m - next_shown * 1000 in
    let next = render_countdown env.ring next_shown m.last_frame in
    let due = leb land (utc_ms + lead_ms env.port m.sched next + 700) in
    if m.cfg.cd_land_on_tick && ltb 0 shown && not (m.cd_scheduled_land == land) && due
    then record (issue env next utc_ms land m) {
      cd_scheduled_land = land;
      cd_shown = value next_shown;
    }
    else m

unfoldable pub running_face : Env → ℕ → Manager → Manager
running_face env utc_ms m =
    let left = rem_s utc_ms m in
    let shown = countdown_shown_s m.cfg.seconds_mode (pos left) m.cfg.seconds_live_s in
    let step = countdown_step_s m.cfg.seconds_mode left m.cfg.seconds_live_s in
    land_next env utc_ms shown (show_window env utc_ms shown (record m { cd_step_s = step }))

unfoldable pub zero_face : Env → ℕ → Manager → Manager
zero_face env utc_ms m =
    if is_zero m.cd.phase && not (shows m.cd_shown 0) then show_value env utc_ms 0 m else m

unfoldable pub spin_once : Env → ℕ → Manager → Manager
spin_once env utc_ms m =
    if not m.latches.spin_started
    then sched_spin_all env utc_ms
        (record m { latches = record (m.latches) { spin_started = true } })
    else m

unfoldable pub start_spin : Env → ℕ → Manager → Manager
start_spin env utc_ms m =
    if is_zero m.cd.phase && leb (target_ms m + m.cfg.zero_hold_s * 1000) utc_ms
    then spin_once env utc_ms (set_phase CdPhase.spin m)
    else m

unfoldable pub end_spin : Env → ℕ → Manager → Manager
end_spin env utc_ms m =
    let over = leb (target_ms m + m.cfg.zero_hold_s * 1000 + m.cfg.spin_s * 1000) utc_ms in
    if is_spin m.cd.phase && over
    then persist
        (record (set_phase CdPhase.reveal m) { cd_shown = shown_none; reveal_landed = false })
    else m

unfoldable pub eq_frame : List ℕ → List ℕ → Bool
eq_frame [] [] = true
eq_frame [] (y ∷ ys) = false
eq_frame (x ∷ xs) [] = false
eq_frame (x ∷ xs) (y ∷ ys) = (x == y) && eq_frame xs ys

unfoldable pub show_reveal : Env → ℕ → Manager → Manager
show_reveal env utc_ms m =
    if shows_reveal m.cd_shown
    then m
    else issue env (reveal_frame env m) utc_ms 0 (record m { cd_shown = shown_reveal })

unfoldable pub announce_reveal : Env → Manager → Manager
announce_reveal env m =
    let confirmed =
      m.sched.have_desired
      && eq_frame m.sched.desired (reveal_frame env m)
      && settled env.port m.sched in
    if not m.reveal_landed && confirmed
    then record m { reveal_landed = true; reveal_announce = true }
    else m

unfoldable pub end_reveal : ℕ → Manager → Manager × Option Mode
end_reveal utc_ms m =
    let over =
      leb
        (target_ms m
          + m.cfg.zero_hold_s * 1000
          + m.cfg.spin_s * 1000
          + m.cfg.failure_timeout_s * 1000)
        utc_ms in
    if ltb 0 m.cfg.failure_timeout_s && over
    then (persist (set_phase CdPhase.idle m), some Mode.clock)
    else (m, none)

unfoldable pub reveal_phase : Env → ℕ → Manager → Manager × Option Mode
reveal_phase env utc_ms m =
    if is_reveal m.cd.phase
    then end_reveal utc_ms (announce_reveal env (show_reveal env utc_ms m))
    else (m, none)

-- What follows the deadline, in the order of the code.
unfoldable pub zero_choreography : Env → ℕ → Manager → Manager × Option Mode
zero_choreography env utc_ms m =
    reveal_phase env utc_ms
      (end_spin env utc_ms (start_spin env utc_ms (zero_face env utc_ms (sound_zero m))))

abbrev pub countdown_s : ℕ
countdown_s = 6480

unfoldable pub idle_face : Env → ℕ → Manager → Manager
idle_face env utc_ms m =
    if shows m.cd_shown countdown_s then m else show_value env utc_ms countdown_s m

unfoldable pub running_tick : Env → ℕ → Manager → Manager
running_tick env utc_ms m = zero_moment env utc_ms (warn1 utc_ms (warn4 utc_ms m))

unfoldable pub after_cues : Env → ℕ → Manager → Manager × Option Mode
after_cues env utc_ms m =
    if is_running m.cd.phase
    then (running_face env utc_ms m, none)
    else zero_choreography env utc_ms m

unfoldable pub tick_countdown : Env → ℕ → Manager → Manager × Option Mode
tick_countdown env utc_ms m =
    if is_idle m.cd.phase
    then (idle_face env utc_ms m, none)
    else after_cues env utc_ms (if is_running m.cd.phase then running_tick env utc_ms m else m)

unfoldable pub tick_message : ℕ → Manager → Manager × Option Mode
tick_message utc_ms m =
    if not m.msg.msg_hold && leb_ℤ m.msg.msg_until_ms (pos utc_ms)
    then (record m { msg = record (m.msg) { msg_live = false } }, some m.prev_mode)
    else (m, none)
