-- ===== src/Modes/Clock.antt =====
-- components/modes/mode_manager.cpp, the clock mode: the window of time that is shown, and its frames.
use lost_swan_firmware.Common.{
  ℕ, ◌+◌, ◌-◌, ◌*◌, ◌/◌, ◌%◌, Bool, true, false, not, ◌||◌, ltb, if◌then◌else◌,
}
use lost_swan_firmware.Common.Int.{ℤ, pos, negsuc, pos_part, ◌+ℤ◌, ◌-ℤ◌, ◌*ℤ◌, leb_ℤ, eq_ℤ}
use lost_swan_firmware.Tz.Zone.{LocalTime, to_local}
use lost_swan_firmware.Modes.Render.{render_blank, render_wifi, render_clock}
use lost_swan_firmware.Modes.State.{
  RenderedKey, render_none, render_special, window, Manager, Env, issue,
}

unfoldable pub clamp_granularity : ℕ → ℕ
clamp_granularity g = if ltb g 1 then 1 else if ltb 60 g then 60 else g

unfoldable pub floor_to : LocalTime → ℕ → LocalTime
floor_to lt g = record lt { minute = pos (pos_part lt.minute / g * g); second = pos 0 }

unfoldable pub local_key : LocalTime → ℤ
local_key lt =
    (((lt.year *ℤ pos 12 +ℤ pos lt.month) *ℤ pos 31 +ℤ pos lt.day) *ℤ pos 24 +ℤ lt.hour) *ℤ pos 60
    +ℤ lt.minute

-- The minutes left of the window are at least one, more than the seconds that have passed of it.
unfoldable pub next_boundary_ms : ℕ → LocalTime → ℕ → ℕ
next_boundary_ms utc_ms now g =
    let into = pos_part now.minute % g in
    (utc_ms / 1000 + ((g - into) * 60 - pos_part now.second)) * 1000

abbrev pub is_render_none : RenderedKey → Bool
is_render_none render_none = true
is_render_none _ = false

-- A key of a window counts minutes from the year 0, so it is not negative.
abbrev pub is_fresh : RenderedKey → Bool
is_fresh (window k) = false
is_fresh _ = true

abbrev pub shows_window : RenderedKey → ℤ → Bool
shows_window (window k) key = eq_ℤ key k
shows_window _ key = false

abbrev pub differ : Bool → Bool → Bool
differ true b = not b
differ false b = b

abbrev pub is_negative : ℤ → Bool
is_negative (pos n) = false
is_negative (negsuc n) = true

-- Blank drums, and the WiFi glyph once the grace is over.
unfoldable pub clock_unsynced : Env → ℕ → Manager → Manager
clock_unsynced env utc_ms m =
    let since =
      if is_negative m.clock.invalid_since_ms then pos utc_ms else m.clock.invalid_since_ms in
    let grace_over = leb_ℤ (pos (m.cfg.wifi_grace_s * 1000)) (pos utc_ms -ℤ since) in
    let frame =
      if grace_over
      then render_wifi env.ring m.last_frame
      else render_blank env.ring m.last_frame in
    if differ grace_over m.clock.wifi_glyph || is_render_none m.clock.rendered_key
    then issue env frame utc_ms 0 (record m {
      clock = record {
        rendered_key = render_special;
        invalid_since_ms = since;
        wifi_glyph = grace_over;
      };
    })
    else record m { clock = record (m.clock) { invalid_since_ms = since } }

-- In land-on-tick mode the frame of the next window, to land on its boundary.
unfoldable pub clock_land : Env → ℕ → LocalTime → ℕ → Manager → Manager
clock_land env utc_ms now g m =
    let next_ms = next_boundary_ms utc_ms now g in
    let nx = floor_to (to_local m.tz (pos (next_ms / 1000))) g in
    if m.cfg.clock_land_on_tick
    then issue env (render_clock env.ring nx m.cfg.h24 m.last_frame) utc_ms next_ms m
    else m

unfoldable pub clock_show : Env → ℕ → LocalTime → Bool → Manager → Manager
clock_show env utc_ms shown fresh_entry m =
    if not m.cfg.clock_land_on_tick || fresh_entry
    then issue env (render_clock env.ring shown m.cfg.h24 m.last_frame) utc_ms 0 m
    else m

unfoldable pub clock_synced : Env → ℕ → Manager → Manager
clock_synced env utc_ms m =
    let g = clamp_granularity m.cfg.granularity_min in
    let now = to_local m.tz (pos (utc_ms / 1000)) in
    let shown = floor_to now g in
    let key = local_key shown in
    let fresh_entry = is_fresh m.clock.rendered_key in
    let dark = record m { clock = record (m.clock) { wifi_glyph = false } } in
    let marked = record m {
      clock = record (m.clock) { wifi_glyph = false; rendered_key = window key };
    } in
    if shows_window m.clock.rendered_key key
    then dark
    else clock_land env utc_ms now g (clock_show env utc_ms shown fresh_entry marked)

unfoldable pub tick_clock : Env → ℕ → Manager → Manager
tick_clock env utc_ms m =
    if env.time_valid then clock_synced env utc_ms m else clock_unsynced env utc_ms m
