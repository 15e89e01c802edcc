-- ===== src/Modes/Displays.antt =====
-- components/modes/mode_manager.cpp: the commands that show a frame, walk a column for its
-- calibration or swap the ring; the staged ring is an argument.
use lost_swan_firmware.Common.{
  ℕ, suc, ◌*◌, Bool, true, false, ◌||◌, ltb, leb, ◌==◌, if◌then◌else◌, List, [], ◌∷◌, Option, none,
  some, test_bit,
}
use lost_swan_firmware.Ring.{RingSet, col, slot_count}
use lost_swan_firmware.Motion.Geometry.{n_columns}
use lost_swan_firmware.Modes.Render.{render_blank, render_wifi, render_qmarks}
use lost_swan_firmware.Modes.State.{
  Mode, render_none, shown_none, Manager, Env, issue, render_again,
}
use lost_swan_firmware.Modes.Run.{is_running, reveal_frame}
use lost_swan_firmware.Modes.Tick.{same_mode, tick}
use Prim.Native.String.{String}
use text.Mathlib.Text.{◌==◌ as str_eq}
use lost_swan_firmware.Modes.Commands.{accepted, Answer, accept, refuse, again, enter_message}

module _ (env : Env) (utc_ms : ℕ) where
  abbrev pub preset_frame : String → Manager → Option (List ℕ)
  preset_frame name m =
      if str_eq name "qmarks"
      then some (render_qmarks env.ring m.last_frame)
      else if str_eq name "blank"
      then some (render_blank env.ring m.last_frame)
      else if str_eq name "wifi"
      then some (render_wifi env.ring m.last_frame)
      else if str_eq name "reveal"
      then some (reveal_frame env m)
      else none

  unfoldable pub cmd_preset : String → Manager → Answer
  cmd_preset name m = elim (preset_frame name m) [
    | none ↦ refuse "unknown preset" m
    | some f ↦
        enter_message env utc_ms
          (record m { msg = record (m.msg) { msg_frame = f; msg_live = true; msg_hold = true } })
  ]

  -- An index that is negative is `none`.
  unfoldable pub frame_in_range : ℕ → List (Option ℕ) → Option (List ℕ)
  frame_in_range i [] = some []
  frame_in_range i (none ∷ f) = none
  frame_in_range i (some idx ∷ f) =
      let rest = frame_in_range (suc i) f in
      elim (ltb idx (slot_count (col env.ring i))) [
        | false ↦ none
        | true ↦ elim rest [ none ↦ none | some g ↦ some (idx ∷ g) ]
      ]

  unfoldable pub cmd_display_frame : List (Option ℕ) → Manager → Answer
  cmd_display_frame f m = elim (frame_in_range 0 f) [
    | none ↦ refuse "index out of range" m
    | some g ↦ some (
      record (issue env g utc_ms 0 m) {
        cd_scheduled_land = 0;
        cd_shown = if is_running m.cd.phase then shown_none else m.cd_shown;
      },
      accepted,
    )
  ]

  -- The arguments are numbers: a negative one is refused by the same tests as one too large, a
  -- negative step as the step 0.
  abbrev pub ramp_refusal : ℕ → ℕ → ℕ → ℕ → ℕ → Manager → Option String
  ramp_refusal column from to step dwell_s m =
      let n = slot_count (col env.ring column) in
      if leb n_columns column
      then some "bad column"
      else if test_bit m.sched.excluded column
      then some "that column is disabled - nothing would move"
      else if leb n from || leb n to
      then some "index out of range"
      else if ltb step 1 || ltb n step
      then some "bad step"
      else if ltb 600 dwell_s
      then some "bad dwell"
      else none

  unfoldable pub cmd_cal_ramp : ℕ → ℕ → ℕ → ℕ → ℕ → Manager → Answer
  cmd_cal_ramp column from to step dwell_s m = elim (ramp_refusal column from to step dwell_s m) [
    | some why ↦ refuse why m
    | none ↦ accept (
        tick env utc_ms (record m {
          ramp = record {
            active = true;
            column = column;
            to = to;
            step = step;
            dwell_ms = dwell_s * 1000;
            next_index = from;
            due_ms = utc_ms;
            last_stop = from == to;
          };
        }))
  ]

  unfoldable pub cmd_cal_ramp_stop : Manager → Answer
  cmd_cal_ramp_stop m = elim m.ramp.active [
    | true ↦
        accept
          (tick env utc_ms (render_again (record m { ramp = record (m.ramp) { active = false } })))
    | false ↦ some (m, accepted)
  ]

  unfoldable pub cmd_clock_format : Bool → Manager → Answer
  cmd_clock_format h24 m =
      let changed = record m {
        cfg = record (m.cfg) { h24 = h24 };
        clock = record (m.clock) { rendered_key = render_none };
      } in
      elim (same_mode m.mode Mode.clock) [
        | true ↦ accept (tick env utc_ms changed)
        | false ↦ some (changed, accepted)
      ]

-- `swap` gives the ring that was staged, if one was; the tick then renders from it.
unfoldable pub cmd_ring_swap : Env → ℕ → Option RingSet → Manager → Answer
cmd_ring_swap env utc_ms none m = some (m, accepted)
cmd_ring_swap env utc_ms (some ring) m =
    accept (tick (record env { ring = ring }) utc_ms (again env utc_ms m))
