-- ===== src/Modes/Commands.antt =====
-- components/modes/mode_manager.cpp: the boot, the settings, and the commands of the modes and the
-- countdown. What the store holds at boot is an argument. A command is `none` where its tick ran out
-- of fuel.
use lost_swan_firmware.Common.{
  ℕ, suc, ◌+◌, ◌*◌, ◌/◌, ◌%◌, ◌^◌, Bool, true, false, not, ◌&&◌, ◌||◌, ltb, leb, ◌==◌,
  if◌then◌else◌, List, [], ◌∷◌, Option, none, some, get_elem?, take,
}
use lost_swan_firmware.Common.Int.{ℤ, pos, negsuc, leb_ℤ}
use lost_swan_firmware.Ring.{col, index_for_token}
use lost_swan_firmware.Tz.Zone.{TimeZone}
use lost_swan_firmware.Tz.Parse.{Parsed, fail, ok, parse}
use lost_swan_firmware.Modes.State.{
  Mode, CdPhase, CdPersist, Origin, Kind, countdown_execute, countdown_start, countdown_cancel,
  maintenance, render_none, shown_none, ModesConfig, Manager, Env, persist, note_locked, issue,
  render_again, codes,
}
use lost_swan_firmware.Modes.Run.{is_idle, countdown_arm, countdown_resume}
use lost_swan_firmware.Modes.Face.{countdown_s}
use lost_swan_firmware.Modes.Tick.{cancel, is_countdown, and_then, tick, enter_mode}
use lost_swan_firmware.Modes.Numbers.{numbers_valid}
use Prim.Native.String.{String}

pub data Result : Type 0 where
  accepted : Result
  refused : String → Result

abbrev pub Answer : Type 0
Answer = Option (Manager × Result)

abbrev pub accept : Option Manager → Answer
accept none = none
accept (some m) = some (m, accepted)

abbrev pub refuse : String → Manager → Answer
refuse why m = some (m, refused why)

unfoldable pub set_config : ModesConfig → Manager → Manager
set_config c m = record m { cfg = c }

abbrev pub adopt_zone : List ℕ → Manager → Parsed TimeZone → Manager × Bool
adopt_zone posix m (fail why) = (m, false)
adopt_zone posix m (ok tz) = (
  record m { tz = tz; tz_str = posix; clock = record (m.clock) { rendered_key = render_none } },
  true,
)

unfoldable pub set_tz : List ℕ → Manager → Manager × Bool
set_tz posix m = adopt_zone posix m (parse posix)

unfoldable pub set_ntp : List ℕ → Manager → Manager
set_ntp server m = record m { ntp = server }

unfoldable pub set_drivers_enabled : Bool → Manager → Manager
set_drivers_enabled on m = record m { drivers = on }

unfoldable pub set_journal : Bool → Manager → Manager
set_journal there m = record m { has_journal = there }

unfoldable pub take_reveal_landed : Manager → Manager × Bool
take_reveal_landed m = (record m { reveal_announce = false }, m.reveal_announce)

module _ (env : Env) (utc_ms : ℕ) where
  abbrev pub resumed : CdPersist → Manager → Option Manager
  resumed p m =
      let adopted = record m { cd = p } in
      elim env.time_valid [
        | true ↦ enter_mode env utc_ms Mode.countdown (countdown_resume env utc_ms adopted)
        | false ↦ enter_mode env utc_ms Mode.clock (record adopted { pending_resume = true })
      ]

  abbrev pub is_live : CdPersist → Bool
  is_live p = not (is_idle p.phase) && ltb 0 p.target_utc

  -- `stored` is what the store loads; a stored deadline that is negative counts as 0.
  unfoldable pub begin : Option CdPersist → Manager → Option Manager
  begin none m = enter_mode env utc_ms Mode.clock m
  begin (some p) m = elim (is_live p) [
    | true ↦ resumed p m
    | false ↦ enter_mode env utc_ms Mode.clock m
  ]

  abbrev pub again : Manager → Manager
  again m = record (render_again m) { cd_scheduled_land = 0 }

  abbrev pub same_flag : Bool → Bool → Bool
  same_flag true b = b
  same_flag false b = not b

  unfoldable pub cmd_maintenance : Bool → Manager → Answer
  cmd_maintenance on m =
      let noted =
        note_locked env maintenance (codes (if on then "on" else "off")) 0 Origin.unknown
          (record m { maintenance = on }) in
      elim (same_flag m.maintenance on) [
        | true ↦ some (m, accepted)
        | false ↦ elim on [
          | true ↦ some (cancel noted, accepted)
          | false ↦ accept (tick env utc_ms (again noted))
        ]
      ]

  unfoldable pub cmd_ota_hold : Bool → Manager → Answer
  cmd_ota_hold on m = elim (same_flag m.ota_hold on) [
    | true ↦ some (m, accepted)
    | false ↦ elim on [
      | true ↦ some (cancel (record m { ota_hold = true }), accepted)
      | false ↦ accept (tick env utc_ms (record m { ota_hold = false }))
    ]
  ]

  unfoldable pub cmd_set_excluded : ℕ → Manager → Answer
  cmd_set_excluded mask m =
      let masked = render_again (record m { sched = record (m.sched) { excluded = mask } }) in
      elim (m.sched.excluded == mask) [
        | true ↦ some (m, accepted)
        | false ↦ elim m.maintenance [
          | true ↦ some (masked, accepted)
          | false ↦ accept (tick env utc_ms masked)
        ]
      ]

  -- `enter_mode`, then the frame of the message.
  unfoldable pub enter_message : Manager → Answer
  enter_message m = accept (
      and_then (enter_mode env utc_ms Mode.message m)
        (λ n. some (issue env n.msg.msg_frame utc_ms 0 n)))

  abbrev pub no_message : Manager → Bool
  no_message m = not m.msg.msg_live || (not m.msg.msg_hold && leb_ℤ m.msg.msg_until_ms (pos utc_ms))

  unfoldable pub cmd_mode_set : Mode → Manager → Answer
  cmd_mode_set Mode.message m = elim (no_message m) [
    | true ↦ refuse "no message set" m
    | false ↦ enter_message m
  ]
  cmd_mode_set Mode.clock m = accept (enter_mode env utc_ms Mode.clock m)
  cmd_mode_set Mode.countdown m = accept (enter_mode env utc_ms Mode.countdown m)

  -- The slots of the five tokens, each searched forward from where its column stands.
  unfoldable pub token_frame : ℕ → List (List ℕ) → List ℕ → Option (List ℕ)
  token_frame i [] from = some []
  token_frame i (tok ∷ toks) from =
      let rest = token_frame (suc i) toks from in
      elim (index_for_token (col env.ring i) tok (get_elem? from i)) [
        | none ↦ none
        | some idx ↦ elim rest [ none ↦ none | some f ↦ some (idx ∷ f) ]
      ]

  abbrev pub with_message : List (List ℕ) → ℕ → Bool → List ℕ → Manager → Manager
  with_message tokens dwell_s hold f m =
      let dwell = if ltb 0 dwell_s then dwell_s else m.cfg.msg_dwell_s in
      record m {
        msg = record {
          msg_frame = f;
          msg_tokens = tokens;
          msg_live = true;
          msg_hold = hold;
          msg_until_ms = pos (utc_ms + dwell * 1000);
        };
      }

  -- A dwell that is not positive asks for the one that is set; it is 0 here.
  unfoldable pub cmd_message_set : List (List ℕ) → ℕ → Bool → Manager → Answer
  cmd_message_set tokens dwell_s hold m = elim (token_frame 0 tokens m.last_frame) [
    | none ↦ refuse "unknown token" m
    | some f ↦ enter_message (with_message tokens dwell_s hold f m)
  ]

  unfoldable pub start_locked : Origin → Kind → List ℕ → Manager → Answer
  start_locked by kind detail m = elim env.time_valid [
    | false ↦ refuse "time not synced" m
    | true ↦ accept (
        and_then
          (enter_mode env utc_ms Mode.countdown
            (countdown_arm env (utc_ms / 1000 + countdown_s) utc_ms by m))
          (λ n. some (note_locked env kind detail n.cd.seq by n)))
  ]

  -- The field of the event holds 39 characters.
  unfoldable pub cmd_countdown_execute : List ℕ → Origin → Manager → Answer
  cmd_countdown_execute numbers by m = elim (numbers_valid numbers) [
    | false ↦ refuse "rejected" m
    | true ↦ start_locked by countdown_execute (take 39 numbers) m
  ]

  unfoldable pub cmd_countdown_start : Origin → Manager → Answer
  cmd_countdown_start by m = start_locked by countdown_start [] m

  unfoldable pub cmd_countdown_cancel : Origin → Manager → Answer
  cmd_countdown_cancel by m =
      let cancelled = persist (record m {
        cd = record (m.cd) { phase = CdPhase.idle; set_by = by; seq = (m.cd.seq + 1) % 2 ^ 32 };
        cd_shown = shown_none;
      }) in
      let noted = note_locked env countdown_cancel [] cancelled.cd.seq by cancelled in
      elim (is_countdown m.mode) [
        | true ↦ accept (tick env utc_ms noted)
        | false ↦ some (noted, accepted)
      ]

  abbrev pub max_target_ahead_s : ℕ
  max_target_ahead_s = 86400

  abbrev pub out_of_range : ℕ → Bool
  out_of_range target_utc =
      leb target_utc (utc_ms / 1000) || ltb (utc_ms / 1000 + max_target_ahead_s) target_utc

  abbrev pub set_target : ℕ → Origin → Manager → Answer
  set_target target_utc by m = elim env.time_valid [
    | false ↦ refuse "time not synced" m
    | true ↦ elim (out_of_range target_utc) [
      | true ↦ refuse "epoch out of range" m
      | false ↦
          accept (enter_mode env utc_ms Mode.countdown (countdown_arm env target_utc utc_ms by m))
    ]
  ]

  unfoldable pub cmd_countdown_set_target : ℤ → Origin → Manager → Answer
  cmd_countdown_set_target (negsuc n) by m = refuse "bad epoch" m
  cmd_countdown_set_target (pos target_utc) by m = elim (target_utc == 0) [
    | true ↦ refuse "bad epoch" m
    | false ↦ set_target target_utc by m
  ]
