-- ===== src/Modes/State.antt =====
-- components/modes/include/modes/mode_manager.h: the state of the mode manager. Its references (the
-- ring tables, the motion port, the time source) are fixed within one call and form `Env`. What it
-- tells the outside is appended to `log`, the latest first. Times are milliseconds from the epoch,
-- deadlines seconds; -1 and other marks of "none" are `none`.
use lost_swan_firmware.Common.{ℕ, Bool, if◌then◌else◌, List, [], ◌∷◌, Option}
use lost_swan_firmware.Common.Int.{ℤ}
use lost_swan_firmware.Frame as Frame
use lost_swan_firmware.Frame.{MotionPort, Command, Scheduler}
use lost_swan_firmware.Ring.{RingSet}
use lost_swan_firmware.Tz.Zone.{TimeZone}
use lost_swan_firmware.Countdown.{SecondsMode}
use Prim.Native.Char.{code}
use Prim.Native.String.{String}

abbrev pub codes : String → List ℕ
codes String.[] = []
codes (String.◌∷◌ c s) = code c ∷ codes s

pub data Mode : Type 0 where
  clock message countdown : Mode

pub data CdPhase : Type 0 where
  idle running zero spin reveal : CdPhase

pub data Cue : Type 0 where
  warn4_min warn1_min system_failure : Cue

pub data Origin : Type 0 where
  unknown ui mqtt cli button ha : Origin

unfoldable pub mode_name : Mode → String
mode_name Mode.clock = "clock"
mode_name Mode.message = "message"
mode_name Mode.countdown = "countdown"

unfoldable pub origin_name : Origin → String
origin_name Origin.unknown = "unknown"
origin_name Origin.ui = "ui"
origin_name Origin.mqtt = "mqtt"
origin_name Origin.cli = "cli"
origin_name Origin.button = "button"
origin_name Origin.ha = "ha"

pub record CdPersist : Type 0 where
  pub phase : CdPhase
  pub target_utc : ℕ
  pub seq : ℕ  -- uint32_t
  pub set_by : Origin

-- The kinds of event that the manager writes.
pub data Kind : Type 0 where
  countdown_execute countdown_start countdown_cancel countdown_zero mode_change maintenance : Kind

-- `who` is empty for an unknown origin; no event of the manager is about a column.
pub record Event : Type 0 where
  pub kind : Kind
  pub utc_s : ℕ
  pub seq : ℕ
  pub who : List ℕ
  pub detail : List ℕ

-- A call out of the manager: commands that the scheduler gave to motion, on a frame (`commanded`) or
-- to spin all columns (`spun`), a cue, a save, an event.
pub data Output : Type 0 where
  commanded spun : List Command → Output
  cued : Cue → Output
  saved : CdPersist → Output
  journalled : Event → Output

pub record ModesConfig : Type 0 where
  pub h24 : Bool
  pub granularity_min : ℕ
  pub seconds_mode : SecondsMode
  pub seconds_live_s : ℕ
  pub wifi_grace_s : ℕ
  pub msg_dwell_s : ℕ
  pub clock_land_on_tick : Bool
  pub cd_land_on_tick : Bool
  pub zero_hold_s : ℕ
  pub spin_s : ℕ
  pub failure_timeout_s : ℕ
  pub alarm_flaps_s : ℕ
  pub reveal : List (Option ℕ)

-- `rendered_key_`: what the clock shows.
pub data RenderedKey : Type 0 where
  render_none render_special : RenderedKey
  window : ℤ → RenderedKey

-- `cd_shown_`: what the countdown shows.
pub data Shown : Type 0 where
  shown_none shown_reveal : Shown
  value : ℕ → Shown

pub record ClockState : Type 0 where
  pub rendered_key : RenderedKey
  pub invalid_since_ms : ℤ
  pub wifi_glyph : Bool

pub record MessageState : Type 0 where
  pub msg_frame : List ℕ
  pub msg_tokens : List (List ℕ)
  pub msg_live : Bool
  pub msg_hold : Bool
  pub msg_until_ms : ℤ

-- The marks of one run: what was sounded and spun.
pub record Latches : Type 0 where
  pub cue_warn4 : Bool
  pub cue_warn1 : Bool
  pub cue_zero : Bool
  pub spin_started : Bool

pub record CalRamp : Type 0 where
  pub active : Bool
  pub column : ℕ
  pub to : ℕ
  pub step : ℕ
  pub dwell_ms : ℕ
  pub next_index : ℕ
  pub due_ms : ℕ
  pub last_stop : Bool

pub record Manager : Type 0 where
  pub cfg : ModesConfig
  pub tz : TimeZone
  pub tz_str : List ℕ
  pub ntp : List ℕ
  pub has_journal : Bool
  pub drivers : Bool
  pub maintenance : Bool
  pub ota_hold : Bool
  pub held : Bool
  pub mode : Mode
  pub prev_mode : Mode
  pub mode_note : Option (List ℕ)
  pub sched : Scheduler
  pub last_frame : List ℕ
  pub clock : ClockState
  pub msg : MessageState
  pub cd : CdPersist
  pub latches : Latches
  pub reveal_landed : Bool
  pub reveal_announce : Bool
  pub cd_shown : Shown
  pub cd_step_s : ℕ
  pub cd_scheduled_land : ℕ
  pub pending_resume : Bool
  pub last_tick_ms : Option ℕ
  pub ramp : CalRamp
  pub log : List Output

pub record Env : Type 0 where
  pub ring : RingSet
  pub port : MotionPort
  pub time_valid : Bool
  pub now_utc : ℕ

unfoldable pub emit : Output → Manager → Manager
emit o m = record m { log = o ∷ m.log }

unfoldable pub persist : Manager → Manager
unfolding emit
persist m = emit (saved m.cd) m

abbrev pub who_of : Origin → List ℕ
who_of Origin.unknown = []
who_of o = codes (origin_name o)

-- `detail` is short enough for its field in every call but that of the Numbers, which `take` cuts.
unfoldable pub note_locked : Env → Kind → List ℕ → ℕ → Origin → Manager → Manager
unfolding emit
note_locked env k detail seq by m =
    if m.has_journal
    then emit
        (journalled (record {
          kind = k;
          utc_s = if env.time_valid then env.now_utc else 0;
          seq = seq;
          who = who_of by;
          detail = detail;
        }))
        m
    else m

-- `sched_.show`, whose commands go out.
unfoldable pub issue : Env → List ℕ → ℕ → ℕ → Manager → Manager
unfolding emit
issue env f utc_ms land_at_ms m =
    let (s, cs) = Frame.show env.port m.sched f utc_ms land_at_ms in
    emit (commanded cs) (record m { last_frame = f; sched = s })

unfoldable pub sched_tick : Env → ℕ → Manager → Manager
unfolding emit
sched_tick env utc_ms m =
    let (s, cs) = Frame.tick env.port m.sched utc_ms in emit (commanded cs) (record m { sched = s })

unfoldable pub sched_spin_all : Env → ℕ → Manager → Manager
unfolding emit
sched_spin_all env utc_ms m =
    let (s, cs) = Frame.spin_all env.port m.sched m.cfg.alarm_flaps_s m.cfg.spin_s utc_ms in
    emit (spun cs) (record m { sched = s })

unfoldable pub render_again : Manager → Manager
render_again m = record m {
  clock = record (m.clock) { rendered_key = render_none };
  cd_shown = shown_none;
}
