-- ===== src/Ota.antt =====
-- components/webapi/ota_policy.cpp and ota_policy.h: may this image be installed now, and has the new
-- image earned its place. Strings and image data are lists of byte values; a null pointer is `none`.
pub mod Image
pub mod Gate
pub mod Boot
mod Examples
use lost_swan_firmware.Common.{
  is_empty, ℕ, suc, ◌+◌, Bool, true, false, not, ◌&&◌, ◌||◌, ltb, leb, ◌==◌, if◌then◌else◌, List,
  [], ◌∷◌,
}
use Prim.Native.String.{String}

pub record ImageInfo : Type 0 where
  pub parsed : Bool
  pub chip_id : ℕ
  pub min_chip_rev_full : ℕ
  pub max_chip_rev_full : ℕ
  pub project_name : List ℕ
  pub version : List ℕ
  pub idf_ver : List ℕ
  pub board : List ℕ
  pub flavour : List ℕ

abbrev pub no_image : ImageInfo
no_image = record {
  parsed = false;
  chip_id = 65535;
  min_chip_rev_full = 0;
  max_chip_rev_full = 0;
  project_name = [];
  version = [];
  idf_ver = [];
  board = [];
  flavour = [];
}

-- ESP_CHIP_ID_ESP32C5, 0x0017.
abbrev pub ota_chip_id_esp32c5 : ℕ
ota_chip_id_esp32c5 = 23

pub data OtaVerdict : Type 0 where
  allow bad_image wrong_chip wrong_project wrong_board loses_simulation moving pending_verify
        no_room :
      OtaVerdict

unfoldable pub ota_verdict_name : OtaVerdict → String
ota_verdict_name allow = "allow"
ota_verdict_name bad_image = "bad_image"
ota_verdict_name wrong_chip = "wrong_chip"
ota_verdict_name wrong_project = "wrong_project"
ota_verdict_name wrong_board = "wrong_board"
ota_verdict_name loses_simulation = "loses_simulation"
ota_verdict_name moving = "moving"
ota_verdict_name pending_verify = "pending_verify"
ota_verdict_name no_room = "no_room"

unfoldable pub ota_verdict_reason : OtaVerdict → String
ota_verdict_reason allow = "ok"
ota_verdict_reason bad_image = "not an ESP-IDF application image"
ota_verdict_reason wrong_chip = "built for a different chip"
ota_verdict_reason wrong_project = "a different firmware entirely"
ota_verdict_reason wrong_board =
    "built for the other board's pin map - it would drive STEP on the wrong GPIOs. Send {\"force\":true} if you mean it"
ota_verdict_reason loses_simulation =
    "a release image cannot simulate, and this board has simulated columns saved: they would come back as real, fault unwired, and drop EN, with no way to set them back. Send {\"force\":true} if you mean it"
ota_verdict_reason moving = "a column is still moving; wait for it to settle or enter maintenance"
ota_verdict_reason pending_verify =
    "the running image has not confirmed itself yet - wait a few seconds"
ota_verdict_reason no_room = "not enough free heap to run an update safely"

pub record OtaPrecheck : Type 0 where
  pub image : ImageInfo
  pub running_project : List ℕ
  pub running_board : List ℕ
  pub all_axes_idle : Bool
  pub maintenance : Bool
  pub running_pending_verify : Bool
  pub any_simulated_column : Bool
  pub free_heap : ℕ
  pub force : Bool

unfoldable pub same_text : List ℕ → List ℕ → Bool
same_text [] [] = true
same_text [] (d ∷ t) = false
same_text (c ∷ s) [] = false
same_text (c ∷ s) (d ∷ t) = (c == d) && same_text s t

-- "rel"
abbrev pub rel : List ℕ
rel = 114 ∷ 101 ∷ 108 ∷ []

abbrev pub is_other_board : OtaPrecheck → Bool
is_other_board p =
    not (is_empty p.image.board)
    && not (is_empty p.running_board)
    && not (same_text p.image.board p.running_board)

abbrev pub drops_simulation : OtaPrecheck → Bool
drops_simulation p = p.any_simulated_column && same_text p.image.flavour rel

-- The two refusals that the version tag decides, which `force` overrides.
unfoldable pub soft_gate : OtaPrecheck → OtaVerdict
soft_gate p =
    if p.force
    then allow
    else if is_other_board p
    then wrong_board
    else if drops_simulation p
    then loses_simulation
    else allow

unfoldable pub ota_gate : OtaPrecheck → OtaVerdict
unfolding soft_gate
ota_gate p =
    if not p.image.parsed
    then bad_image
    else if not (p.image.chip_id == ota_chip_id_esp32c5)
    then wrong_chip
    else if not (is_empty p.running_project)
        && not (same_text p.image.project_name p.running_project)
    then wrong_project
    else if p.running_pending_verify
    then pending_verify
    else if not p.all_axes_idle && not p.maintenance
    then moving
    else if not (p.free_heap == 0) && ltb p.free_heap 40000
    then no_room
    else soft_gate p

pub record BootHealth : Type 0 where
  pub app_main_completed : Bool
  pub config_ok : Bool
  pub nvs_was_erased : Bool
  pub httpd_ok : Bool
  pub modes_ticks : ℕ
  pub motion_ticks : ℕ
  pub uptime_s : ℕ

abbrev pub ota_min_modes_ticks : ℕ
ota_min_modes_ticks = 200

abbrev pub ota_min_motion_ticks : ℕ
ota_min_motion_ticks = 10000

abbrev pub ota_confirm_deadline_s : ℕ
ota_confirm_deadline_s = 120

pub data BootVerdict : Type 0 where
  wait confirm rollback : BootVerdict

unfoldable pub boot_verdict_name : BootVerdict → String
boot_verdict_name wait = "wait"
boot_verdict_name confirm = "confirm"
boot_verdict_name rollback = "rollback"

abbrev pub is_healthy : BootHealth → Bool
is_healthy h =
    h.app_main_completed
    && h.config_ok
    && h.httpd_ok
    && leb ota_min_modes_ticks h.modes_ticks
    && leb ota_min_motion_ticks h.motion_ticks

unfoldable pub ota_evaluate : BootHealth → BootVerdict
ota_evaluate h =
    if is_healthy h
    then confirm
    else if leb ota_confirm_deadline_s h.uptime_s
    then rollback
    else wait
