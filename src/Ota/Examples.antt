-- ===== src/Ota/Examples.antt =====
-- The update theorems of components/webapi/ota_policy.cpp at concrete images and boots.
use lost_swan_firmware.Common.{
  ◌⊎◌, ℕ, ◌≡◌, refl, true, false, List, [], ◌∷◌, replicate, some, arith,
}
use lost_swan_firmware.Ota.{
  ImageInfo, no_image, allow, OtaPrecheck, soft_gate, ota_gate, same_text, BootHealth, ota_evaluate,
  rel, ota_chip_id_esp32c5,
}
use lost_swan_firmware.Ota.Image.{sniff_image, byte_at, rd32}
use lost_swan_firmware.Ota.Image.Layout.{tagged, image_bytes, sniff_image_version}
use lost_swan_firmware.Ota.Gate.{ota_gate_allow}
use lost_swan_firmware.Ota.Boot.{Sample, Watcher, on_verdict, watch_step, watch}

-- "xiao" and "swan"
abbrev xiao : List ℕ
xiao = 120 ∷ 105 ∷ 97 ∷ 111 ∷ []

abbrev swan : List ℕ
swan = 115 ∷ 119 ∷ 97 ∷ 110 ∷ []

abbrev release_image : ImageInfo
release_image = record no_image {
  parsed = true;
  chip_id = ota_chip_id_esp32c5;
  project_name = swan;
  board = xiao;
  flavour = rel;
}

abbrev quiet_board : OtaPrecheck
quiet_board = record {
  image = release_image;
  running_project = swan;
  running_board = xiao;
  all_axes_idle = true;
  maintenance = false;
  running_pending_verify = false;
  any_simulated_column = false;
  free_heap = 90000;
  force = false;
}

quiet_board_test : ota_gate quiet_board ≡ allow
unfolding ota_gate soft_gate same_text
quiet_board_test = refl

ota_gate_allow_example :
    (true ≡ true)
    × (ota_chip_id_esp32c5 ≡ ota_chip_id_esp32c5)
    × ((swan ≡ []) ⊎ (swan ≡ swan))
    × (false ≡ false)
    × ((true ≡ true) ⊎ (false ≡ true))
    × ((false ≡ true)
        ⊎ (((xiao ≡ []) ⊎ (xiao ≡ []) ⊎ (xiao ≡ xiao))
            × ((false ≡ false) ⊎ (same_text rel rel ≡ false))))
ota_gate_allow_example = ota_gate_allow quiet_board quiet_board_test

abbrev simulated_board : OtaPrecheck
simulated_board = record quiet_board { any_simulated_column = true }

abbrev starting : BootHealth
starting = record {
  app_main_completed = true;
  config_ok = true;
  nvs_was_erased = true;
  httpd_ok = false;
  modes_ticks = 100;
  motion_ticks = 5000;
  uptime_s = 5;
}

abbrev started : BootHealth
started = record starting {
  httpd_ok = true;
  modes_ticks = 240;
  motion_ticks = 12000;
  uptime_s = 12;
}

-- The first mark fails; much later the web server goes down.
abbrev unmarked : Sample
unmarked = record { health = started; marks_valid = false; reboots = true }

abbrev marked : Sample
marked = record { health = started; marks_valid = true; reboots = true }

abbrev broken : Sample
broken = record {
  health = record started { httpd_ok = false; uptime_s = 500 };
  marks_valid = true;
  reboots = true;
}

abbrev on_trial : Watcher
on_trial = record { pending_verify = true; boot_verdict = "wait"; rollbacks = 0; gone = false }

-- An image whose web server never comes up is rolled back at the deadline.
abbrev failing : Sample
failing = record {
  health = record started { httpd_ok = false; uptime_s = 120 };
  marks_valid = true;
  reboots = true;
}

failing_rolls_back : (watch (failing ∷ marked ∷ []) on_trial).rollbacks ≡ 1
unfolding watch watch_step on_verdict ota_evaluate
failing_rolls_back = refl

abbrev two_headers : List ℕ
two_headers = 233 ∷ replicate 31 0

abbrev desc_start : List ℕ
desc_start = 50 ∷ 84 ∷ 205 ∷ 171 ∷ replicate 12 0

abbrev base : List ℕ
base = 48 ∷ 46 ∷ 52 ∷ 46 ∷ 48 ∷ []

sniff_image_version_example :
    let info =
      sniff_image
        (some (image_bytes two_headers desc_start (tagged base xiao rel) (replicate 300 0))) in
    (info.parsed ≡ true)
    × (info.version ≡ tagged base xiao rel)
    × (info.board ≡ xiao)
    × (info.flavour ≡ rel)
unfolding byte_at rd32
sniff_image_version_example =
    sniff_image_version two_headers desc_start base xiao rel (replicate 300 0) refl refl refl refl
      (omega arith) (omega arith) refl refl refl
