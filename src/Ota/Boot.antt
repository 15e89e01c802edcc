-- ===== src/Ota/Boot.antt =====
-- components/net/ota.cpp, `watcher_task`: the samples of a boot, and what the verdict of
-- components/webapi/ota_policy.cpp on each comes to. What the calls of ESP-IDF return is part of a
-- sample.
use lost_swan_firmware.Common.{
  ℕ, suc, ◌≤◌, ◌<◌, ◌≡◌, ◌⊎◌, Bool, true, false, not, if◌then◌else◌, List, [], ◌∷◌,
}
use lost_swan_firmware.Ota.{
  BootHealth, BootVerdict, wait, confirm, rollback, ota_evaluate, boot_verdict_name,
}
use Prim.Native.String.{String}

-- The health that is read, whether marking the image valid succeeds, and whether a rollback does
-- reboot.
pub record Sample : Type 0 where
  pub health : BootHealth
  pub marks_valid : Bool
  pub reboots : Bool

pub record Watcher : Type 0 where
  pub pending_verify : Bool
  pub boot_verdict : String
  pub rollbacks : ℕ
  pub gone : Bool

-- A failed mark leaves the image pending, so that the next sample is judged again.
unfoldable pub on_verdict : BootVerdict → Sample → Watcher → Watcher
on_verdict wait s w = w
on_verdict confirm s w = if s.marks_valid then record w { pending_verify = false } else w
on_verdict rollback s w = record w { rollbacks = suc w.rollbacks; gone = s.reboots }

unfoldable pub watch_step : Sample → Watcher → Watcher
watch_step s w =
    let v = ota_evaluate s.health in
    if not w.pending_verify
    then w
    else on_verdict v s (record w { boot_verdict = boot_verdict_name v })

unfoldable pub watch : List Sample → Watcher → Watcher
watch [] w = w
watch (s ∷ samples) w = let rest = watch samples (watch_step s w) in if w.gone then w else rest

-- Start-up is complete, with the settings loaded and the web server up; the mode manager has ticked
-- 200 times and the control task 10000 times.
abbrev pub Works : BootHealth → Type 0
Works h =
    (h.app_main_completed ≡ true)
    × (h.config_ok ≡ true)
    × (h.httpd_ok ≡ true)
    × (200 ≤ h.modes_ticks)
    × (10000 ≤ h.motion_ticks)

abbrev pub IsSafe : Sample → Type 0
IsSafe s = Works s.health ⊎ (s.health.uptime_s < 120)

-- Confirmed, with no rollback more than before.
abbrev pub Confirmed : ℕ → Watcher → Type 0
Confirmed rollbacks w = (w.pending_verify ≡ false) × (w.rollbacks ≡ rollbacks) × (w.gone ≡ false)

-- Not yet, or confirmed.
abbrev Sound : ℕ → Watcher → Type 0
Sound rollbacks w = (w.rollbacks ≡ rollbacks) × (w.gone ≡ false)
