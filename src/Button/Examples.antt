-- ===== src/Button/Examples.antt =====
-- The gesture theorems at concrete samples, with the default times of components/button/gesture.h.
use lost_swan_firmware.Common.{ℕ, ◌+◌, ◌≤◌, ◌≡◌, refl, Bool, true, false, List, [], ◌∷◌}
use lost_swan_firmware.Button.{
  no_gesture, press, ButtonGesture, default_config, new_button, feed, gestures_of, feed_steady,
  feed_hold, feed_change,
}
use lost_swan_firmware.Button.Presses.{pending, reported, rises, reported-gestures_of}

abbrev fresh : ButtonGesture
fresh = new_button default_config

abbrev resting : ButtonGesture
resting = record fresh { is_armed = true; have_sample = true }

-- The debounced press of `resting`, ready to become a hold.
abbrev held : ButtonGesture
held = record resting { stable = true; raw = true; changed_at = 100; pressed_at = 150 }

abbrev tap_samples : List (Bool × ℕ)
tap_samples =
    (false, 0) ∷ (true, 100) ∷ (true, 150) ∷ (false, 300) ∷ (false, 350) ∷ (false, 360) ∷ []

reported-gestures_of_example :
    reported (gestures_of fresh tap_samples) ≤ pending fresh + rises fresh tap_samples
reported-gestures_of_example = reported-gestures_of fresh tap_samples

gestures_tap_test :
    gestures_of fresh tap_samples
    ≡ no_gesture ∷ no_gesture ∷ no_gesture ∷ no_gesture ∷ press ∷ no_gesture ∷ []
unfolding gestures_of feed feed_steady feed_change feed_hold
gestures_tap_test = refl
