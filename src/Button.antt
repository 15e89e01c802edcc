-- ===== src/Button.antt =====
-- components/button/gesture.cpp and gesture.h: what the one panel button means. Clock readings are
-- numbers; a duration is compared without a subtraction, so a clock that stood back would be read
-- as in C, where the difference has a sign.
pub mod Presses
pub mod Noise
pub mod Taps
mod Examples
use lost_swan_firmware.Common.{
  ℕ, ◌+◌, Bool, true, false, not, ◌&&◌, leb, if◌then◌else◌, List, [], ◌∷◌,
}

pub data Gesture : Type 0 where
  no_gesture press hold : Gesture

pub record GestureConfig : Type 0 where
  pub debounce_ms : ℕ
  pub hold_ms : ℕ

pub record ButtonGesture : Type 0 where
  pub cfg : GestureConfig
  pub is_armed : Bool
  pub stable : Bool
  pub raw : Bool
  pub hold_fired : Bool
  pub changed_at : ℕ
  pub pressed_at : ℕ
  pub have_sample : Bool

abbrev pub default_config : GestureConfig
default_config = record { debounce_ms = 40; hold_ms = 2000 }

abbrev pub new_button : GestureConfig → ButtonGesture
new_button cfg = record {
  cfg = cfg;
  is_armed = false;
  stable = false;
  raw = false;
  hold_fired = false;
  changed_at = 0;
  pressed_at = 0;
  have_sample = false;
}

unfoldable pub armed : ButtonGesture → Bool
armed b = b.is_armed

unfoldable pub down : ButtonGesture → Bool
down b = b.is_armed && b.stable

abbrev pub differs : Bool → Bool → Bool
differs true b = not b
differs false b = b

-- The last `if` of `feed`: a debounced press that has lasted.
unfoldable pub feed_hold : ButtonGesture → ℕ → ButtonGesture × Gesture
feed_hold b now_ms =
    if b.is_armed && b.stable && not b.hold_fired && leb (b.pressed_at + b.cfg.hold_ms) now_ms
    then (record b { hold_fired = true }, hold)
    else (b, no_gesture)

-- The debounced level changes to `raw`.
unfoldable pub feed_change : ButtonGesture → ℕ → ButtonGesture × Gesture
unfolding feed_hold
feed_change b now_ms =
    if b.raw
    then feed_hold (record b { stable = true; pressed_at = now_ms; hold_fired = false }) now_ms
    else (
      record b { stable = false; is_armed = true },
      if b.is_armed && not b.hold_fired then press else no_gesture,
    )

-- The raw level has been steady since `changed_at`.
unfoldable pub feed_steady : ButtonGesture → ℕ → ButtonGesture × Gesture
unfolding feed_change feed_hold
feed_steady b now_ms =
    let settled = leb (b.changed_at + b.cfg.debounce_ms) now_ms in
    if settled && differs b.raw b.stable then feed_change b now_ms else feed_hold b now_ms

unfoldable pub feed : ButtonGesture → Bool → ℕ → ButtonGesture × Gesture
unfolding feed_steady
feed b pressed now_ms =
    let first = record b {
      have_sample = true;
      raw = pressed;
      stable = pressed;
      changed_at = now_ms;
      pressed_at = now_ms;
      is_armed = not pressed;
    } in
    if not b.have_sample
    then (first, no_gesture)
    else if differs pressed b.raw
    then (record b { raw = pressed; changed_at = now_ms }, no_gesture)
    else feed_steady b now_ms

-- The shell feeds one sample after another; the gestures come out oldest first.
unfoldable pub run_feed : ButtonGesture → List (Bool × ℕ) → ButtonGesture
run_feed b [] = b
run_feed b ((pressed, now_ms) ∷ samples) = run_feed (feed b pressed now_ms).0 samples

unfoldable pub gestures_of : ButtonGesture → List (Bool × ℕ) → List Gesture
gestures_of b [] = []
gestures_of b ((pressed, now_ms) ∷ samples) =
    let (b₁, g) = feed b pressed now_ms in g ∷ gestures_of b₁ samples
