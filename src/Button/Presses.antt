-- ===== src/Button/Presses.antt =====
-- Gestures and debounced presses of components/button/gesture.cpp.
use lost_swan_firmware.Common.{
  ℕ, ◌+◌, ◌≤◌, ◌≡◌, ◌↔◌, Bool, true, false, not, ◌&&◌, leb, List, [], ◌∷◌, arith,
}
use lost_swan_firmware.Button.{
  Gesture, no_gesture, press, hold, ButtonGesture, down, differs, feed, feed_steady, feed_change,
  feed_hold, gestures_of,
}

abbrev one_of : Gesture → ℕ
one_of no_gesture = 0
one_of press = 1
one_of hold = 1

abbrev as_number : Bool → ℕ
as_number true = 1
as_number false = 0

-- Presses and holds reported over a run.
unfoldable pub reported : List Gesture → ℕ
reported [] = 0
reported (g ∷ gs) = one_of g + reported gs

-- Times that the debounced press begins over a run.
unfoldable pub rises : ButtonGesture → List (Bool × ℕ) → ℕ
rises b [] = 0
rises b ((pressed, now_ms) ∷ samples) =
    let b₁ = (feed b pressed now_ms).0 in as_number (not (down b) && down b₁) + rises b₁ samples

-- A press under way that has reported nothing yet.
abbrev pub pending : ButtonGesture → ℕ
pending b = as_number (down b && not b.hold_fired)

feed-pending :
    (b : ButtonGesture)
    → (pressed : Bool) → (now : ℕ)
    → one_of (feed b pressed now).1 + pending (feed b pressed now).0
      ≤ pending b + as_number (not (down b) && down (feed b pressed now).0)
unfolding feed feed_steady feed_change feed_hold down
feed-pending b pressed now = ground arith

-- Over any samples the button reports at most one gesture for each debounced press: no more than
-- there are presses that begin, and one more if a press that has reported nothing is under way.
pub reported-gestures_of :
    (b : ButtonGesture)
    → (samples : List (Bool × ℕ)) → reported (gestures_of b samples) ≤ pending b + rises b samples
unfolding gestures_of reported rises
reported-gestures_of b [] = omega arith
reported-gestures_of b ((pressed, now) ∷ samples) =
    omega (arith, feed-pending b pressed now, reported-gestures_of (feed b pressed now).0 samples)

-- A sample reports `press` exactly when the debounced press ends on it with no hold fired before; and
-- `hold` exactly when it confirms the raw level, leaves a press that began at least the hold time
-- before it, and no hold was fired for that press.
pub feed_gesture :
    (b : ButtonGesture)
    → (pressed : Bool) → (now : ℕ)
    → let (b₁, g) = feed b pressed now in
      ((g ≡ press) ↔ (((down b && not (down b₁)) && (not b.hold_fired && b.have_sample)) ≡ true))
      × ((g ≡ hold) ↔ (
          (b.have_sample
            && not (differs pressed b.raw)
            && down b₁
            && not (down b && b.hold_fired)
            && leb (b₁.pressed_at + b.cfg.hold_ms) now)
          ≡ true))
unfolding feed feed_steady feed_change feed_hold down
feed_gesture b pressed now = ground arith
