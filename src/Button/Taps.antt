-- ===== src/Button/Taps.antt =====
-- Clean taps and holds on components/button/gesture.cpp.
use lost_swan_firmware.Common.{
  ℕ, suc, ◌+◌, ◌≤◌, ◌<◌, ◌≡◌, refl, Bool, true, false, if◌then◌else◌, List, [], ◌∷◌, ◌++◌,
  replicate, arith, length,
}
use lost_swan_firmware.Button.{
  no_gesture, press, hold, ButtonGesture, feed, feed_steady, feed_change, feed_hold, gestures_of,
}
use lost_swan_firmware.Button.Noise.{pressed_samples, AtRest, Bouncing, bounce_start}

-- A debounced press since `since`, `fired` telling whether it has become a hold.
abbrev Held : ButtonGesture → Bool → ℕ → Type 0
Held b fired since =
    (b.have_sample ≡ true)
    × (b.is_armed ≡ true)
    × (b.stable ≡ true)
    × (b.raw ≡ true)
    × (b.hold_fired ≡ fired)
    × (b.pressed_at ≡ since)

confirm :
    (b : ButtonGesture)
    → (start t : ℕ) → Bouncing b start
    → 0 < b.cfg.hold_ms
    → start + b.cfg.debounce_ms ≤ t
    → Held (feed b true t).0 false t
      × ((feed b true t).1 ≡ no_gesture)
      × ((feed b true t).0.cfg ≡ b.cfg)
unfolding feed feed_steady feed_change feed_hold
confirm b start t h positive late = ground arith

fire :
    (b : ButtonGesture)
    → (since t : ℕ) → Held b false since
    → since + b.cfg.hold_ms ≤ t
    → Held (feed b true t).0 true since
      × ((feed b true t).1 ≡ hold)
      × ((feed b true t).0.cfg ≡ b.cfg)
unfolding feed feed_steady feed_change feed_hold
fire b since t h late = ground arith

stay_fired :
    (b : ButtonGesture)
    → (since t : ℕ) → Held b true since
    → Held (feed b true t).0 true since
      × ((feed b true t).1 ≡ no_gesture)
      × ((feed b true t).0.cfg ≡ b.cfg)
unfolding feed feed_steady feed_change feed_hold
stay_fired b since t h = ground arith

-- The release of a press, seen twice.
let_go :
    (b : ButtonGesture)
    → (fired : Bool) → (since t₀ t₁ : ℕ) → Held b fired since
    → t₀ + b.cfg.debounce_ms ≤ t₁
    → ((feed b false t₀).1 ≡ no_gesture)
      × ((feed (feed b false t₀).0 false t₁).1 ≡ (if fired then no_gesture else press))
unfolding feed feed_steady feed_change feed_hold
let_go b fired since t₀ t₁ h late = ground arith

fired_run :
    (b : ButtonGesture)
    → (since : ℕ) → (ts : List ℕ) → (t₃ t₄ : ℕ) → Held b true since
    → t₃ + b.cfg.debounce_ms ≤ t₄
    → gestures_of b (pressed_samples ts ++ (false, t₃) ∷ (false, t₄) ∷ [])
      ≡ replicate (suc (suc (length ts))) no_gesture
unfolding gestures_of
fired_run b since [] t₃ t₄ h late =
    let (quiet, quiet₁) = let_go b true since t₃ t₄ h late in rw quiet (rw quiet₁ refl)
fired_run b since (t ∷ ts) t₃ t₄ h late =
    let (kept, quiet, same) = stay_fired b since t h in
    rw quiet (rw (fired_run (feed b true t).0 since ts t₃ t₄ kept (rw same late)) refl)

-- From rest, a press seen again after the debounce time, then a release seen again after it, is
-- reported as one `press`, on the last sample, if the hold time is positive.
pub gestures_of_tap :
    (b : ButtonGesture)
    → (t₀ t₁ t₂ t₃ : ℕ) → AtRest b
    → 0 < b.cfg.hold_ms
    → t₀ + b.cfg.debounce_ms ≤ t₁
    → t₂ + b.cfg.debounce_ms ≤ t₃
    → gestures_of b ((true, t₀) ∷ (true, t₁) ∷ (false, t₂) ∷ (false, t₃) ∷ [])
      ≡ no_gesture ∷ no_gesture ∷ no_gesture ∷ press ∷ []
unfolding gestures_of
gestures_of_tap b t₀ t₁ t₂ t₃ h positive e₁ e₂ =
    let (going, quiet, same) = bounce_start b t₀ h in
    let b₁ = (feed b true t₀).0 in
    let (held, quiet₁, same₁) = confirm b₁ t₀ t₁ going (rw same positive) (rw same e₁) in
    let b₂ = (feed b₁ true t₁).0 in
    let (quiet₂, tapped) = let_go b₂ false t₁ t₂ t₃ held (rw same₁ (rw same e₂)) in
    rw quiet (rw quiet₁ (rw quiet₂ (rw tapped refl)))

-- From rest, a press seen again after the debounce time and once more after the hold time is
-- reported as one `hold`, then; a longer press adds nothing, nor does the debounced release.
pub gestures_of_hold :
    (b : ButtonGesture)
    → (t₀ t₁ t₂ : ℕ) → (ts : List ℕ) → (t₃ t₄ : ℕ) → AtRest b
    → 0 < b.cfg.hold_ms
    → t₀ + b.cfg.debounce_ms ≤ t₁
    → t₁ + b.cfg.hold_ms ≤ t₂
    → t₃ + b.cfg.debounce_ms ≤ t₄
    → gestures_of b (
        (true, t₀) ∷ (true, t₁) ∷ (true, t₂) ∷ pressed_samples ts ++ (false, t₃) ∷ (false, t₄) ∷ [])
      ≡ no_gesture ∷ no_gesture ∷ hold ∷ replicate (suc (suc (length ts))) no_gesture
unfolding gestures_of
gestures_of_hold b t₀ t₁ t₂ ts t₃ t₄ h positive e₁ e₂ e₃ =
    let (going, quiet, same) = bounce_start b t₀ h in
    let b₁ = (feed b true t₀).0 in
    let (held, quiet₁, same₁) = confirm b₁ t₀ t₁ going (rw same positive) (rw same e₁) in
    let b₂ = (feed b₁ true t₁).0 in
    let (fired, holds, same₂) = fire b₂ t₁ t₂ held (rw same₁ (rw same e₂)) in
    let b₃ = (feed b₂ true t₂).0 in
    let rest = fired_run b₃ t₁ ts t₃ t₄ fired (rw same₂ (rw same₁ (rw same e₃))) in
    rw quiet (rw quiet₁ (rw holds (rw rest refl)))
