-- ===== src/Button/Noise.antt =====
-- Bounce and stuck switches on components/button/gesture.cpp.
use lost_swan_firmware.Common.{
  ℕ, suc, ◌+◌, ◌<◌, ◌≡◌, refl, Bool, true, false, ◌&&◌, ltb, List, [], ◌∷◌, ◌++◌, replicate, arith,
  length,
}
use lost_swan_firmware.Button.{
  no_gesture, ButtonGesture, feed, feed_steady, feed_change, feed_hold, run_feed, gestures_of,
}

abbrev pub pressed_samples : List ℕ → List (Bool × ℕ)
pressed_samples [] = []
pressed_samples (t ∷ ts) = (true, t) ∷ pressed_samples ts

-- Held since before the first sample: down, and not yet armed.
abbrev pub IsStuck : ButtonGesture → Type 0
IsStuck b = (b.have_sample ≡ true) × (b.is_armed ≡ false) × (b.stable ≡ true) × (b.raw ≡ true)

feed-IsStuck :
    (b : ButtonGesture)
    → (t : ℕ) → IsStuck b
    → IsStuck (feed b true t).0 × ((feed b true t).1 ≡ no_gesture)
unfolding feed feed_steady feed_change feed_hold
feed-IsStuck b t h = ground arith

stuck_run :
    (b : ButtonGesture)
    → (ts : List ℕ) → IsStuck b
    → gestures_of b (pressed_samples ts) ≡ replicate (length ts) no_gesture
unfolding gestures_of
stuck_run b [] h = refl
stuck_run b (t ∷ ts) h =
    let (kept, quiet) = feed-IsStuck b t h in
    rw quiet (rw (stuck_run (feed b true t).0 ts kept) refl)

feed_first-IsStuck :
    (b : ButtonGesture)
    → (t : ℕ) → b.have_sample ≡ false
    → IsStuck (feed b true t).0 × ((feed b true t).1 ≡ no_gesture)
unfolding feed
feed_first-IsStuck b t h = ground arith

-- A button that is down on its first sample reports nothing for as long as the samples show it
-- down, however long that is.
pub gestures_of_stuck :
    (b : ButtonGesture)
    → (ts : List ℕ) → b.have_sample ≡ false
    → gestures_of b (pressed_samples ts) ≡ replicate (length ts) no_gesture
unfolding gestures_of
gestures_of_stuck b [] h = refl
gestures_of_stuck b (t ∷ ts) h =
    let (stuck, quiet) = feed_first-IsStuck b t h in
    rw quiet (rw (stuck_run (feed b true t).0 ts stuck) refl)

-- Released, debounced and armed.
abbrev pub AtRest : ButtonGesture → Type 0
AtRest b = (b.have_sample ≡ true) × (b.is_armed ≡ true) × (b.stable ≡ false) × (b.raw ≡ false)

abbrev pub all_before : ℕ → List ℕ → Bool
all_before limit [] = true
all_before limit (t ∷ ts) = ltb t limit && all_before limit ts

all_before_cons :
    (limit t : ℕ)
    → (ts : List ℕ) → all_before limit (t ∷ ts) ≡ true
    → (t < limit) × (all_before limit ts ≡ true)
all_before_cons limit t ts h = ground arith

-- A bounce that began at `start` and is not over.
abbrev pub Bouncing : ButtonGesture → ℕ → Type 0
Bouncing b start =
    (b.have_sample ≡ true)
    × (b.is_armed ≡ true)
    × (b.stable ≡ false)
    × (b.raw ≡ true)
    × (b.changed_at ≡ start)

bounce_feed :
    (b : ButtonGesture)
    → (start t : ℕ) → Bouncing b start
    → t < start + b.cfg.debounce_ms
    → Bouncing (feed b true t).0 start
      × ((feed b true t).1 ≡ no_gesture)
      × ((feed b true t).0.cfg ≡ b.cfg)
unfolding feed feed_steady feed_change feed_hold
bounce_feed b start t h lt = ground arith

pub bounce_start :
    (b : ButtonGesture)
    → (t : ℕ) → AtRest b
    → Bouncing (feed b true t).0 t
      × ((feed b true t).1 ≡ no_gesture)
      × ((feed b true t).0.cfg ≡ b.cfg)
unfolding feed
bounce_start b t h = ground arith

bounce_end :
    (b : ButtonGesture)
    → (start t : ℕ) → Bouncing b start
    → AtRest (feed b false t).0 × ((feed b false t).1 ≡ no_gesture)
unfolding feed
bounce_end b start t h = ground arith

bounce_run :
    (b : ButtonGesture)
    → (start : ℕ) → (ts : List ℕ) → (t_end : ℕ) → Bouncing b start
    → all_before (start + b.cfg.debounce_ms) ts ≡ true
    → AtRest (run_feed b (pressed_samples ts ++ (false, t_end) ∷ []))
      × (gestures_of b (pressed_samples ts ++ (false, t_end) ∷ [])
          ≡ replicate (suc (length ts)) no_gesture)
unfolding run_feed gestures_of
bounce_run b start [] t_end h ts_lt =
    let (rest, quiet) = bounce_end b start t_end h in (rest, rw quiet refl)
bounce_run b start (t ∷ ts) t_end h ts_lt =
    let (lt, ts_lt₁) = all_before_cons (start + b.cfg.debounce_ms) t ts ts_lt in
    let (going, quiet, same) = bounce_feed b start t h lt in
    let (rest, quiet₁) = bounce_run (feed b true t).0 start ts t_end going (rw same ts_lt₁) in
    (rest, rw quiet (rw quiet₁ refl))

-- A bounce whose samples all come within the debounce time of its first one reports nothing, and
-- leaves a button at rest at rest.
pub gestures_of_bounce :
    (b : ButtonGesture)
    → (start : ℕ) → (ts : List ℕ) → (t_end : ℕ) → AtRest b
    → all_before (start + b.cfg.debounce_ms) ts ≡ true
    → AtRest (run_feed b (pressed_samples (start ∷ ts) ++ (false, t_end) ∷ []))
      × (gestures_of b (pressed_samples (start ∷ ts) ++ (false, t_end) ∷ [])
          ≡ replicate (suc (suc (length ts))) no_gesture)
unfolding run_feed gestures_of
gestures_of_bounce b start ts t_end h ts_lt =
    let (going, quiet, same) = bounce_start b start h in
    let (rest, quiet₁) = bounce_run (feed b true start).0 start ts t_end going (rw same ts_lt) in
    (rest, rw quiet (rw quiet₁ refl))
