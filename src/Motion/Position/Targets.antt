-- ===== src/Motion/Position/Targets.antt =====
-- Where a planned or re-based move ends, and what the Hall edge check accepts
-- (components/motion/include/motion/motion_math.h).
use lost_swan_firmware.Common.{ℕ, ◌+◌, ◌*◌, ◌%◌, ◌≤◌, ◌<◌, ◌≡◌, ◌⊎◌, arith}
use lost_swan_firmware.Motion.Geometry.{ring_forward_distance}
use lost_swan_firmware.Motion.Position.{
  edge_anchor_offset, edge_anchor_offset_mod, plan_target, retarget_on_edge,
}

-- The target of a move to slot `to`, planned at most two revolutions past the last edge, is the
-- first position at or ahead of the drum at which that slot hangs: it is not behind, it is less
-- than one revolution ahead, and it differs from edge + offset + T(to) by whole revolutions.
pub plan_target_first :
    (hall cal now to : ℕ)
    → hall ≤ now
    → now ≤ hall + 2 * 3200
    → (now ≤ plan_target hall cal now to)
      × (plan_target hall cal now to < now + 3200)
      × (plan_target hall cal now to % 3200 ≡ (hall + cal + 64 * to) % 3200)
unfolding plan_target
plan_target_first hall cal now to behind fresh = ground (arith, edge_anchor_offset_mod cal to)

-- A target re-based on a fresh edge is never behind the drum, and is either the drum's own
-- position (the slot was overshot) or lies before the next edge, with the slot hanging there.
pub retarget_on_edge_before_next :
    (hall cal now to : ℕ)
    → (now ≤ retarget_on_edge hall cal now to)
      × ((retarget_on_edge hall cal now to ≡ now)
          ⊎ ((retarget_on_edge hall cal now to < hall + 3200)
              × (retarget_on_edge hall cal now to % 3200 ≡ (hall + cal + 64 * to) % 3200)))
unfolding retarget_on_edge
retarget_on_edge_before_next hall cal now to = ground (arith, edge_anchor_offset_mod cal to)

-- A move from rest turns exactly the forward distance: planned from a drum that stands on slot
-- `from` of the current revolution, the target lies (to - from) mod 50 flaps ahead.
pub plan_target_from_rest :
    (hall cal from to : ℕ)
    → from < 50
    → to < 50
    → plan_target hall cal (hall + edge_anchor_offset cal from) to
      ≡ hall + edge_anchor_offset cal from + 64 * ring_forward_distance from to
unfolding plan_target ring_forward_distance
plan_target_from_rest hall cal from to hf ht =
    ground (arith, edge_anchor_offset_mod cal from, edge_anchor_offset_mod cal to)
