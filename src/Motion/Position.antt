-- ===== src/Motion/Position.antt =====
-- components/motion/include/motion/motion_math.h, the position model and the Hall edge check.
-- `pos_abs` and `hall_abs` count microsteps from 0 and only grow; calibration offsets are stored
-- in [0, one revolution). All three are numbers here; the edge error, which has a sign, is in ℤ.
pub mod Targets
use lost_swan_firmware.Common.{
  ℕ, zero, suc, ◌+◌, ◌-◌, ◌*◌, ◌/◌, ◌%◌, ◌≤◌, ◌<◌, ◌≡◌, refl, Bool, true, false, arith, ltb, leb,
  if◌then◌else◌, Bool-cases, ltb→lt, ltb→le, leb→le, leb→lt, inl, inr,
}
use lost_swan_firmware.Common.Int.{ℤ, pos, negsuc, sub_ℕ}
use lost_swan_firmware.Motion.Geometry.{
  usteps_per_spool_rev_nominal, ring_target_usteps, ring_target_usteps-exact, ring_slot_count,
}

unfoldable pub index_position : ℕ → ℕ → ℕ → ℕ
index_position hall_abs cal_offset i = hall_abs + cal_offset + ring_target_usteps i

-- `while (e >= rev) e -= rev;` on fuel.
unfoldable pub reduce_rev : ℕ → ℕ → ℕ
reduce_rev zero e = e
reduce_rev (suc fuel) e =
    let rest = reduce_rev fuel (e - usteps_per_spool_rev_nominal) in
    if leb usteps_per_spool_rev_nominal e then rest else e

-- Each round takes a revolution off `e`, so `e` rounds are enough.
unfoldable pub edge_anchor_offset : ℕ → ℕ → ℕ
unfolding reduce_rev
edge_anchor_offset cal_offset to = let e = cal_offset + ring_target_usteps to in reduce_rev e e

-- `for (wrap = 0; t < pos_abs && wrap < 2; ++wrap) t += rev;`, the argument counting the rounds left.
unfoldable pub wrap_forward : ℕ → ℕ → ℕ → ℕ
wrap_forward zero pos_abs t = t
wrap_forward (suc wraps) pos_abs t =
    let rest = wrap_forward wraps pos_abs (t + usteps_per_spool_rev_nominal) in
    if ltb t pos_abs then rest else t

unfoldable pub plan_target : ℕ → ℕ → ℕ → ℕ → ℕ
unfolding wrap_forward
plan_target hall_abs cal_offset pos_abs to =
    wrap_forward 2 pos_abs (hall_abs + edge_anchor_offset cal_offset to)

unfoldable pub retarget_on_edge : ℕ → ℕ → ℕ → ℕ → ℕ
retarget_on_edge hall_abs_new cal_offset pos_abs to =
    let t = hall_abs_new + edge_anchor_offset cal_offset to in if ltb t pos_abs then pos_abs else t

pub data EdgeVerdict : Type 0 where
  minor major fault : EdgeVerdict

pub record EdgeTolerances : Type 0 where
  pub silent : ℕ
  pub major : ℕ

unfoldable pub edge_error : ℕ → ℕ → ℤ
edge_error hall_abs_prev hall_abs_now =
    sub_ℕ hall_abs_now (hall_abs_prev + usteps_per_spool_rev_nominal)

-- `err < 0 ? -err : err`.
abbrev pub magnitude : ℤ → ℕ
magnitude (pos n) = n
magnitude (negsuc n) = suc n

unfoldable pub classify_edge_error : ℤ → EdgeTolerances → EdgeVerdict
classify_edge_error err tol =
    if leb (magnitude err) tol.silent
    then EdgeVerdict.minor
    else if leb (magnitude err) tol.major
    then EdgeVerdict.major
    else EdgeVerdict.fault

-- The difference in C is of 64-bit integers; `hall_abs` never passes `pos_abs`.
unfoldable pub edge_overdue : ℕ → ℕ → Bool
edge_overdue pos_abs hall_abs =
    ltb (usteps_per_spool_rev_nominal + usteps_per_spool_rev_nominal / 2) (pos_abs - hall_abs)

reduce_rev_mod : (fuel e : ℕ) → e ≤ fuel * 3200 → reduce_rev fuel e ≡ e % 3200
unfolding reduce_rev
reduce_rev_mod zero e h = omega arith
reduce_rev_mod (suc fuel) e h = elim (Bool-cases (leb 3200 e)) [
  | inl more ↦ rw more (omega (arith, leb→le 3200 e more, reduce_rev_mod fuel (e - 3200)))
  | inr done ↦ rw done (omega (arith, leb→lt 3200 e done))
]

-- The loop computes the remainder by one revolution: the anchor never reaches the next edge.
pub edge_anchor_offset_mod : (cal to : ℕ) → edge_anchor_offset cal to ≡ (cal + 64 * to) % 3200
unfolding edge_anchor_offset
edge_anchor_offset_mod cal to =
    rw (reduce_rev_mod (cal + ring_target_usteps to) (cal + ring_target_usteps to) (omega arith))
      (omega (arith, ring_target_usteps-exact to))
