-- ===== src/Motion/Policy/Columns.antt =====
-- Facts on the column modes (components/motion/include/motion/column_mode.h).
use lost_swan_firmware.Common.{
  ℕ, zero, suc, ◌+◌, ◌*◌, ◌/◌, ◌<◌, ◌≡◌, ◌↔◌, refl, arith, some, if◌then◌else◌, List, [], ◌∷◌,
  get_elem?, bit_of,
}
use lost_swan_firmware.Motion.Policy.{
  ColumnMode, real, sim, disabled, column_mode_name, column_mode_from_name, same_mode,
  excluded_mask,
}

-- The printed name of a mode parses back to it.
pub column_mode_from_name-column_mode_name :
    (m : ColumnMode) → column_mode_from_name (column_mode_name m) ≡ some m
unfolding column_mode_from_name column_mode_name
column_mode_from_name-column_mode_name real = refl
column_mode_from_name-column_mode_name sim = refl
column_mode_from_name-column_mode_name disabled = refl

halved : (b x : ℕ) → b < 2 → (b + 2 * x) / 2 ≡ x
halved b x h = omega arith

-- Bit i of the excluded mask is set exactly when column i is disabled.
pub excluded_mask_bit :
    (modes : List ColumnMode) (i : ℕ)
    → (bit_of (excluded_mask modes) i ≡ 1) ↔ (get_elem? modes i ≡ some disabled)
unfolding excluded_mask bit_of
excluded_mask_bit [] zero = ground arith
excluded_mask_bit [] (suc i) = excluded_mask_bit [] i
excluded_mask_bit (m ∷ modes) zero = ground arith
excluded_mask_bit (m ∷ modes) (suc i) =
    rw (halved (if same_mode m disabled then 1 else 0) (excluded_mask modes) (ground arith))
      (excluded_mask_bit modes i)
