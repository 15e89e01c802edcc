-- ===== src/Common/Bits.antt =====
-- Bit tests of small masks.
use Prim.Native.Nat.{ℕ, zero, suc, ◌/◌, ◌%◌}
use mathlib.Core.Bool.{Bool}
use package.lost_swan_firmware.Common.Tests.{◌==◌}

-- `(mask >> i) & 1`, one shift at a time; `(mask & (1u << i)) != 0` asks whether it is 1.
unfoldable pub bit_of : ℕ → ℕ → ℕ
bit_of mask zero = mask % 2
bit_of mask (suc i) = bit_of (mask / 2) i

unfoldable pub test_bit : ℕ → ℕ → Bool
unfolding bit_of
test_bit mask i = bit_of mask i == 1
