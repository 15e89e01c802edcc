-- ===== src/Common/Int.antt =====
-- Signed integers over the native numbers, for the values of the firmware that may be negative.
-- Sums and orders go through the two parts of an integer, which are numbers that `omega` reads.
use lost_swan_firmware.Common.{
  ℕ, suc, ◌+◌, ◌-◌, ◌*◌, ◌%◌, ◌^◌, ◌≤◌, ◌≡◌, refl, ◌⊎◌, Bool, arith, ltb, leb, ◌==◌, if◌then◌else◌,
}

-- `negsuc n` is -(n + 1).
pub data ℤ : Type 0 where
  pos : ℕ → ℤ
  negsuc : ℕ → ℤ

abbrev pub pos_part : ℤ → ℕ
pos_part (pos n) = n
pos_part (negsuc n) = 0

abbrev pub neg_part : ℤ → ℕ
neg_part (pos n) = 0
neg_part (negsuc n) = suc n

-- a - b, as an integer.
abbrev pub sub_ℕ : ℕ → ℕ → ℤ
sub_ℕ a b = if leb b a then pos (a - b) else negsuc (b - a - 1)

infixl 65 ◌+ℤ◌ ◌-ℤ◌
infixl 70 ◌*ℤ◌
infix 50 ◌≤ℤ◌
unfoldable pub ◌+ℤ◌ : ℤ → ℤ → ℤ
a +ℤ b = sub_ℕ (pos_part a + pos_part b) (neg_part a + neg_part b)

unfoldable pub ◌-ℤ◌ : ℤ → ℤ → ℤ
a -ℤ b = sub_ℕ (pos_part a + neg_part b) (neg_part a + pos_part b)

unfoldable pub ◌*ℤ◌ : ℤ → ℤ → ℤ
a *ℤ b =
    sub_ℕ (pos_part a * pos_part b + neg_part a * neg_part b)
      (pos_part a * neg_part b + neg_part a * pos_part b)

abbrev pub ◌≤ℤ◌ : ℤ → ℤ → Type 0
a ≤ℤ b = pos_part a + neg_part b ≤ pos_part b + neg_part a

abbrev pub ltb_ℤ : ℤ → ℤ → Bool
ltb_ℤ a b = ltb (pos_part a + neg_part b) (pos_part b + neg_part a)

-- With the operations unfolded `ground` splits on the signs.
pub +ℤ_comm : (a b : ℤ) → a +ℤ b ≡ b +ℤ a
unfolding ◌+ℤ◌
+ℤ_comm a b = ground arith

pub +ℤ_assoc : (a b c : ℤ) → a +ℤ b +ℤ c ≡ a +ℤ (b +ℤ c)
unfolding ◌+ℤ◌
+ℤ_assoc a b c = ground arith

pub +ℤ_cancel : (a b : ℤ) → a +ℤ b -ℤ b ≡ a
unfolding ◌+ℤ◌ ◌-ℤ◌
+ℤ_cancel a b = ground arith

pub ≤ℤ_total : (a b : ℤ) → (a ≤ℤ b) ⊎ (b ≤ℤ a)
≤ℤ_total a b = omega arith

-- One lemma for each operation lets `omega` work with the operations shut, at any depth.
pub +ℤ_parts :
    (a b : ℤ)
    → pos_part (a +ℤ b) + neg_part a + neg_part b ≡ neg_part (a +ℤ b) + pos_part a + pos_part b
unfolding ◌+ℤ◌
+ℤ_parts a b = ground arith

pub -ℤ_parts :
    (a b : ℤ)
    → pos_part (a -ℤ b) + neg_part a + pos_part b ≡ neg_part (a -ℤ b) + pos_part a + neg_part b
unfolding ◌-ℤ◌
-ℤ_parts a b = ground arith

pub eq_of_parts : (a b : ℤ) → pos_part a + neg_part b ≡ pos_part b + neg_part a → a ≡ b
eq_of_parts a b h = ground arith

pub ruleset int_laws = (arith, +ℤ_parts, -ℤ_parts, eq_of_parts)

pub +ℤ_mono : (a b c d : ℤ) → a ≤ℤ b → c ≤ℤ d → a +ℤ c ≤ℤ b +ℤ d
+ℤ_mono a b c d h k = omega int_laws

pub regroup : (a b c d : ℤ) → a +ℤ b -ℤ c +ℤ d ≡ d +ℤ (b -ℤ c) +ℤ a
regroup a b c d = omega int_laws

-- A two's complement word of 32 bits read as an integer.
abbrev pub signed32 : ℕ → ℤ
signed32 w = if ltb w (2 ^ 31) then pos w else negsuc (2 ^ 32 - w - 1)

-- `static_cast<int32_t>` of a wider integer.
unfoldable pub to_int32 : ℤ → ℤ
to_int32 (pos n) = signed32 (n % 2 ^ 32)
to_int32 (negsuc n) = signed32 (2 ^ 32 - 1 - n % 2 ^ 32)

pub to_int32_id : (z : ℤ) → negsuc (2 ^ 31 - 1) ≤ℤ z → z ≤ℤ pos (2 ^ 31 - 1) → to_int32 z ≡ z
unfolding to_int32
to_int32_id (pos n) lo hi = ground arith
to_int32_id (negsuc n) lo hi = ground arith

abbrev pub leb_ℤ : ℤ → ℤ → Bool
leb_ℤ a b = leb (pos_part a + neg_part b) (pos_part b + neg_part a)

abbrev pub eq_ℤ : ℤ → ℤ → Bool
eq_ℤ a b = pos_part a + neg_part b == pos_part b + neg_part a
