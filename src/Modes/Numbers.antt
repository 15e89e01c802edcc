-- ===== src/Modes/Numbers.antt =====
-- components/modes/mode_manager.cpp, `numbers_valid`: the Numbers as they are entered. Text is the list
-- of its character codes; the index is the part not yet read.
use lost_swan_firmware.Common.{
  ℕ, zero, suc, ◌+◌, ◌-◌, ◌*◌, Bool, not, ◌&&◌, ◌||◌, leb, ◌==◌, if◌then◌else◌, List, [], ◌∷◌,
  is_empty,
}

abbrev pub is_space : ℕ → Bool
is_space c = (c == b' ') || (c == 9)

abbrev pub is_digit : ℕ → Bool
is_digit c = leb b'0' c && leb c b'9'

unfoldable pub skip_spaces : List ℕ → List ℕ
skip_spaces [] = []
skip_spaces (c ∷ s) = let rest = skip_spaces s in if is_space c then rest else c ∷ s

-- The value and the number of the digits that were read, at most `left` more, and what follows.
unfoldable pub read_digits : ℕ → ℕ → ℕ → List ℕ → ℕ × ℕ × List ℕ
read_digits zero v digits s = (v, digits, s)
read_digits (suc left) v digits [] = (v, digits, [])
read_digits (suc left) v digits (c ∷ s) =
    let rest = read_digits left (v * 10 + (c - b'0')) (digits + 1) s in
    if is_digit c then rest else (v, digits, c ∷ s)

unfoldable pub all_read : List ℕ → List ℕ → Bool
unfolding skip_spaces read_digits
all_read [] s = is_empty (skip_spaces s)
all_read (expected ∷ want) s =
    let (v, digits, rest) = read_digits 3 0 0 (skip_spaces s) in
    let following = all_read want rest in not (digits == 0) && (v == expected) && following

abbrev pub the_numbers : List ℕ
the_numbers = 4 ∷ 8 ∷ 15 ∷ 16 ∷ 23 ∷ 42 ∷ []

unfoldable pub numbers_valid : List ℕ → Bool
unfolding all_read
numbers_valid s = all_read the_numbers s
