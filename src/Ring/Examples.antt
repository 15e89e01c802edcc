-- ===== src/Ring/Examples.antt =====
-- The ring tables of components/ring/ring_runtime.cpp at concrete inputs.
use lost_swan_firmware.Common.{ℕ, ◌+◌, arith, List, [], ◌∷◌, some}
use lost_swan_firmware.Ring.{RingCategory, Role, Slot, build_caches, table_index_for_role}
use lost_swan_firmware.Ring.Nearest.{IsNearest}
use lost_swan_firmware.Ring.Roles.{carries, places, table_index_for_role-IsNearest}

abbrev digit_slot : ℕ → Slot
digit_slot d = record { id = (48 + d) ∷ []; label = []; cat = RingCategory.digit }

abbrev blank_slot : Slot
blank_slot = record { id = 95 ∷ []; label = []; cat = RingCategory.blank }

-- Two blocks of digits, as on the drum of column 5.
abbrev two_blocks : List Slot
two_blocks = blank_slot ∷ digit_slot 1 ∷ digit_slot 0 ∷ digit_slot 1 ∷ digit_slot 0 ∷ []

table_index_for_role-IsNearest_example :
    IsNearest 5 2
      (places (carries Role.digit 1) 0 two_blocks)
      (table_index_for_role (build_caches two_blocks) Role.digit 1 (some 2))
table_index_for_role-IsNearest_example =
    table_index_for_role-IsNearest two_blocks Role.digit 1 2 (omega arith) (omega arith)
