-- ===== src/Ring.antt =====
-- components/ring/ring_runtime.cpp and ring_runtime.h: the tables of the drums and the search for a
-- slot by role or by name. Text is the list of its character codes. The index -1 is `none`, for a
-- result that is absent and for `FROM_ANY` alike. The readers of JSON are not part of it.
pub mod Nearest
pub mod Roles
mod Examples
use lost_swan_firmware.Common.{
  ℕ, zero, suc, ◌+◌, ◌-◌, ◌*◌, ◌/◌, ◌%◌, Bool, true, false, not, ◌&&◌, ◌||◌, ltb, leb, ◌==◌,
  if◌then◌else◌, List, [], ◌∷◌, ◌++◌, Option, none, some, length, get_elem?, is_empty,
}
use lost_swan_firmware.Motion.Geometry.{n_columns}

pub data RingCategory : Type 0 where
  blank digit am_pm glyph wifi : RingCategory

pub data Role : Type 0 where
  blank digit am pm wifi question : Role

pub record Slot : Type 0 where
  pub id : List ℕ
  pub label : List ℕ
  pub cat : RingCategory

-- The slots and, for each role, the cached list of the slots that carry it.
pub record RingTable : Type 0 where
  pub slots : List Slot
  pub blank_slots : List ℕ
  pub am_slots : List ℕ
  pub pm_slots : List ℕ
  pub wifi_slots : List ℕ
  pub question_slots : List ℕ
  pub digit_slots : ℕ → List ℕ

abbrev pub slot_count : RingTable → ℕ
slot_count t = length t.slots

-- `lower`, on a character code.
unfoldable pub lower : ℕ → ℕ
lower c = if leb 65 c && leb c 90 then c + 32 else c

unfoldable pub ieq : List ℕ → List ℕ → Bool
ieq [] [] = true
ieq [] (d ∷ b) = false
ieq (c ∷ a) [] = false
ieq (c ∷ a) (d ∷ b) = (lower c == lower d) && ieq a b

abbrev pub am_id : List ℕ
am_id = 97 ∷ 109 ∷ []

abbrev pub pm_id : List ℕ
pm_id = 112 ∷ 109 ∷ []

abbrev pub qmark_id : List ℕ
qmark_id = 113 ∷ 109 ∷ 97 ∷ 114 ∷ 107 ∷ []

-- The digit that an id of one character between '0' and '9' names.
abbrev pub digit_of : List ℕ → Option ℕ
digit_of (c ∷ []) = if leb 48 c && leb c 57 then some (c - 48) else none
digit_of _ = none

abbrev push_back : List ℕ → ℕ → List ℕ
push_back xs i = xs ++ i ∷ []

unfoldable pub cache_digit : RingTable → Option ℕ → ℕ → RingTable
cache_digit t none i = t
cache_digit t (some d) i = record t {
  digit_slots = λ e. if e == d then push_back (t.digit_slots e) i else t.digit_slots e;
}

-- The `switch` on the category of slot `i`.
unfoldable pub cache_category : RingTable → RingCategory → List ℕ → ℕ → RingTable
unfolding cache_digit
cache_category t RingCategory.blank id i = record t { blank_slots = push_back t.blank_slots i }
cache_category t RingCategory.digit id i = cache_digit t (digit_of id) i
cache_category t RingCategory.am_pm id i = record t {
  am_slots = if ieq id am_id then push_back t.am_slots i else t.am_slots;
  pm_slots = if ieq id pm_id then push_back t.pm_slots i else t.pm_slots;
}
cache_category t RingCategory.wifi id i = record t { wifi_slots = push_back t.wifi_slots i }
cache_category t RingCategory.glyph id i = t

unfoldable pub cache_slot : RingTable → Slot → ℕ → RingTable
cache_slot t s i =
    let u = cache_category t s.cat s.id i in
    record u {
      question_slots = if ieq s.id qmark_id then push_back u.question_slots i else u.question_slots;
    }

-- The loop of `build_caches`, from slot `i`.
unfoldable pub cache_from : ℕ → List Slot → RingTable → RingTable
cache_from i [] t = t
cache_from i (s ∷ ss) t = cache_from (suc i) ss (cache_slot t s i)

unfoldable pub build_caches : List Slot → RingTable
build_caches ss = cache_from 0 ss (record {
  slots = ss;
  blank_slots = [];
  am_slots = [];
  pm_slots = [];
  wifi_slots = [];
  question_slots = [];
  digit_slots = λ _. [];
})

unfoldable pub slots_for_role : RingTable → Role → ℕ → List ℕ
slots_for_role t Role.blank d = t.blank_slots
slots_for_role t Role.am d = t.am_slots
slots_for_role t Role.pm d = t.pm_slots
slots_for_role t Role.wifi d = t.wifi_slots
slots_for_role t Role.question d = t.question_slots
slots_for_role t Role.digit d = if leb d 9 then t.digit_slots d else []

-- `((s - from) % count + count) % count` in C, whose `%` keeps the sign of its left side.
unfoldable pub forward_cost : ℕ → ℕ → ℕ → ℕ
forward_cost count from s = (s + (count - from % count)) % count

-- The loop of `nearest_forward`, with the best slot so far and its cost.
unfoldable pub nearest_from : ℕ → ℕ → List ℕ → Option ℕ → ℕ → Option ℕ
nearest_from count from [] best best_cost = best
nearest_from count from (s ∷ ss) best best_cost =
    let cost = forward_cost count from s in
    let nearer = ltb cost best_cost in
    nearest_from count from ss (if nearer then some s else best)
      (if nearer then cost else best_cost)

unfoldable pub nearest_forward : List ℕ → Option ℕ → ℕ → Option ℕ
nearest_forward [] from count = none
nearest_forward (s ∷ ss) none count = some s
nearest_forward (s ∷ ss) (some from) count =
    if count == 0 then some s else nearest_from count from (s ∷ ss) none (count + 1)

unfoldable pub table_index_for_role : RingTable → Role → ℕ → Option ℕ → Option ℕ
table_index_for_role t r d from = nearest_forward (slots_for_role t r d) from (slot_count t)

-- The digits after '#', each taken while the value stays below the slot count.
unfoldable pub raw_index : ℕ → List ℕ → ℕ → Option ℕ
raw_index count [] v = some v
raw_index count (c ∷ cs) v =
    let w = v * 10 + (c - 48) in
    let rest = raw_index count cs w in
    if ltb c 48 || ltb 57 c then none else if leb count w then none else rest

unfoldable pub hits_from : List ℕ → ℕ → List Slot → List ℕ
hits_from tok i [] = []
hits_from tok i (s ∷ ss) =
    let rest = hits_from tok (suc i) ss in if ieq tok s.id then i ∷ rest else rest

unfoldable pub token_index : RingTable → List ℕ → Option ℕ → Option ℕ
unfolding raw_index
token_index t [] from = none
token_index t (c ∷ cs) from =
    if c == 35
    then (if is_empty cs then none else raw_index (slot_count t) cs 0)
    else nearest_forward (hits_from (c ∷ cs) 0 t.slots) from (slot_count t)

-- '_' is 95.
abbrev pub is_underscore : List ℕ → Bool
is_underscore (c ∷ []) = c == 95
is_underscore _ = false

unfoldable pub index_for_token : RingTable → List ℕ → Option ℕ → Option ℕ
index_for_token t tok from =
    if is_underscore tok then table_index_for_role t Role.blank 0 from else token_index t tok from

-- Why a table is refused; `empty_id` names the slot.
pub data SlotError : Type 0 where
  too_few_slots : SlotError
  empty_id : ℕ → SlotError
  no_blank : SlotError

pub data FromSlots : Type 0 where
  refused : SlotError → FromSlots
  table : RingTable → FromSlots

unfoldable pub first_empty_id : ℕ → List Slot → Option ℕ
first_empty_id i [] = none
first_empty_id i (s ∷ ss) = if is_empty s.id then some i else first_empty_id (suc i) ss

abbrev pub with_blank : RingTable → FromSlots
with_blank t = if is_empty t.blank_slots then refused no_blank else table t

abbrev pub checked_ids : List Slot → Option ℕ → FromSlots
checked_ids ss (some i) = refused (empty_id i)
checked_ids ss none = with_blank (build_caches ss)

unfoldable pub from_slots : List Slot → FromSlots
from_slots ss =
    if ltb (length ss) 2 then refused too_few_slots else checked_ids ss (first_empty_id 0 ss)

pub record RingSet : Type 0 where
  pub shared : RingTable
  pub per_col : ℕ → Option RingTable

abbrev pub or_shared : RingTable → Option RingTable → RingTable
or_shared shared none = shared
or_shared shared (some t) = t

unfoldable pub col : RingSet → ℕ → RingTable
col ring column = or_shared ring.shared (ring.per_col column)

-- The index and whether the diagnostic is raised.
abbrev pub or_blank : Option ℕ → Option ℕ → ℕ × Bool
or_blank (some i) fallback = (i, false)
or_blank none (some b) = (b, true)
or_blank none none = (0, true)

unfoldable pub index_for_role : RingSet → ℕ → Role → ℕ → Option ℕ → ℕ × Bool
index_for_role ring column r d from =
    let t = col ring column in
    or_blank (table_index_for_role t r d from) (table_index_for_role t Role.blank 0 from)

abbrev pub ampm_column : ℕ
ampm_column = 0

abbrev pub wifi_column : ℕ
wifi_column = n_columns / 2

-- What a column is asked for, in the order of the checks.
unfoldable pub needed : ℕ → List (Role × ℕ)
needed c =
    (Role.blank, 0)
      ∷ (Role.question, 0)
      ∷ (Role.digit, 0)
      ∷ (Role.digit, 1)
      ∷ (Role.digit, 2)
      ∷ (Role.digit, 3)
      ∷ (Role.digit, 4)
      ∷ (Role.digit, 5)
      ∷ (Role.digit, 6)
      ∷ (Role.digit, 7)
      ∷ (Role.digit, 8)
      ∷ (Role.digit, 9)
      ∷ (if c == ampm_column then (Role.am, 0) ∷ (Role.pm, 0) ∷ [] else [])
    ++ (if c == wifi_column then (Role.wifi, 0) ∷ [] else [])

-- The first role of the list that the table cannot render.
unfoldable pub missing : RingTable → List (Role × ℕ) → Option (Role × ℕ)
missing t [] = none
missing t ((r, d) ∷ rs) = if is_empty (slots_for_role t r d) then some (r, d) else missing t rs

unfoldable pub lacking : ℕ → Option (Role × ℕ) → Option (ℕ × Role × ℕ) → Option (ℕ × Role × ℕ)
lacking c (some (r, d)) rest = some (c, r, d)
lacking c none rest = rest

-- From column `c`, over `n` columns; the result is what the error names, `none` for success.
unfoldable pub validate_from : RingSet → ℕ → ℕ → Option (ℕ × Role × ℕ)
validate_from ring c zero = none
validate_from ring c (suc n) =
    lacking c (missing (col ring c) (needed c)) (validate_from ring (suc c) n)

unfoldable pub validate_roles : RingSet → Option (ℕ × Role × ℕ)
validate_roles ring = validate_from ring 0 n_columns
