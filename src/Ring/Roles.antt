-- ===== src/Ring/Roles.antt =====
-- The cached slots of each role, and what the search by role gives (components/ring/ring_runtime.cpp).
use lost_swan_firmware.Common.{
  ℕ, suc, ◌≤◌, ◌<◌, ◌≡◌, refl, sym, ◌∙◌, ap, Bool, true, false, ◌&&◌, ◌==◌, if◌then◌else◌, arith,
  List, [], ◌∷◌, ◌++◌, Option, none, some, length,
}
use lost_swan_firmware.Ring.Nearest.{IsNearest, nearest_forward-IsNearest}
use mathlib.Core.List.{append-nil, append_assoc}
use lost_swan_firmware.Ring.{
  RingCategory, Role, Slot, RingTable, ieq, am_id, pm_id, qmark_id, digit_of, cache_digit,
  cache_category, cache_slot, cache_from, build_caches, slots_for_role, table_index_for_role,
}

abbrev pub is_blank : RingCategory → Bool
is_blank RingCategory.blank = true
is_blank _ = false

abbrev pub is_am_pm : RingCategory → Bool
is_am_pm RingCategory.am_pm = true
is_am_pm _ = false

abbrev pub is_wifi : RingCategory → Bool
is_wifi RingCategory.wifi = true
is_wifi _ = false

abbrev pub names_digit : Option ℕ → ℕ → Bool
names_digit none d = false
names_digit (some e) d = d == e

abbrev pub is_digit : RingCategory → List ℕ → ℕ → Bool
is_digit RingCategory.digit id d = names_digit (digit_of id) d
is_digit _ id d = false

-- Whether a slot carries a role, read off the slot alone.
abbrev pub carries : Role → ℕ → Slot → Bool
carries Role.blank d s = is_blank s.cat
carries Role.digit d s = is_digit s.cat s.id d
carries Role.am d s = is_am_pm s.cat && ieq s.id am_id
carries Role.pm d s = is_am_pm s.cat && ieq s.id pm_id
carries Role.wifi d s = is_wifi s.cat
carries Role.question d s = ieq s.id qmark_id

-- The indices, from `i` on, of the slots that pass a test.
abbrev pub places : (Slot → Bool) → ℕ → List Slot → List ℕ
places p i [] = []
places p i (s ∷ ss) = (if p s then i ∷ [] else []) ++ places p (suc i) ss

-- The cached list of a role, for a digit of any value.
abbrev pub cached : RingTable → Role → ℕ → List ℕ
cached t Role.blank d = t.blank_slots
cached t Role.am d = t.am_slots
cached t Role.pm d = t.pm_slots
cached t Role.wifi d = t.wifi_slots
cached t Role.question d = t.question_slots
cached t Role.digit d = t.digit_slots d

push_if :
    (c : Bool) (xs : List ℕ) (i : ℕ)
    → (if c then xs ++ i ∷ [] else xs) ≡ xs ++ (if c then i ∷ [] else [])
push_if true xs i = refl
push_if false xs i = sym (append-nil xs)

abbrev category_carries : Role → ℕ → RingCategory → List ℕ → Bool
category_carries Role.question d cat id = false
category_carries r d cat id = carries r d (record { id = id; label = []; cat = cat })

cache_digit-cached :
    (t : RingTable) (o : Option ℕ) (i d : ℕ)
    → (cache_digit t o i).digit_slots d
      ≡ t.digit_slots d ++ (if names_digit o d then i ∷ [] else [])
unfolding cache_digit
cache_digit-cached t none i d = sym (append-nil _)
cache_digit-cached t (some e) i d = push_if (d == e) _ i

cache_digit-slots :
    (t : RingTable) (o : Option ℕ) (i : ℕ)
    → ((cache_digit t o i).question_slots ≡ t.question_slots)
      × ((cache_digit t o i).slots ≡ t.slots)
unfolding cache_digit
cache_digit-slots t none i = (refl, refl)
cache_digit-slots t (some e) i = (refl, refl)

cache_category-cached :
    (t : RingTable) (cat : RingCategory) (id : List ℕ) (i : ℕ) (r : Role) (d : ℕ)
    → cached (cache_category t cat id i) r d
      ≡ cached t r d ++ (if category_carries r d cat id then i ∷ [] else [])
unfolding cache_category
cache_category-cached t cat id i Role.blank d = ground (arith, append-nil t.blank_slots)
cache_category-cached t cat id i Role.am d =
    ground (arith, append-nil t.am_slots, push_if (ieq id am_id) t.am_slots i)
cache_category-cached t cat id i Role.pm d =
    ground (arith, append-nil t.pm_slots, push_if (ieq id pm_id) t.pm_slots i)
cache_category-cached t cat id i Role.wifi d = ground (arith, append-nil t.wifi_slots)
cache_category-cached t cat id i Role.question d =
    ground (arith, append-nil t.question_slots, cache_digit-slots t (digit_of id) i)
cache_category-cached t cat id i Role.digit d =
    ground (arith, append-nil (t.digit_slots d), cache_digit-cached t (digit_of id) i d)

cache_slot-cached :
    (t : RingTable) (s : Slot) (i : ℕ) (r : Role) (d : ℕ)
    → cached (cache_slot t s i) r d ≡ cached t r d ++ (if carries r d s then i ∷ [] else [])
unfolding cache_slot
cache_slot-cached t s i Role.blank d = cache_category-cached t s.cat s.id i Role.blank d
cache_slot-cached t s i Role.am d = cache_category-cached t s.cat s.id i Role.am d
cache_slot-cached t s i Role.pm d = cache_category-cached t s.cat s.id i Role.pm d
cache_slot-cached t s i Role.wifi d = cache_category-cached t s.cat s.id i Role.wifi d
cache_slot-cached t s i Role.digit d = cache_category-cached t s.cat s.id i Role.digit d
cache_slot-cached t s i Role.question d =
    let same : (cache_category t s.cat s.id i).question_slots ≡ t.question_slots =
      cache_category-cached t s.cat s.id i Role.question d ∙ append-nil _ in
    push_if (ieq s.id qmark_id) _ i
    ∙ ap (λ xs. xs ++ (if ieq s.id qmark_id then i ∷ [] else [])) same

cache_slot-slots : (t : RingTable) (s : Slot) (i : ℕ) → (cache_slot t s i).slots ≡ t.slots
unfolding cache_slot cache_category
cache_slot-slots t s i = ground (arith, cache_digit-slots t (digit_of s.id) i)

cache_from-slots : (i : ℕ) (ss : List Slot) (t : RingTable) → (cache_from i ss t).slots ≡ t.slots
unfolding cache_from
cache_from-slots i [] t = refl
cache_from-slots i (s ∷ ss) t =
    cache_from-slots (suc i) ss (cache_slot t s i) ∙ cache_slot-slots t s i

pub build_caches-slots : (ss : List Slot) → (build_caches ss).slots ≡ ss
unfolding build_caches
build_caches-slots ss = cache_from-slots 0 ss _

cache_from-cached :
    (i : ℕ) (ss : List Slot) (t : RingTable) (r : Role) (d : ℕ)
    → cached (cache_from i ss t) r d ≡ cached t r d ++ places (carries r d) i ss
unfolding cache_from
cache_from-cached i [] t r d = sym (append-nil _)
cache_from-cached i (s ∷ ss) t r d =
    cache_from-cached (suc i) ss (cache_slot t s i) r d
    ∙ ap (λ xs. xs ++ places (carries r d) (suc i) ss) (cache_slot-cached t s i r d)
    ∙ append_assoc (cached t r d) (if carries r d s then i ∷ [] else [])
        (places (carries r d) (suc i) ss)

cached-role : (t : RingTable) (r : Role) (d : ℕ) → d ≤ 9 → slots_for_role t r d ≡ cached t r d
unfolding slots_for_role
cached-role t r d h = ground arith

cached_start :
    (ss : List Slot) (r : Role) (d : ℕ) → cached (build_caches ss) r d ≡ places (carries r d) 0 ss
unfolding build_caches
cached_start ss Role.blank d = cache_from-cached 0 ss _ Role.blank d
cached_start ss Role.digit d = cache_from-cached 0 ss _ Role.digit d
cached_start ss Role.am d = cache_from-cached 0 ss _ Role.am d
cached_start ss Role.pm d = cache_from-cached 0 ss _ Role.pm d
cached_start ss Role.wifi d = cache_from-cached 0 ss _ Role.wifi d
cached_start ss Role.question d = cache_from-cached 0 ss _ Role.question d

-- The caches are the slots that carry the role, in slot order.
pub slots_for_role-build_caches :
    (ss : List Slot) (r : Role) (d : ℕ)
    → d ≤ 9
    → slots_for_role (build_caches ss) r d ≡ places (carries r d) 0 ss
slots_for_role-build_caches ss r d h = cached-role (build_caches ss) r d h ∙ cached_start ss r d

-- Found by role from where the drum stands, in a drum with slots and for a digit up to 9: a slot
-- that carries the role and is fewest flips ahead, among all that carry it; and no slot exactly
-- where none carries it.
pub table_index_for_role-IsNearest :
    (ss : List Slot) (r : Role) (d from : ℕ)
    → d ≤ 9
    → 0 < length ss
    → IsNearest
        (length ss)
        from
        (places (carries r d) 0 ss)
        (table_index_for_role (build_caches ss) r d (some from))
unfolding table_index_for_role
table_index_for_role-IsNearest ss r d from small full =
    rw (slots_for_role-build_caches ss r d small, build_caches-slots ss)
      (nearest_forward-IsNearest (length ss) from (places (carries r d) 0 ss) full)
