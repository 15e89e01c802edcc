-- ===== src/LogRing/Lines.antt =====
-- The ring of components/journal/log_ring.cpp as a list of whole lines, oldest first.
use lost_swan_firmware.Common.{
  ℕ, zero, suc, ◌+◌, ◌-◌, ◌*◌, ◌/◌, ◌%◌, ◌≤◌, ◌<◌, ◌≡◌, ◌∙◌, sym, ap, subst, refl, Bool, true,
  false, ◌&&◌, ltb, ◌==◌, if◌then◌else◌, List, [], ◌∷◌, ◌++◌, length, length-append, arith,
  Bool-cases, inl, inr, ltb→le,
}
use lost_swan_firmware.LogRing.{LogRing, length_at, pop_oldest, evict}
use lost_swan_firmware.LogRing.Bytes.{StandsAt, wrap-bound, wrap_step}
use native.Mathlib.Nat.{mod-add-mod, mod-eq_of_lt}

-- A line as it is stored: two bytes of length, then the line.
abbrev pub frame : List ℕ → List ℕ
frame s = length s % 256 ∷ length s / 256 % 256 ∷ s

unfoldable pub frames : List (List ℕ) → List ℕ
frames [] = []
frames (s ∷ ls) = frame s ++ frames ls

abbrev pub all_short : List (List ℕ) → Bool
all_short [] = true
all_short (s ∷ ls) = ltb (length s) 65536 && all_short ls

-- The ring holds exactly these lines.
pub record Represents (r : LogRing) (ls : List (List ℕ)) : Type 0 where
  pub tail_lt : r.tail < r.cap
  pub head_at : r.head ≡ (r.tail + r.used) % r.cap
  pub used_is : r.used ≡ length (frames ls)
  pub fits : r.used ≤ r.cap
  pub lines_is : r.lines ≡ length ls
  pub stands : StandsAt r.buf r.cap r.tail (frames ls)
  pub short : all_short ls ≡ true

pub StandsAt-drop :
    (buf : ℕ → ℕ)
    → (turn p : ℕ) → (xs ys : List ℕ) → p < turn
    → length xs ≤ turn
    → StandsAt buf turn p (xs ++ ys)
    → StandsAt buf turn ((p + length xs) % turn) ys
StandsAt-drop buf turn p [] ys hp h s =
    let start : (p + 0) % turn ≡ p = ap (λ x. x % turn) (omega arith) ∙ mod-eq_of_lt hp in
    rw start s
StandsAt-drop buf turn p (x ∷ xs) ys hp h (here, there) =
    let next = (p + 1) % turn in
    let rest =
      StandsAt-drop buf turn next xs ys (wrap-bound turn (p + 1) (omega arith)) (omega arith)
        there in
    rw (wrap_step turn p (length xs) hp (omega arith)) at rest

pop_oldest-Represents :
    (r : LogRing)
    → (s : List ℕ) → (ls : List (List ℕ)) → Represents r (s ∷ ls)
    → Represents (pop_oldest r) ls
unfolding pop_oldest length_at frames
pop_oldest-Represents r s ls h =
    let len = length s in
    let len_lt : len < 65536 = ground (arith, h.short) in
    let read : r.buf r.tail + 256 * r.buf ((r.tail + 1) % r.cap) ≡ len =
      rw (h.stands.0) (rw (h.stands.1.0) (omega (arith, len_lt))) in
    let some_line : (r.lines == 0) ≡ false = ground (arith, h.lines_is) in
    let total : r.used ≡ 2 + len + length (frames ls) =
      omega (arith, h.used_is, length-append s (frames ls)) in
    let place : r.tail + suc (suc len) ≡ r.tail + 2 + len = omega arith in
    let left =
      StandsAt-drop r.buf r.cap r.tail (frame s) (frames ls) h.tail_lt
        (omega (arith, total, h.fits)) h.stands in
    let rest : r.used - (2 + len) ≡ length (frames ls) = omega (arith, total) in
    let ahead : (r.tail + r.used) % r.cap
        ≡ ((r.tail + 2 + len) % r.cap + (r.used - (2 + len))) % r.cap =
      ap (λ x. x % r.cap) (omega (arith, total))
      ∙ sym (mod-add-mod (r.tail + 2 + len) r.cap (r.used - (2 + len))) in
    rw some_line (
      rw read (record {
        tail_lt = wrap-bound r.cap (r.tail + 2 + len) (omega (arith, total, h.fits, h.tail_lt));
        head_at = h.head_at ∙ ahead;
        used_is = rest;
        fits = omega (arith, h.fits);
        lines_is = omega (arith, h.lines_is);
        stands = rw place at left;
        short = ground (arith, h.short);
      }))

pop_oldest_cap : (r : LogRing) → (pop_oldest r).cap ≡ r.cap
unfolding pop_oldest
pop_oldest_cap r = ground arith

-- Lines are dropped, oldest first, until the room is enough.
unfoldable pub make_room : ℕ → ℕ → List (List ℕ) → List (List ℕ)
unfolding frames
make_room cap need [] = []
make_room cap need (s ∷ ls) =
    let rest = make_room cap need ls in
    if ltb cap (length (frames (s ∷ ls)) + need) then rest else s ∷ ls

pub evict-Represents :
    (fuel need : ℕ)
    → (r : LogRing) → (ls : List (List ℕ)) → fuel ≡ length ls
    → Represents r ls
    → Represents (evict fuel need r) (make_room r.cap need ls)
unfolding evict make_room
evict-Represents zero need r [] n h = h
evict-Represents zero need r (s ∷ ls) n h = absurd (omega arith)
evict-Represents (suc fuel) need r [] n h = absurd (omega arith)
evict-Represents (suc fuel) need r (s ∷ ls) n h =
    let less =
      evict-Represents fuel need (pop_oldest r) ls (omega arith) (pop_oldest-Represents r s ls h) in
    let same = h.used_is in
    elim (Bool-cases (ltb r.cap (r.used + need))) [
      | inl over ↦
          let over₁ : ltb r.cap (length (frames (s ∷ ls)) + need) ≡ true = rw same at over in
          rw over (
            rw over₁ (
              subst (λ n. Represents (evict fuel need (pop_oldest r)) (make_room n need ls))
                (pop_oldest_cap r) less))
      | inr fits ↦
          let fits₁ : ltb r.cap (length (frames (s ∷ ls)) + need) ≡ false = rw same at fits in
          rw fits (rw fits₁ h)
    ]

pub evict_cap : (fuel need : ℕ) → (r : LogRing) → (evict fuel need r).cap ≡ r.cap
unfolding evict
evict_cap zero need r = refl
evict_cap (suc fuel) need r = elim (Bool-cases (ltb r.cap (r.used + need))) [
  | inl over ↦ rw over (evict_cap fuel need (pop_oldest r) ∙ pop_oldest_cap r)
  | inr fits ↦ rw fits refl
]

pub make_room_fits :
    (turn need : ℕ)
    → (ls : List (List ℕ)) → need ≤ turn
    → length (frames (make_room turn need ls)) + need ≤ turn
unfolding make_room frames
make_room_fits turn need [] h = omega arith
make_room_fits turn need (s ∷ ls) h =
    elim (Bool-cases (ltb turn (length (frames (s ∷ ls)) + need))) [
      | inl over ↦ rw over (make_room_fits turn need ls h)
      | inr fits ↦ rw fits (ltb→le turn (length (frames (s ∷ ls)) + need) fits)
    ]
