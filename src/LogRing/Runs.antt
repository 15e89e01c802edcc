-- ===== src/LogRing/Runs.antt =====
-- Runs of bytes written behind one another in the ring of components/journal/log_ring.cpp.
use lost_swan_firmware.Common.{
  ℕ, zero, suc, ◌+◌, ◌-◌, ◌%◌, ◌≤◌, ◌<◌, ◌≡◌, ◌∙◌, sym, ap, refl, min, ltb, List, [], ◌∷◌, ◌++◌,
  length, length-append, drop, arith, Bool-cases, inl, inr, ltb→lt, ltb→le,
}
use lost_swan_firmware.LogRing.{LogRing, set_byte, copy_run, copy_wrapped, take}
use lost_swan_firmware.LogRing.Bytes.{
  StandsAt, wrap-bound, copy_wrapped-StandsAt, copy_run-copy_wrapped,
}
use native.Mathlib.Nat.{mod-add-mod, mod-eq_of_lt, mod_self}

-- What has been written so far: the bytes from the tail to the head.
pub record Written (r : LogRing) (bs : List ℕ) : Type 0 where
  pub tail_lt : r.tail < r.cap
  pub head_at : r.head ≡ (r.tail + length bs) % r.cap
  pub stands : StandsAt r.buf r.cap r.tail bs

further :
    (turn p : ℕ)
    → (bs new : List ℕ)
    → ((p + length bs) % turn + length new) % turn ≡ (p + length (bs ++ new)) % turn
further turn p bs new =
    mod-add-mod (p + length bs) turn (length new)
    ∙ ap (λ x. x % turn) (omega (arith, length-append bs new))

-- Bytes written one after the other, and the head moved past them.
pub grow :
    (r : LogRing)
    → (bs new : List ℕ) → length bs + length new ≤ r.cap
    → Written r bs
    → (buf : ℕ → ℕ) → (head : ℕ) → buf ≡ copy_wrapped r.cap r.buf r.head new
    → head ≡ (r.head + length new) % r.cap
    → Written (record r { buf = buf; head = head }) (bs ++ new)
grow r bs new fits w buf head is_buf is_head =
    let at_head = w.head_at in
    let long = copy_wrapped-StandsAt r.buf r.cap r.tail bs new w.tail_lt fits w.stands in
    record {
      tail_lt = w.tail_lt;
      head_at = is_head ∙ ap (λ x. (x + length new) % r.cap) at_head ∙ further r.cap r.tail bs new;
      stands = rw is_buf (rw at_head long);
    }

pub take-drop : (n : ℕ) → (s : List ℕ) → take n s ++ drop n s ≡ s
unfolding take
take-drop zero s = refl
take-drop (suc n) [] = refl
take-drop (suc n) (c ∷ s) = ap (λ t. c ∷ t) (take-drop n s)

pub length-take : (n : ℕ) → (s : List ℕ) → length (take n s) ≡ min n (length s)
unfolding take
length-take zero s = omega arith
length-take (suc n) [] = omega arith
length-take (suc n) (c ∷ s) = omega (arith, length-take n s)

pub length-drop : (n : ℕ) → (s : List ℕ) → length (drop n s) ≡ length s - n
length-drop zero s = omega arith
length-drop (suc n) [] = omega arith
length-drop (suc n) (c ∷ s) = omega (arith, length-drop n s)

copy_wrapped-append :
    (turn : ℕ)
    → (buf : ℕ → ℕ) → (p : ℕ) → (xs ys : List ℕ) → p < turn
    → copy_wrapped turn buf p (xs ++ ys)
      ≡ copy_wrapped turn (copy_wrapped turn buf p xs) ((p + length xs) % turn) ys
unfolding copy_wrapped
copy_wrapped-append turn buf p [] ys hp =
    let start : (p + 0) % turn ≡ p = ap (λ x. x % turn) (omega arith) ∙ mod-eq_of_lt hp in
    rw start refl
copy_wrapped-append turn buf p (x ∷ xs) ys hp =
    copy_wrapped-append turn (set_byte buf p x) ((p + 1) % turn) xs ys
      (wrap-bound turn (p + 1) (omega arith))
    ∙ ap (λ q. copy_wrapped turn (copy_wrapped turn (set_byte buf p x) ((p + 1) % turn) xs) q ys)
        (mod-add-mod (p + 1) turn (length xs) ∙ ap (λ q. q % turn) (omega arith))

pub nil_of_length : (s : List ℕ) → length s ≡ 0 → s ≡ []
nil_of_length [] h = refl
nil_of_length (c ∷ s) h = absurd (omega arith)

-- The second run starts at 0, or is empty.
restart :
    (turn : ℕ)
    → (buf : ℕ → ℕ) → (p first : ℕ) → (s : List ℕ) → p < turn
    → first ≡ min (length s) (turn - p)
    → copy_wrapped turn buf 0 (drop first s)
      ≡ copy_wrapped turn buf ((p + length (take first s)) % turn) (drop first s)
unfolding copy_wrapped
restart turn buf p first s hp e = elim (Bool-cases (ltb (turn - p) (length s))) [
  | inl over ↦
      let full : p + length (take first s) ≡ turn =
        omega (arith, length-take first s, ltb→lt (turn - p) (length s) over) in
      let zero_at : (p + length (take first s)) % turn ≡ 0 =
        ap (λ x. x % turn) full ∙ mod_self turn in
      rw zero_at refl
  | inr fits ↦
      let none_left : drop first s ≡ [] =
        nil_of_length (drop first s)
          (omega (arith, length-drop first s, ltb→le (turn - p) (length s) fits)) in
      rw none_left refl
]

-- The two runs of a text that may wrap are the bytes one after the other.
pub two_runs :
    (turn : ℕ)
    → (buf : ℕ → ℕ) → (p : ℕ) → (s : List ℕ) → p < turn
    → length s ≤ turn
    → let first = min (length s) (turn - p) in
      copy_run (copy_run buf p (take first s)) 0 (drop first s) ≡ copy_wrapped turn buf p s
two_runs turn buf p s hp h =
    let first = min (length s) (turn - p) in
    let head_run =
      copy_run-copy_wrapped buf turn p (take first s) (omega (arith, length-take first s)) in
    let tail_run =
      copy_run-copy_wrapped (copy_wrapped turn buf p (take first s)) turn 0 (drop first s)
        (omega (arith, length-drop first s)) in
    let whole =
      sym (copy_wrapped-append turn buf p (take first s) (drop first s) hp)
      ∙ ap (λ t. copy_wrapped turn buf p t) (take-drop first s) in
    ap (λ b. copy_run b 0 (drop first s)) head_run
    ∙ tail_run
    ∙ restart turn (copy_wrapped turn buf p (take first s)) p first s hp refl
    ∙ whole
