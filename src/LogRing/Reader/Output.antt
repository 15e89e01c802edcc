-- ===== src/LogRing/Reader/Output.antt =====
-- What a read of the ring of components/journal/log_ring.cpp returns, against the list of lines.
use lost_swan_firmware.Common.{
  ℕ, ◌+◌, ◌-◌, ◌%◌, ◌≤◌, ◌<◌, ◌≡◌, ◌∙◌, sym, ap, subst, refl, min, ltb, List, [], ◌∷◌, ◌++◌, length,
  drop, arith, Bool-cases, inl, inr, ltb→lt, ltb→le,
}
use lost_swan_firmware.LogRing.{LogRing, take, length_at}
use lost_swan_firmware.LogRing.Reader.{read_run, read_line}
use lost_swan_firmware.LogRing.Bytes.{StandsAt, append-nil}
use lost_swan_firmware.LogRing.Lines.{frame, StandsAt-drop}
use lost_swan_firmware.LogRing.Runs.{length-take, length-drop, take-drop}
use lost_swan_firmware.LogRing.Append.{append_assoc}
use native.Mathlib.Nat.{mod-eq_of_lt, mod_self}

-- Each line with an end after it.
unfoldable pub printed : List (List ℕ) → List ℕ
printed [] = []
printed (s ∷ ls) = s ++ (10 ∷ printed ls)

read_run-StandsAt :
    (buf : ℕ → ℕ)
    → (turn p : ℕ) → (s rest : List ℕ) → p + length s ≤ turn
    → StandsAt buf turn p (s ++ rest)
    → read_run buf p (length s) ≡ s
unfolding read_run
read_run-StandsAt buf turn p [] rest h s = refl
read_run-StandsAt buf turn p (c ∷ []) rest h (here, there) = rw here refl
read_run-StandsAt buf turn p (c ∷ d ∷ t) rest h (here, there) =
    let next : (p + 1) % turn ≡ p + 1 = mod-eq_of_lt (omega arith) in
    let on = rw next at there in
    rw here (ap (λ l. c ∷ l) (read_run-StandsAt buf turn (p + 1) (d ∷ t) rest (omega arith) on))

-- The length read at the start of a stored line.
pub length_at-StandsAt :
    (r : LogRing)
    → (p : ℕ) → (s rest : List ℕ) → length s < 65536
    → StandsAt r.buf r.cap p (frame s ++ rest)
    → length_at r p ≡ length s
unfolding length_at
length_at-StandsAt r p s rest lt (low, (high, text)) = rw low (rw high (omega arith))

read_two_runs :
    (buf : ℕ → ℕ)
    → (turn p : ℕ) → (s t rest : List ℕ) → p < turn
    → p + length s ≡ turn
    → length t ≤ turn
    → StandsAt buf turn p (s ++ (t ++ rest))
    → read_run buf p (length s) ++ read_run buf 0 (length t) ≡ s ++ t
read_two_runs buf turn p s t rest hp full short h =
    let wraps : (p + length s) % turn ≡ 0 = ap (λ x. x % turn) full ∙ mod_self turn in
    let second = rw wraps at (StandsAt-drop buf turn p s (t ++ rest) hp (omega arith) h) in
    rw (read_run-StandsAt buf turn p s (t ++ rest) (omega arith) h)
      (rw (read_run-StandsAt buf turn 0 t rest (omega arith) second) refl)

pub read_line-StandsAt :
    (r : LogRing)
    → (p : ℕ) → (s rest : List ℕ) → p < r.cap
    → length s ≤ r.cap
    → StandsAt r.buf r.cap p (s ++ rest)
    → read_line r p (length s) ≡ s
unfolding read_line
read_line-StandsAt r p s rest hp short h = elim (Bool-cases (ltb (r.cap - p) (length s))) [
  | inl over ↦
      let first = r.cap - p in
      let lt = ltb→lt (r.cap - p) (length s) over in
      let n₁ : min (length s) first ≡ length (take first s) =
        omega (arith, length-take first s, lt) in
      let n₂ : length s - length (take first s) ≡ length (drop first s) =
        omega (arith, length-take first s, length-drop first s, lt) in
      let split =
        sym (ap (λ t. t ++ rest) (take-drop first s))
        ∙ append_assoc (take first s) (drop first s) rest in
      rw n₁ (
        rw n₂ (
          read_two_runs r.buf r.cap p (take first s) (drop first s) rest hp
            (omega (arith, length-take first s, lt)) (omega (arith, length-drop first s, short))
            (subst (λ t. StandsAt r.buf r.cap p t) split h)
          ∙ take-drop first s))
  | inr fits ↦
      let le = ltb→le (r.cap - p) (length s) fits in
      let n₁ : min (length s) (r.cap - p) ≡ length s = omega (arith, le) in
      let n₂ : length s - length s ≡ 0 = omega arith in
      rw n₁
        (rw n₂ (rw (read_run-StandsAt r.buf r.cap p s rest (omega (arith, le)) h) (append-nil s)))
]
