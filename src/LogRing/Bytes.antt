-- ===== src/LogRing/Bytes.antt =====
-- Bytes at positions of the ring of components/journal/log_ring.cpp.
use lost_swan_firmware.Common.{
  ℕ, zero, suc, ◌+◌, ◌-◌, ◌%◌, ◌≤◌, ◌<◌, ◌≡◌, ◌∙◌, sym, ap, refl, true, false, ltb, ◌==◌,
  if◌then◌else◌, List, [], ◌∷◌, ◌++◌, length, length-append, arith, Bool-cases, inl, inr, ltb→lt,
  ltb→le,
}
use lost_swan_firmware.LogRing.{set_byte, copy_run, copy_wrapped}
use native.Mathlib.Nat.{mod-eq_of_lt, mod-eq-sub-mod, mod-add-mod}

-- A position past the end by less than one turn.
pub wrap_lem : (turn p : ℕ) → p < turn + turn → p % turn ≡ (if ltb p turn then p else p - turn)
wrap_lem turn p h = elim (Bool-cases (ltb p turn)) [
  | inl inside ↦ rw inside (mod-eq_of_lt (ltb→lt p turn inside))
  | inr over ↦
      rw over
        (mod-eq-sub-mod (ltb→le p turn over) ∙ mod-eq_of_lt (omega (arith, ltb→le p turn over)))
]

pub wrap-bound : (turn p : ℕ) → p < turn + turn → p % turn < turn
wrap-bound turn p h = rw (wrap_lem turn p h) (ground arith)

-- The bytes stand in the storage from `p` on.
abbrev pub StandsAt : (ℕ → ℕ) → ℕ → ℕ → List ℕ → Type 0
StandsAt buf turn p [] = Unit
StandsAt buf turn p (b ∷ bs) = (buf p ≡ b) × StandsAt buf turn ((p + 1) % turn) bs

-- One step further along.
pub wrap_step :
    (turn p k : ℕ) → p < turn → k < turn → ((p + 1) % turn + k) % turn ≡ (p + suc k) % turn
wrap_step turn p k hp hk = mod-add-mod (p + 1) turn k ∙ ap (λ x. x % turn) (omega arith)

differs_ahead : (turn p k : ℕ) → p < turn → suc k < turn → (p == (p + suc k) % turn) ≡ false
differs_ahead turn p k hp hk = rw (wrap_lem turn (p + suc k) (omega arith)) (ground arith)

-- A byte written behind a stretch, less than a turn from its start, leaves the stretch.
StandsAt-set_byte :
    (buf : ℕ → ℕ)
    → (turn p k v : ℕ) → (bs : List ℕ) → p < turn
    → length bs ≤ k
    → k < turn
    → StandsAt buf turn p bs
    → StandsAt (set_byte buf ((p + k) % turn) v) turn p bs
StandsAt-set_byte buf turn p k v [] hp lo hi s = tt
StandsAt-set_byte buf turn p zero v (b ∷ bs) hp lo hi s = absurd (omega arith)
StandsAt-set_byte buf turn p (suc k) v (b ∷ bs) hp lo hi (here, there) =
    let apart = differs_ahead turn p k hp hi in
    let rest =
      StandsAt-set_byte buf turn ((p + 1) % turn) k v bs (wrap-bound turn (p + 1) (omega arith))
        (omega arith) (omega arith) there in
    (rw apart here, rw (wrap_step turn p k hp (omega arith)) at rest)

StandsAt-snoc :
    (buf : ℕ → ℕ)
    → (turn p v : ℕ) → (bs : List ℕ) → p < turn
    → length bs < turn
    → StandsAt buf turn p bs
    → buf ((p + length bs) % turn) ≡ v
    → StandsAt buf turn p (bs ++ (v ∷ []))
StandsAt-snoc buf turn p v [] hp h s e =
    let start : (p + 0) % turn ≡ p = ap (λ x. x % turn) (omega arith) ∙ mod-eq_of_lt hp in
    (ap buf (sym start) ∙ e, tt)
StandsAt-snoc buf turn p v (b ∷ bs) hp h (here, there) e =
    let next_on = wrap_step turn p (length bs) hp (omega arith) in
    (
      here,
      StandsAt-snoc buf turn ((p + 1) % turn) v bs (wrap-bound turn (p + 1) (omega arith))
          (omega arith) there (ap buf next_on ∙ e),
    )

set_byte_here : (buf : ℕ → ℕ) → (i v : ℕ) → set_byte buf i v i ≡ v
set_byte_here buf i v = let same : (i == i) ≡ true = ground arith in rw same refl

pub append-nil : (bs : List ℕ) → bs ++ [] ≡ bs
append-nil [] = refl
append-nil (b ∷ bs) = ap (λ s. b ∷ s) (append-nil bs)

snoc_append : (bs : List ℕ) → (v : ℕ) → (new : List ℕ) → (bs ++ (v ∷ [])) ++ new ≡ bs ++ (v ∷ new)
snoc_append [] v new = refl
snoc_append (b ∷ bs) v new = ap (λ s. b ∷ s) (snoc_append bs v new)

-- Bytes written one after the other behind a stretch that they do not reach again make it longer.
pub copy_wrapped-StandsAt :
    (buf : ℕ → ℕ)
    → (turn p : ℕ) → (bs new : List ℕ) → p < turn
    → length bs + length new ≤ turn
    → StandsAt buf turn p bs
    → StandsAt (copy_wrapped turn buf ((p + length bs) % turn) new) turn p (bs ++ new)
unfolding copy_wrapped
copy_wrapped-StandsAt buf turn p bs [] hp h s = rw (append-nil bs) s
copy_wrapped-StandsAt buf turn p bs (v ∷ new) hp h s =
    let q = (p + length bs) % turn in
    let longer = bs ++ (v ∷ []) in
    let size : length longer ≡ length bs + 1 = length-append bs (v ∷ []) in
    let kept : StandsAt (set_byte buf q v) turn p bs =
      StandsAt-set_byte buf turn p (length bs) v bs hp (omega arith) (omega arith) s in
    let grown : StandsAt (set_byte buf q v) turn p longer =
      StandsAt-snoc (set_byte buf q v) turn p v bs hp (omega arith) kept (set_byte_here buf q v) in
    let next : (q + 1) % turn ≡ (p + length longer) % turn =
      mod-add-mod (p + length bs) turn 1 ∙ ap (λ x. x % turn) (omega (arith, size)) in
    rw next (
      rw (sym (snoc_append bs v new))
        (copy_wrapped-StandsAt (set_byte buf q v) turn p longer new hp (omega (arith, size)) grown))

-- A run that does not pass the end is a wrapped one.
pub copy_run-copy_wrapped :
    (buf : ℕ → ℕ)
    → (turn p : ℕ) → (s : List ℕ) → p + length s ≤ turn
    → copy_run buf p s ≡ copy_wrapped turn buf p s
unfolding copy_run copy_wrapped
copy_run-copy_wrapped buf turn p [] h = refl
copy_run-copy_wrapped buf turn p (b ∷ []) h = refl
copy_run-copy_wrapped buf turn p (b ∷ c ∷ s) h =
    let next : (p + 1) % turn ≡ p + 1 = mod-eq_of_lt (omega arith) in
    copy_run-copy_wrapped (set_byte buf p b) turn (p + 1) (c ∷ s) (omega arith) ∙ rw next refl
