-- ===== src/Ring/Nearest.antt =====
-- The search forward over a list of slots (components/ring/ring_runtime.cpp, `nearest_forward`).
use lost_swan_firmware.Common.{
  ℕ, ◌+◌, ◌≤◌, ◌<◌, ◌≡◌, refl, ◌⊎◌, inl, inr, false, ltb, arith, List, [], ◌∷◌, Option, none, some,
  All, Elem, Bool-cases, ltb→lt, ltb→le, ◌==◌,
}
use lost_swan_firmware.Ring.{forward_cost, nearest_from, nearest_forward}
use native.Mathlib.Nat.{mod-lt}

module _ (count from : ℕ) where
  -- No slot of the list costs fewer flips than `s`.
  abbrev pub Cheapest : List ℕ → ℕ → Type 0
  Cheapest ss s = All (λ u. forward_cost count from s ≤ forward_cost count from u) ss

  -- What the loop may hold: no slot and a cost above every other, or a slot with its cost.
  abbrev Kept : Option ℕ → ℕ → Type 0
  Kept none best_cost = count < best_cost
  Kept (some b) best_cost = forward_cost count from b ≡ best_cost

  abbrev Outcome : List ℕ → Option ℕ → ℕ → Option ℕ → Type 0
  Outcome ss best best_cost none = (best ≡ none) × (ss ≡ [])
  Outcome ss best best_cost (some s) =
      (Elem s ss ⊎ (best ≡ some s)) × (forward_cost count from s ≤ best_cost) × Cheapest ss s

  forward_cost-bound : (s : ℕ) → 0 < count → forward_cost count from s < count
  unfolding forward_cost
  forward_cost-bound s h = mod-lt _ h

  Outcome-taken :
      (s : ℕ) (ss : List ℕ) (best : Option ℕ) (best_cost : ℕ) (o : Option ℕ)
      → forward_cost count from s < best_cost
      → Outcome ss (some s) (forward_cost count from s) o
      → Outcome (s ∷ ss) best best_cost o
  Outcome-taken s ss best best_cost none h k = absurd (cc (k.0))
  Outcome-taken s ss best best_cost (some r) h (found, below, cheap) =
      (elim found [ inl e ↦ inl (inr e) | inr e ↦ inl (inl cc) ], omega arith, (below, cheap))

  Outcome-Kept :
      (s : ℕ) (ss : List ℕ) (best : Option ℕ) (best_cost : ℕ) (o : Option ℕ)
      → 0 < count
      → Kept best best_cost
      → best_cost ≤ forward_cost count from s
      → Outcome ss best best_cost o
      → Outcome (s ∷ ss) best best_cost o
  Outcome-Kept s ss none best_cost o pos kept h k = absurd (omega (arith, forward_cost-bound s pos))
  Outcome-Kept s ss (some b) best_cost none pos kept h k = absurd (cc (k.0))
  Outcome-Kept s ss (some b) best_cost (some r) pos kept h (found, below, cheap) =
      (elim found [ inl e ↦ inl (inr e) | inr e ↦ inr e ], below, (omega arith, cheap))

  nearest_from-Outcome :
      (ss : List ℕ) (best : Option ℕ) (best_cost : ℕ)
      → 0 < count
      → Kept best best_cost
      → Outcome ss best best_cost (nearest_from count from ss best best_cost)
  unfolding nearest_from
  nearest_from-Outcome [] none best_cost pos kept = (refl, refl)
  nearest_from-Outcome [] (some b) best_cost pos kept = (inr refl, omega arith, tt)
  nearest_from-Outcome (s ∷ ss) best best_cost pos kept =
      elim (Bool-cases (ltb (forward_cost count from s) best_cost)) [
        | inl nearer ↦ rw nearer (
            Outcome-taken s ss best best_cost _ (ltb→lt _ _ nearer)
              (nearest_from-Outcome ss (some s) (forward_cost count from s) pos refl))
        | inr other ↦ rw other (
            Outcome-Kept s ss best best_cost _ pos kept (ltb→le _ _ other)
              (nearest_from-Outcome ss best best_cost pos kept))
      ]

  -- Where the drum is known, the search gives a slot of the list that costs the fewest flips.
  abbrev pub IsNearest : List ℕ → Option ℕ → Type 0
  IsNearest ss none = ss ≡ []
  IsNearest ss (some s) = Elem s ss × Cheapest ss s

  IsNearest-Outcome : (ss : List ℕ) (o : Option ℕ) → Outcome ss none (count + 1) o → IsNearest ss o
  IsNearest-Outcome ss none k = k.1
  IsNearest-Outcome ss (some s) (inl e, below, cheap) = (e, cheap)
  IsNearest-Outcome ss (some s) (inr e, below, cheap) = absurd (cc e)

  pub nearest_forward-IsNearest :
      (ss : List ℕ) → 0 < count → IsNearest ss (nearest_forward ss (some from) count)
  unfolding nearest_forward
  nearest_forward-IsNearest [] pos = refl
  nearest_forward-IsNearest (s ∷ ss) pos =
      let turned : (count == 0) ≡ false = ground arith in
      rw turned (
        IsNearest-Outcome (s ∷ ss) _
          (nearest_from-Outcome (s ∷ ss) none (count + 1) pos (omega arith)))
