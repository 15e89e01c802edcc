-- ===== src/Common/Branches.antt =====
-- A property of a test: it holds where it holds of both branches.
use mathlib.Core.Path.{◌≡◌, refl}
use mathlib.Core.Bool.{Bool, true, false}
use lost_swan_firmware.Common.Tests.{if◌then◌else◌}

-- A property of both branches is one of the conditional.
pub either_branch {ℓ} :
    {A : Type 0} (P : A → Type ℓ) (c : Bool) {a b : A} → P a → P b → P (if c then a else b)
either_branch P true h k = h
either_branch P false h k = k

-- The same, each branch under what the test came to.
pub by_branch {ℓ} :
    {A : Type 0} (P : A → Type ℓ) (c : Bool) {a b : A}
    → (c ≡ true → P a)
    → (c ≡ false → P b)
    → P (if c then a else b)
by_branch P true h k = h refl
by_branch P false h k = k refl

-- The same for a test by cases.
pub by_case {ℓ} :
    {A : Type 0} (P : A → Type ℓ) (c : Bool) {a b : A}
    → (c ≡ true → P a)
    → (c ≡ false → P b)
    → P (elim c [ true ↦ a | false ↦ b ])
by_case P true h k = h refl
by_case P false h k = k refl
