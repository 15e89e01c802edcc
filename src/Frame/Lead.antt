-- ===== src/Frame/Lead.antt =====
-- The lead time of a frame (components/frame/frame.cpp, lead_ms).
use lost_swan_firmware.Common.{
  ℕ, suc, ◌≤◌, ◌≡◌, ◌⊎◌, refl, sym, ◌∙◌, ◌||◌, arith, List, [], ◌∷◌, inl, inr, test_bit,
  if◌then◌else◌, ltb,
}
use lost_swan_firmware.Frame.{
  MotionPort, Timing, Scheduler, flips_from, cannot_move, lead_from, lead_ms,
}
use lost_swan_firmware.Frame.Duration.{move_duration_ms}

-- How long column `i` needs for slot `want`; a column that is out of the frame or cannot move needs
-- no time.
abbrev pub column_ms : MotionPort → Timing → ℕ → ℕ → ℕ → ℕ
column_ms port t excluded i want =
    if test_bit excluded i || cannot_move (port.col i).state
    then 0
    else move_duration_ms (flips_from (port.col i) want) t.flaps_s t.accel

-- Every column from `i` on lands within `bound`.
abbrev pub Within : MotionPort → Timing → ℕ → ℕ → List ℕ → ℕ → Type 0
Within port t excluded i [] bound = Unit {0}
Within port t excluded i (want ∷ wants) bound =
    (column_ms port t excluded i want ≤ bound) × Within port t excluded (suc i) wants bound

-- Some column from `i` on needs exactly `bound`.
abbrev pub Attained : MotionPort → Timing → ℕ → ℕ → List ℕ → ℕ → Type 0
Attained port t excluded i [] bound = ⊥
Attained port t excluded i (want ∷ wants) bound =
    (column_ms port t excluded i want ≡ bound) ⊎ Attained port t excluded (suc i) wants bound

combine :
    (port : MotionPort) (t : Timing) (excluded i want : ℕ) (wants : List ℕ) (worst next lead : ℕ)
    → (worst ≤ next)
      × (column_ms port t excluded i want ≤ next)
      × ((next ≡ worst) ⊎ (next ≡ column_ms port t excluded i want))
    → (next ≤ lead)
      × Within port t excluded (suc i) wants lead
      × ((lead ≡ next) ⊎ Attained port t excluded (suc i) wants lead)
    → (worst ≤ lead)
      × Within port t excluded i (want ∷ wants) lead
      × ((lead ≡ worst) ⊎ Attained port t excluded i (want ∷ wants) lead)
combine port t excluded i want wants worst next lead (a, b, c) (d, e, inr f) =
    (omega arith, (omega arith, e), inr (inr f))
combine port t excluded i want wants worst next lead (a, b, inl c) (d, e, inl f) =
    (omega arith, (omega arith, e), inl (f ∙ c))
combine port t excluded i want wants worst next lead (a, b, inr c) (d, e, inl f) =
    (omega arith, (omega arith, e), inr (inl (sym (f ∙ c))))

lead_from_max :
    (port : MotionPort) (t : Timing) (excluded i : ℕ) (f : List ℕ) (worst : ℕ)
    → (worst ≤ lead_from port t excluded i f worst)
      × Within port t excluded i f (lead_from port t excluded i f worst)
      × ((lead_from port t excluded i f worst ≡ worst)
          ⊎ Attained port t excluded i f (lead_from port t excluded i f worst))
unfolding lead_from
lead_from_max port t excluded i [] worst = (omega arith, tt, inl refl)
lead_from_max port t excluded i (want ∷ wants) worst =
    let d = move_duration_ms (flips_from (port.col i) want) t.flaps_s t.accel in
    let skip = test_bit excluded i || cannot_move (port.col i).state in
    let next : ℕ = if skip then worst else if ltb worst d then d else worst in
    combine port t excluded i want wants worst next (lead_from port t excluded (suc i) wants next)
      (ground arith) (lead_from_max port t excluded (suc i) wants next)

-- The lead is what the slowest column of the frame needs: every column lands within it, and it is
-- 0 or the time of one of them. Excluded, faulted and unhomed columns do not count.
pub lead_ms_max :
    (port : MotionPort) (s : Scheduler) (f : List ℕ)
    → Within port s.timing s.excluded 0 f (lead_ms port s f)
      × ((lead_ms port s f ≡ 0) ⊎ Attained port s.timing s.excluded 0 f (lead_ms port s f))
unfolding lead_ms
lead_ms_max port s f =
    let (_, within, tight) = lead_from_max port s.timing s.excluded 0 f 0 in (within, tight)
