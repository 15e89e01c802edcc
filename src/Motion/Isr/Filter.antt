-- ===== src/Motion/Isr/Filter.antt =====
-- What the two-of-three Hall filter accepts (components/motion/include/motion/axis_control.h).
use lost_swan_firmware.Common.{
  ℕ, zero, suc, ◌+◌, ◌*◌, ◌%◌, ◌^◌, ◌≡◌, ◌∙◌, refl, Bool, true, false, arith, List, [], ◌∷◌, ◌++◌,
  replicate, not, ◌&&◌, if◌then◌else◌,
}
use lost_swan_firmware.Motion.Isr.{AxisIsr, on_step_alarm, run_alarms, bit}

-- The last three samples, newest last, as the filter keeps them.
abbrev window : Bool → Bool → Bool → ℕ
window oldest middle newest = 4 * bit oldest + 2 * bit middle + bit newest

abbrev two_of_three : Bool → Bool → Bool → Bool
two_of_three true true _ = true
two_of_three true false newest = newest
two_of_three false true newest = newest
two_of_three false false _ = false

pub record Sampled (a : AxisIsr) (oldest middle newest : Bool) : Type 0 where
  pub history : a.hall_hist ≡ window oldest middle newest
  pub level : a.hall_active ≡ two_of_three oldest middle newest

-- The filter keeps the last three samples, and its level is their majority; an edge is counted, at
-- the position of the last step, exactly when that majority turns on.
pub on_step_alarm-Sampled :
    (a : AxisIsr) (o m n raw : Bool)
    → Sampled a o m n
    → let b = (on_step_alarm a raw).0 in
      Sampled b m n raw
      × (b.hall_seq ≡ (
          if two_of_three m n raw && not (two_of_three o m n)
          then (a.hall_seq + 1) % 2 ^ 32
          else a.hall_seq))
      × (b.hall_abs
          ≡ (if two_of_three m n raw && not (two_of_three o m n) then b.pos_abs else a.hall_abs))
unfolding on_step_alarm
on_step_alarm-Sampled a true true true raw s = ground arith
on_step_alarm-Sampled a o m n raw s = ground arith

-- Single samples of noise, each followed by at least two clear ones.
abbrev pub glitches : List ℕ → List Bool
glitches [] = []
glitches (gap ∷ gaps) = true ∷ false ∷ false ∷ (replicate gap false ++ glitches gaps)

-- The last two samples were clear.
abbrev pub Quiet : AxisIsr → Type 0
Quiet a = (oldest : Bool) × Sampled a oldest false false

gap-Quiet :
    (gap : ℕ) (rest : List Bool) (a : AxisIsr)
    → Quiet a
    → (b : AxisIsr) × Quiet b
      × (b.hall_seq ≡ a.hall_seq)
      × (run_alarms a (replicate gap false ++ rest) ≡ run_alarms b rest)
unfolding run_alarms
gap-Quiet zero rest a q = (a, q, refl, refl)
gap-Quiet (suc gap) rest a (o, q) =
    let s = on_step_alarm-Sampled a o false false false q in
    let (b, r, e, same) = gap-Quiet gap rest (on_step_alarm a false).0 (false, s.0) in
    (b, r, e ∙ s.1, same)

-- Isolated noise on the Hall line, however often it strikes, never registers an edge.
pub run_alarms-glitches :
    (gaps : List ℕ) (a : AxisIsr)
    → Quiet a
    → Quiet (run_alarms a (glitches gaps)) × ((run_alarms a (glitches gaps)).hall_seq ≡ a.hall_seq)
unfolding run_alarms
run_alarms-glitches [] a q = (q, refl)
run_alarms-glitches (gap ∷ gaps) a (o, q) =
    let b₁ = (on_step_alarm a true).0 in
    let s₁ = on_step_alarm-Sampled a o false false true q in
    let b₂ = (on_step_alarm b₁ false).0 in
    let s₂ = on_step_alarm-Sampled b₁ false false true false s₁.0 in
    let s₃ = on_step_alarm-Sampled b₂ false true false false s₂.0 in
    let (b, r, e, same) = gap-Quiet gap (glitches gaps) (on_step_alarm b₂ false).0 (true, s₃.0) in
    let ih = run_alarms-glitches gaps b r in rw same (ih.0, ih.1 ∙ e ∙ s₃.1 ∙ s₂.1 ∙ s₁.1)
