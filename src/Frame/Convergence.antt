-- ===== src/Frame/Convergence.antt =====
-- What a tick of the frame scheduler commands, and what it leaves alone
-- (components/frame/frame.cpp, tick and settled).
use lost_swan_firmware.Common.{
  All, ℕ, suc, ◌≤◌, ◌≡◌, ◌⊎◌, refl, true, false, arith, List, [], ◌∷◌, test_bit, length,
}
use lost_swan_firmware.Frame.{
  MotionPort, Command, Posted, not_posted, posted, Scheduler, post_go, converge_col, each_col,
  converge, note_tick, spin_col, spin_all, start_pending, tick, settled_from, settled, none_posted,
  five_columns,
}
use lost_swan_firmware.Frame.Commands.{column_of}

settled_quiet :
    (port : MotionPort) (excluded i : ℕ) (f : List ℕ) (ps : List Posted)
    → settled_from port excluded i f ≡ true
    → (each_col (converge_col port) excluded i f ps).1 ≡ []
unfolding settled_from each_col converge_col
settled_quiet port excluded i [] ps h = refl
settled_quiet port excluded i (want ∷ wants) [] h = refl
settled_quiet port excluded i (want ∷ wants) (posted landing ∷ ps) h =
    ground (arith, settled_quiet port excluded (suc i) wants ps)
settled_quiet port excluded i (want ∷ wants) (not_posted ∷ ps) h =
    ground (arith, settled_quiet port excluded (suc i) wants ps)

-- A settled display is left alone: the next tick issues no command.
pub tick-settled :
    (port : MotionPort) (s : Scheduler) (now : ℕ) → settled port s ≡ true → (tick port s now).1 ≡ []
unfolding settled tick start_pending converge note_tick
tick-settled port s now h = ground (
  arith,
  settled_quiet port s.excluded 0 s.desired s.posted_cols,
  settled_quiet port s.excluded 0 s.desired none_posted,
)

-- Only a column whose spin was refused is still uncommanded.
abbrev Spun : MotionPort → ℕ → ℕ → List Posted → Type 0
Spun port excluded i [] = Unit {0}
Spun port excluded i (not_posted ∷ ps) =
    ((test_bit excluded i ≡ true) ⊎ (port.spin_ok i ≡ false)) × Spun port excluded (suc i) ps
Spun port excluded i (posted landing ∷ ps) = Spun port excluded (suc i) ps

spin-Spun :
    (port : MotionPort) (flaps_s seconds excluded i : ℕ) (f : List ℕ) (ps : List Posted)
    → length ps ≤ length f
    → Spun port excluded i (each_col (spin_col port flaps_s seconds) excluded i f ps).0
unfolding each_col spin_col
spin-Spun port flaps_s seconds excluded i [] [] h = tt
spin-Spun port flaps_s seconds excluded i [] (p ∷ ps) h = absurd (omega arith)
spin-Spun port flaps_s seconds excluded i (want ∷ wants) [] h = tt
spin-Spun port flaps_s seconds excluded i (want ∷ wants) (posted landing ∷ ps) h =
    ground (arith, spin-Spun port flaps_s seconds excluded (suc i) wants ps (omega arith))
spin-Spun port flaps_s seconds excluded i (want ∷ wants) (not_posted ∷ ps) h =
    ground (arith, spin-Spun port flaps_s seconds excluded (suc i) wants ps (omega arith))

abbrev pub Refused : MotionPort → Command → Type 0
Refused port c = port.spin_ok (column_of c) ≡ false

converge-Spun :
    (port : MotionPort) (excluded i : ℕ) (f : List ℕ) (ps : List Posted)
    → Spun port excluded i ps
    → All (Refused port) (each_col (converge_col port) excluded i f ps).1
unfolding each_col converge_col post_go
converge-Spun port excluded i [] ps h = tt
converge-Spun port excluded i (want ∷ wants) [] h = tt
converge-Spun port excluded i (want ∷ wants) (posted landing ∷ ps) h =
    ground (arith, converge-Spun port excluded (suc i) wants ps)
converge-Spun port excluded i (want ∷ wants) (not_posted ∷ ps) h =
    ground (arith, converge-Spun port excluded (suc i) wants ps)

-- A spin stands: the tick at the same instant sends no command to a column that took the spin.
pub tick-spin_all :
    (port : MotionPort) (s : Scheduler) (flaps_s seconds now : ℕ)
    → length s.posted_cols ≡ 5
    → All (Refused port) (tick port (spin_all port s flaps_s seconds now).0 now).1
unfolding tick spin_all start_pending converge note_tick
tick-spin_all port s flaps_s seconds now five = ground (
  arith,
  spin-Spun port flaps_s seconds s.excluded 0 five_columns s.posted_cols,
  spin-Spun port flaps_s seconds s.excluded 0 five_columns none_posted,
  converge-Spun port s.excluded 0 s.desired
      (each_col (spin_col port flaps_s seconds) s.excluded 0 five_columns s.posted_cols).0,
  converge-Spun port s.excluded 0 s.desired
      (each_col (spin_col port flaps_s seconds) s.excluded 0 five_columns none_posted).0,
)
