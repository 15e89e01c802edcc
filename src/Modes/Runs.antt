-- ===== src/Modes/Runs.antt =====
-- Whole ticks of the mode manager (components/modes/mode_manager.cpp), one after another: they return,
-- and what they keep.
use lost_swan_firmware.Common.{
  if◌then◌else◌, ℕ, ◌+◌, ◌*◌, ◌≤◌, ◌<◌, ◌≡◌, refl, sym, ◌∙◌, subst, true, false, arith, List, [],
  ◌∷◌, Option, some, All,
}
use lost_swan_firmware.Modes.State.{Cue, CdPersist, Output, Manager, Env}
use lost_swan_firmware.Modes.Run.{is_running, target_ms}
use lost_swan_firmware.Modes.Tick.{and_then, tick}
use lost_swan_firmware.Modes.Control.{Control, control, calls}
use lost_swan_firmware.Modes.Calm.{Returns, returned, Anything}
use lost_swan_firmware.Modes.Termination.{lively_thrice}
use lost_swan_firmware.Modes.Induction.{Holds}
use lost_swan_firmware.Modes.Acts.{Acts, IsLively, IsOver}
use lost_swan_firmware.Modes.Refinement.{tick_locked-Acts}
use lost_swan_firmware.Modes.Invariants.{
  soundings, noise, latched, budget, Acts-budget, Acts-IsOver, Acts-IsPending, Acts-IsLively,
}

pub Returns-Holds :
    {P : Manager → Type 0} (o : Option Manager) → Returns Anything o → Holds P o → Returns P o
Returns-Holds o (returned m tt) h = returned m h

-- A tick of the mode manager, in any state whose message mode was not entered from itself, returns;
-- and what it decides is a sequence of steps of the relation Act, and nothing besides: each cue,
-- phase, spin and change of mode comes under the condition of its step, and no record is saved and
-- no entry of the journal made but those of such a step. When a message that is not held ends is
-- left open.
pub tick-Acts :
    (env : Env) (utc_ms : ℕ) (m : Manager)
    → IsLively (control m)
    → Returns (λ n. Acts env utc_ms (control m) (control n)) (tick env utc_ms m)
tick-Acts env utc_ms m h =
    Returns-Holds _ (lively_thrice env utc_ms m h) (tick_locked-Acts env utc_ms 3 m)

pub Returns-map :
    {P Q : Manager → Type 0} (o : Option Manager)
    → ((m : Manager) → P m → Q m)
    → Returns P o
    → Returns Q o
Returns-map o f (returned m h) = returned m (f m h)

-- The recursion of the tick through the changes of mode goes no deeper than three: with that fuel
-- it returns a manager, whose message mode again was not entered from itself, if that held before.
pub tick-IsLively :
    (env : Env) (utc_ms : ℕ) (m : Manager)
    → IsLively (control m)
    → Returns (λ n. IsLively (control n)) (tick env utc_ms m)
tick-IsLively env utc_ms m h = Returns-map _ (λ n p. Acts-IsLively p h) (tick-Acts env utc_ms m h)

-- Ticks one after another, each with what the manager refers to and its time.
unfoldable pub run_ticks : List (Env × ℕ) → Manager → Option Manager
run_ticks [] m = some m
run_ticks ((env, utc_ms) ∷ is) m = and_then (tick env utc_ms m) (run_ticks is)

and_then-Returns :
    {P Q : Manager → Type 0} (o : Option Manager) (k : Manager → Option Manager)
    → Returns P o
    → ((m : Manager) → P m → Returns Q (k m))
    → Returns Q (and_then o k)
and_then-Returns o k (returned m h) step = step m h

-- A relation that holds from tick to tick, while the times are good, holds over a run of ticks.
module _ (Good : Env × ℕ → Control → Type 0) (P : Control → Control → Type 0)
    (step : (i : Env × ℕ) (c d e : Control) → P c d → Good i d → Acts i.0 i.1 d e → P c e) where
  run_ticks-P :
      (is : List (Env × ℕ)) (m n : Manager)
      → P (control m) (control n)
      → IsLively (control n)
      → ((d : Control) → P (control m) d → All (λ i. Good i d) is)
      → Returns (λ o. P (control m) (control o)) (run_ticks is n)
  unfolding run_ticks
  run_ticks-P [] m n p lively good = returned n p
  run_ticks-P ((env, utc_ms) ∷ is) m n p lively good =
      and_then-Returns _ (run_ticks is) (tick-Acts env utc_ms n lively) (λ o acts.
        run_ticks-P is m o
          (step (env, utc_ms) (control m) (control n) (control o) p (good (control n) p).0 acts)
          (Acts-IsLively acts lively) (λ d q. (good d q).1))

soundings-calls : (k : Cue) (os : List Output) → soundings k (calls os) ≡ soundings k os
soundings-calls k [] = refl
soundings-calls k (o ∷ os) = ground (arith, soundings-calls k os)

noise-calls : (os : List Output) → noise (calls os) ≡ noise os
noise-calls [] = refl
noise-calls (o ∷ os) = ground (arith, noise-calls os)

abbrev Whenever : Env × ℕ → Type 0
Whenever i = Unit

always : (is : List (Env × ℕ)) → All Whenever is
always [] = tt
always (i ∷ is) = (tt, always is)

abbrev Spent : Cue → Control → Control → Type 0
Spent k c d = c.pending_resume ≡ false → (d.pending_resume ≡ false) × (budget k d ≤ budget k c)

abbrev Quiet : Control → Control → Type 0
Quiet c d = IsOver c → IsOver d × (noise d.log ≡ noise c.log)

-- Over any run of ticks, each at any time, a cue sounds at most once, and not at all where its mark
-- was set before, if no stored run waits for the clock and the message mode was not entered from
-- itself.
pub run_ticks-soundings :
    (k : Cue) (is : List (Env × ℕ)) (m : Manager)
    → IsLively (control m)
    → m.pending_resume ≡ false
    → Returns
        (λ n. soundings k n.log ≤ soundings k m.log + (if latched k m.latches then 0 else 1))
        (run_ticks is m)
unfolding control
run_ticks-soundings k is m lively free =
    Returns-map (run_ticks is m)
      (λ n spent.
        let less = (spent free).1 in
        omega (arith, less, soundings-calls k n.log, soundings-calls k m.log))
      (run_ticks-P (λ i d. Whenever i) (Spent k)
        (λ i c d e p good acts h.
          let (still, less) = p h in
          let (after, lesser) = Acts-budget k acts still in (after, omega arith))
        is m m (λ h. (h, omega arith)) lively (λ d p. always is))

abbrev Stands : Control → Control → Type 0
Stands c d = (d.pending_resume ≡ false) × (is_running d.cd.phase ≡ true) × (d.cd ≡ c.cd)

pub noise_log : (n : Manager) → noise (control n).log ≡ noise n.log
unfolding control
noise_log n = noise-calls n.log

-- Once no countdown is on, or its zero has sounded and spun or was passed over, no tick of any run
-- sounds a cue or spins the drums, and that stays so, if no stored run waits for the clock and the
-- message mode was not entered from itself.
pub run_ticks-IsOver :
    (is : List (Env × ℕ)) (m : Manager)
    → IsLively (control m)
    → IsOver (control m)
    → Returns (λ n. IsOver (control n) × (noise n.log ≡ noise m.log)) (run_ticks is m)
run_ticks-IsOver is m lively over =
    Returns-map (run_ticks is m)
      (λ n quiet. ((quiet over).0, sym (noise_log n) ∙ (quiet over).1 ∙ noise_log m))
      (run_ticks-P (λ i d. Whenever i) Quiet
        (λ i c d e p good acts h.
          let (still, same) = p h in
          let (after, same') = Acts-IsOver acts still in (after, same' ∙ same))
        is m m (λ h. (h, refl)) lively (λ d p. always is))

-- Before its deadline a run stands as it was set: ticks that all come before the deadline change
-- nothing of it, whatever is on the display, if no stored run waits for the clock and the message
-- mode was not entered from itself.
pub run_ticks-IsPending :
    (is : List (Env × ℕ)) (m : Manager)
    → IsLively (control m)
    → m.pending_resume ≡ false
    → is_running m.cd.phase ≡ true
    → All (λ i. i.1 < target_ms m) is
    → Returns (λ n. n.cd ≡ m.cd) (run_ticks is m)
unfolding control
run_ticks-IsPending is m lively free run ahead =
    Returns-map (run_ticks is m) (λ n p. p.2)
      (run_ticks-P (λ i d. i.1 < d.cd.target_utc * 1000) Stands
        (λ i c d e (still, runs, same) good acts.
          let (pending, same') = Acts-IsPending acts (still, runs, good) in
          (pending.0, pending.1, same' ∙ same))
        is m m (free, run, refl) lively
        (λ d p. subst (λ (c : CdPersist). All (λ i. i.1 < c.target_utc * 1000) is) (sym p.2) ahead))
