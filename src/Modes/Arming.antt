-- ===== src/Modes/Arming.antt =====
-- The commands that set a countdown (components/modes/mode_manager.cpp), with the tick that each ends
-- in.
use lost_swan_firmware.Common.{
  either_branch, by_case, [], ℕ, ◌+◌, ◌*◌, ◌/◌, ◌%◌, ◌^◌, ◌≤◌, ◌<◌, ◌≡◌, ◌≢◌, ◌⊎◌, inl, inr, refl,
  sym, ◌∙◌, ap, subst, true, false, ltb, ◌==◌, arith, Option, some, List,
}
use lost_swan_firmware.Common.Int.{pos}
use lost_swan_firmware.Modes.State.{
  Mode, CdPhase, CdPersist, Origin, Kind, countdown_start, issue, Manager, Env, emit, persist,
  note_locked,
}
use lost_swan_firmware.Modes.Run.{is_running, target_ms, aim, countdown_arm}
use lost_swan_firmware.Modes.Face.{countdown_s}
use lost_swan_firmware.Modes.Tick.{and_then, entering, enter_mode}
use lost_swan_firmware.Modes.Control.{Control, control}
use lost_swan_firmware.Modes.Calm.{Returns, returned}
use lost_swan_firmware.Modes.Acts.{with_mode, is_lively, IsLively, IsPending}
use lost_swan_firmware.Modes.Entering.{ends_run, entering-with_mode}
use lost_swan_firmware.Modes.Invariants.{Acts-IsPending, Acts-IsLively}
use lost_swan_firmware.Modes.Runs.{Returns-map, tick-Acts}
use lost_swan_firmware.Modes.Commands.{
  Result, accepted, refused, Answer, accept, start_locked, cmd_countdown_start,
  cmd_countdown_set_target, set_target, out_of_range, cmd_mode_set, enter_message, no_message,
}

-- The command came back, with `P` of the manager and its result.
pub data Answers (P : Manager → Result → Type 0) : Answer → Type 0 where
  answered : (n : Manager) (r : Result) → P n r → Answers P (some (n, r))

-- Accepted, and the run is as given; the manager can still return.
abbrev pub Accepts : CdPersist → Manager → Result → Type 0
Accepts cd n r = (n.cd ≡ cd) × (r ≡ accepted) × IsLively (control n)

module _ (env : Env) (utc_ms : ℕ) where
  -- The record that a new run gets.
  abbrev pub armed : ℕ → Origin → Manager → CdPersist
  armed target_utc by m = record {
    phase = CdPhase.running;
    target_utc = target_utc;
    seq = (m.cd.seq + 1) % 2 ^ 32;
    set_by = by;
  }

  abbrev modes : Manager → Mode × Mode
  modes m = (m.mode, m.prev_mode)

  arm-cd :
      (target_utc : ℕ) (by : Origin) (m : Manager)
      → utc_ms / 1000 < target_utc
      → ((countdown_arm env target_utc utc_ms by m).cd ≡ armed target_utc by m)
        × ((countdown_arm env target_utc utc_ms by m).pending_resume ≡ m.pending_resume)
        × (modes (countdown_arm env target_utc utc_ms by m) ≡ modes m)
  unfolding countdown_arm aim persist emit
  arm-cd target_utc by m ahead =
      let e : ltb (utc_ms / 1000) target_utc ≡ true = ground arith in rw e (refl, refl, refl)

  with_mode-Pending :
      (md : Mode) (c : Control)
      → IsLively c
      → IsPending utc_ms c
      → IsLively (with_mode env md c)
        × IsPending utc_ms (with_mode env md c)
        × ((with_mode env md c).cd ≡ c.cd)
  with_mode-Pending md c lively ahead = ground arith

  running-stays : (md : Mode) (c : Control) → is_running c.cd.phase ≡ true → ends_run md c ≡ false
  running-stays md c run = ground arith

  -- Entering a mode from a run whose deadline is ahead, with its tick.
  enter-pending :
      (md : Mode) (m : Manager)
      → IsLively (control m)
      → IsPending utc_ms (control m)
      → Returns
          (λ n. ((control n).cd ≡ (control m).cd) × IsLively (control n))
          (enter_mode env utc_ms md m)
  enter-pending md m lively ahead =
      let entered = entering-with_mode env utc_ms md m (running-stays md (control m) ahead.1) in
      let kept = with_mode-Pending md (control m) lively ahead in
      let lively' = subst IsLively (sym entered) kept.0 in
      let still = subst (IsPending utc_ms) (sym entered) kept.1 in
      let e = ap (λ (c : Control). c.cd) entered ∙ kept.2 in
      Returns-map _ (λ n acts. ((Acts-IsPending acts still).1 ∙ e, Acts-IsLively acts lively'))
        (tick-Acts env utc_ms (entering env md m) lively')

  enter-armed :
      (target_utc : ℕ) (by : Origin) (m : Manager)
      → IsLively (control m)
      → m.pending_resume ≡ false
      → utc_ms / 1000 < target_utc
      → Returns
          (λ n. (n.cd ≡ armed target_utc by m) × IsLively (control n))
          (enter_mode env utc_ms Mode.countdown (countdown_arm env target_utc utc_ms by m))
  unfolding control
  enter-armed target_utc by m lively free ahead =
      let (cd, pending, same) = arm-cd target_utc by m ahead in
      let later : utc_ms < target_utc * 1000 = omega arith in
      Returns-map _ (λ n (e, l). (e ∙ cd, l))
        (enter-pending Mode.countdown (countdown_arm env target_utc utc_ms by m)
          (subst (λ (w : Mode × Mode). is_lively w.0 w.1 ≡ true) (sym same) lively)
          (
            pending ∙ free,
            ap (λ (c : CdPersist). is_running c.phase) cd,
            subst (λ (c : CdPersist). utc_ms < c.target_utc * 1000) (sym cd) later,
          ))

  accept-Answers :
      (cd : CdPersist) (o : Option Manager)
      → Returns (λ n. (n.cd ≡ cd) × IsLively (control n)) o
      → Answers (Accepts cd) (accept o)
  accept-Answers cd o (returned n (e, l)) = answered n accepted (e, refl, l)

  note-keeps :
      (k : Kind) (d : List ℕ) (s : ℕ) (by : Origin) (m : Manager)
      → ((note_locked env k d s by m).cd ≡ m.cd) × (modes (note_locked env k d s by m) ≡ modes m)
  unfolding note_locked emit
  note-keeps k d s by m =
      either_branch (λ (n : Manager). (n.cd ≡ m.cd) × (modes n ≡ modes m)) _ (refl, refl)
        (refl, refl)

  IsLively-modes : (m n : Manager) → modes n ≡ modes m → IsLively (control m) → IsLively (control n)
  unfolding control
  IsLively-modes m n e h = subst (λ (w : Mode × Mode). is_lively w.0 w.1 ≡ true) (sym e) h

  noted-Answers :
      (cd : CdPersist) (k : Kind) (d : List ℕ) (by : Origin) (o : Option Manager)
      → Returns (λ n. (n.cd ≡ cd) × IsLively (control n)) o
      → Answers (Accepts cd) (accept (and_then o (λ n. some (note_locked env k d n.cd.seq by n))))
  noted-Answers cd k d by o (returned n (e, l)) =
      let (same, modes_same) = note-keeps k d n.cd.seq by n in
      answered _ accepted (same ∙ e, refl, IsLively-modes n _ modes_same l)

  -- With the time known a start is accepted: the run ends in 108 minutes, its number is one higher
  -- and it names its origin, also after the tick that the command ends in.
  pub cmd_countdown_start-Answers :
      (by : Origin) (m : Manager)
      → env.time_valid ≡ true
      → IsLively (control m)
      → m.pending_resume ≡ false
      → Answers
          (Accepts (armed (utc_ms / 1000 + countdown_s) by m))
          (cmd_countdown_start env utc_ms by m)
  unfolding cmd_countdown_start start_locked
  cmd_countdown_start-Answers by m valid lively free =
      by_case (Answers (Accepts (armed (utc_ms / 1000 + countdown_s) by m))) env.time_valid
        (λ known.
          noted-Answers (armed (utc_ms / 1000 + countdown_s) by m) countdown_start [] by _
            (enter-armed (utc_ms / 1000 + countdown_s) by m lively free (omega arith)))
        (λ unknown. absurd (cc (valid, unknown)))

  abbrev pub InRange : ℕ → Type 0
  InRange target_utc = (utc_ms / 1000 < target_utc) × (target_utc ≤ utc_ms / 1000 + 86400)

  -- Refused, with the manager as it was.
  abbrev pub Refuses : Manager → Manager → Result → Type 0
  Refuses m n r = (n ≡ m) × (r ≢ accepted)

  refuse-Answers : (why : _) (m : Manager) → Answers (Refuses m) (some (m, refused why))
  refuse-Answers why m = answered m (refused why) (refl, λ e. cc e)

  -- Either the deadline is in range and the run is set to it, or nothing changes.
  abbrev pub Sets : ℕ → Origin → Manager → Answer → Type 0
  Sets target_utc by m a =
      (InRange target_utc × Answers (Accepts (armed target_utc by m)) a)
      ⊎ ((¬ InRange target_utc) × Answers (Refuses m) a)

  set_target-Sets :
      (target_utc : ℕ) (by : Origin) (m : Manager)
      → env.time_valid ≡ true
      → IsLively (control m)
      → m.pending_resume ≡ false
      → Sets target_utc by m (set_target env utc_ms target_utc by m)
  set_target-Sets target_utc by m valid lively free =
      by_case (Sets target_utc by m) env.time_valid
        (λ known.
          by_case (Sets target_utc by m) (out_of_range env utc_ms target_utc)
            (λ out. inr (λ r. ground arith, refuse-Answers _ m))
            (λ fits.
              let range : InRange target_utc = ground arith in
              inl (range, accept-Answers _ _ (enter-armed target_utc by m lively free range.0))))
        (λ unknown. absurd (cc (valid, unknown)))

  -- With the time known, a deadline that is not negative is accepted exactly where it is later than
  -- the second now by at most a day: then the run is set to it, with its number one higher and its
  -- origin, and the tick of the command keeps it; else it is refused and the manager is unchanged.
  -- No stored run may wait for the clock, and the message mode was not entered from itself.
  pub cmd_countdown_set_target-Sets :
      (target_utc : ℕ) (by : Origin) (m : Manager)
      → env.time_valid ≡ true
      → IsLively (control m)
      → m.pending_resume ≡ false
      → Sets target_utc by m (cmd_countdown_set_target env utc_ms (pos target_utc) by m)
  unfolding cmd_countdown_set_target
  cmd_countdown_set_target-Sets target_utc by m valid lively free =
      by_case (Sets target_utc by m) (target_utc == 0)
        (λ nothing. inr (λ r. ground arith, refuse-Answers _ m))
        (λ something. set_target-Sets target_utc by m valid lively free)

  -- Every answer to the command keeps the run.
  abbrev pub KeepsRun : Manager → Manager → Result → Type 0
  KeepsRun m n r = (n.cd ≡ m.cd) × IsLively (control n)

  enter-KeepsRun :
      (md : Mode) (m : Manager)
      → IsLively (control m)
      → IsPending utc_ms (control m)
      → Returns (λ n. (n.cd ≡ m.cd) × IsLively (control n)) (enter_mode env utc_ms md m)
  unfolding control
  enter-KeepsRun md m lively ahead = enter-pending md m lively ahead

  shown-Answers :
      (m : Manager) (o : Option Manager)
      → Returns (λ n. (n.cd ≡ m.cd) × IsLively (control n)) o
      → Answers
          (KeepsRun m)
          (accept (and_then o (λ n. some (issue env n.msg.msg_frame utc_ms 0 n))))
  unfolding issue emit
  shown-Answers m o (returned n (e, l)) = answered _ accepted (e, IsLively-modes n _ refl l)

  enter_message-KeepsRun :
      (m : Manager)
      → IsLively (control m)
      → IsPending utc_ms (control m)
      → Answers (KeepsRun m) (enter_message env utc_ms m)
  unfolding enter_message
  enter_message-KeepsRun m lively ahead =
      shown-Answers m _ (enter-KeepsRun Mode.message m lively ahead)

  accept-KeepsRun :
      (m : Manager) (o : Option Manager)
      → Returns (λ n. (n.cd ≡ m.cd) × IsLively (control n)) o
      → Answers (KeepsRun m) (accept o)
  accept-KeepsRun m o (returned n h) = answered n accepted h

  -- A change of mode keeps a countdown that is running with its deadline ahead, whatever mode is
  -- asked for and whether it is granted, and it returns, if no stored run waits for the clock and
  -- the message mode was not entered from itself.
  pub cmd_mode_set-KeepsRun :
      (md : Mode) (m : Manager)
      → IsLively (control m)
      → m.pending_resume ≡ false
      → is_running m.cd.phase ≡ true
      → utc_ms < target_ms m
      → Answers (KeepsRun m) (cmd_mode_set env utc_ms md m)
  unfolding cmd_mode_set control
  cmd_mode_set-KeepsRun Mode.message m lively free run ahead =
      by_case (Answers (KeepsRun m)) (no_message env utc_ms m) (λ none. answered m _ (refl, lively))
        (λ live. enter_message-KeepsRun m lively (free, run, ahead))
  cmd_mode_set-KeepsRun Mode.clock m lively free run ahead =
      accept-KeepsRun m _ (enter-KeepsRun Mode.clock m lively (free, run, ahead))
  cmd_mode_set-KeepsRun Mode.countdown m lively free run ahead =
      accept-KeepsRun m _ (enter-KeepsRun Mode.countdown m lively (free, run, ahead))
