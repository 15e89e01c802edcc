-- ===== src/Modes/Invariants.antt =====
-- What the decisions of the mode manager (components/modes/mode_manager.cpp) keep, by induction on
-- their steps.
use lost_swan_firmware.Common.{
  ℕ, ◌+◌, ◌≤◌, ◌≡◌, refl, ◌∙◌, Bool, true, false, arith, List, [], ◌∷◌, if◌then◌else◌,
}
use lost_swan_firmware.Modes.State.{
  Mode, Cue, warn4_min, warn1_min, system_failure, Latches, Output, spun, cued, Env,
}
use lost_swan_firmware.Modes.Tick.{same_mode}
use lost_swan_firmware.Modes.Control.{Control}
use lost_swan_firmware.Modes.Acts.{Act, Acts, here, next, IsLively, IsPending, IsOver}

same_mode-eq : (a b : Mode) → same_mode a b ≡ true → a ≡ b
same_mode-eq a b h = ground arith

abbrev pub latched : Cue → Latches → Bool
latched warn4_min l = l.cue_warn4
latched warn1_min l = l.cue_warn1
latched system_failure l = l.cue_zero

abbrev pub same_cue : Cue → Cue → Bool
same_cue warn4_min warn4_min = true
same_cue warn1_min warn1_min = true
same_cue system_failure system_failure = true
same_cue _ _ = false

abbrev pub is_cue : Cue → Output → Bool
is_cue k (cued c) = same_cue k c
is_cue k _ = false

-- How often a cue was sounded.
abbrev pub soundings : Cue → List Output → ℕ
soundings k [] = 0
soundings k (o ∷ os) = (if is_cue k o then 1 else 0) + soundings k os

-- What may still be heard of a cue, with what was.
abbrev pub budget : Cue → Control → ℕ
budget k c = soundings k c.log + (if latched k c.latches then 0 else 1)

abbrev pub is_noise : Output → Bool
is_noise (cued c) = true
is_noise (spun cs) = true
is_noise _ = false

-- How many cues and alarm spins there were.
abbrev pub noise : List Output → ℕ
noise [] = 0
noise (o ∷ os) = (if is_noise o then 1 else 0) + noise os

module _ {env : Env} {utc_ms : ℕ} where
  Act-budget :
      {c d : Control} (k : Cue)
      → Act env utc_ms c d
      → c.pending_resume ≡ false
      → (d.pending_resume ≡ false) × (budget k d ≤ budget k c)
  Act-budget k (Act.sound_warn4 c r l t) h = ground arith
  Act-budget k (Act.sound_warn1 c r l t) h = ground arith
  Act-budget k (Act.sound_failure c u b p l) h = ground arith
  Act-budget k (Act.reach_zero c u r t) h = ground arith
  Act-budget k (Act.begin_spin c u z t) h = ground arith
  Act-budget k (Act.spin_drums c cs u s l) h = ground arith
  Act-budget k (Act.reveal c u s t) h = ground arith
  Act-budget k (Act.zero_unseen c o r t l) h = ground arith
  Act-budget k (Act.zero_marked c o r t l) h = ground arith
  Act-budget k (Act.zero_held c r v p t) h = ground arith
  Act-budget k (Act.take_display c o r v t n) h = ground arith
  Act-budget k (Act.end_message c e n) h = ground arith
  Act-budget k (Act.give_up c u v p t) h = ground arith
  Act-budget k (Act.resume_running c p v t) h = ground arith
  Act-budget k (Act.resume_reveal c p v t) h = ground arith

  Act-IsOver :
      {c d : Control} → Act env utc_ms c d → IsOver c → IsOver d × (noise d.log ≡ noise c.log)
  Act-IsOver (Act.sound_warn4 c r l t) h = ground arith
  Act-IsOver (Act.sound_warn1 c r l t) h = ground arith
  Act-IsOver (Act.sound_failure c u b p l) h = ground arith
  Act-IsOver (Act.reach_zero c u r t) h = ground arith
  Act-IsOver (Act.begin_spin c u z t) h = ground arith
  Act-IsOver (Act.spin_drums c cs u s l) h = ground arith
  Act-IsOver (Act.reveal c u s t) h = ground arith
  Act-IsOver (Act.zero_unseen c o r t l) h = ground arith
  Act-IsOver (Act.zero_marked c o r t l) h = ground arith
  Act-IsOver (Act.zero_held c r v p t) h = ground arith
  Act-IsOver (Act.take_display c o r v t n) h = ground arith
  Act-IsOver (Act.end_message c e n) h = ground arith
  Act-IsOver (Act.give_up c u v p t) h = ground arith
  Act-IsOver (Act.resume_running c p v t) h = ground arith
  Act-IsOver (Act.resume_reveal c p v t) h = ground arith

  Act-IsPending :
      {c d : Control} → Act env utc_ms c d → IsPending utc_ms c → IsPending utc_ms d × (d.cd ≡ c.cd)
  Act-IsPending (Act.sound_warn4 c r l t) h = ground arith
  Act-IsPending (Act.sound_warn1 c r l t) h = ground arith
  Act-IsPending (Act.sound_failure c u b p l) h = ground arith
  Act-IsPending (Act.reach_zero c u r t) h = ground arith
  Act-IsPending (Act.begin_spin c u z t) h = ground arith
  Act-IsPending (Act.spin_drums c cs u s l) h = ground arith
  Act-IsPending (Act.reveal c u s t) h = ground arith
  Act-IsPending (Act.zero_unseen c o r t l) h = ground arith
  Act-IsPending (Act.zero_marked c o r t l) h = ground arith
  Act-IsPending (Act.zero_held c r v p t) h = ground arith
  Act-IsPending (Act.take_display c o r v t n) h = ground arith
  Act-IsPending (Act.end_message c e n) h = ground arith
  Act-IsPending (Act.give_up c u v p t) h = ground arith
  Act-IsPending (Act.resume_running c p v t) h = ground arith
  Act-IsPending (Act.resume_reveal c p v t) h = ground arith

  Act-IsLively : {c d : Control} → Act env utc_ms c d → IsLively c → IsLively d
  Act-IsLively (Act.sound_warn4 c r l t) h = ground arith
  Act-IsLively (Act.sound_warn1 c r l t) h = ground arith
  Act-IsLively (Act.sound_failure c u b p l) h = ground arith
  Act-IsLively (Act.reach_zero c u r t) h = ground arith
  Act-IsLively (Act.begin_spin c u z t) h = ground arith
  Act-IsLively (Act.spin_drums c cs u s l) h = ground arith
  Act-IsLively (Act.reveal c u s t) h = ground arith
  Act-IsLively (Act.zero_unseen c o r t l) h = ground arith
  Act-IsLively (Act.zero_marked c o r t l) h = ground arith
  Act-IsLively (Act.zero_held c r v p t) h = ground arith
  Act-IsLively (Act.take_display c o r v t n) h = ground arith
  Act-IsLively (Act.end_message c e n) h = ground arith
  Act-IsLively (Act.give_up c u v p t) h = ground arith
  Act-IsLively (Act.resume_running c p v t) h = ground arith
  Act-IsLively (Act.resume_reveal c p v t) h = ground arith

  pub Acts-budget :
      {c d : Control} (k : Cue)
      → Acts env utc_ms c d
      → c.pending_resume ≡ false
      → (d.pending_resume ≡ false) × (budget k d ≤ budget k c)
  Acts-budget k here h = (h, omega arith)
  Acts-budget k (next p a) h =
      let (free, less) = Acts-budget k p h in
      let (still, lesser) = Act-budget k a free in (still, omega arith)

  pub Acts-IsOver :
      {c d : Control} → Acts env utc_ms c d → IsOver c → IsOver d × (noise d.log ≡ noise c.log)
  Acts-IsOver here h = (h, refl)
  Acts-IsOver (next p a) h =
      let (over, e) = Acts-IsOver p h in let (still, e') = Act-IsOver a over in (still, e' ∙ e)

  pub Acts-IsPending :
      {c d : Control}
      → Acts env utc_ms c d
      → IsPending utc_ms c
      → IsPending utc_ms d × (d.cd ≡ c.cd)
  Acts-IsPending here h = (h, refl)
  Acts-IsPending (next p a) h =
      let (ahead, e) = Acts-IsPending p h in
      let (still, e') = Act-IsPending a ahead in (still, e' ∙ e)

  pub Acts-IsLively : {c d : Control} → Acts env utc_ms c d → IsLively c → IsLively d
  Acts-IsLively here h = h
  Acts-IsLively (next p a) h = Act-IsLively a (Acts-IsLively p h)
