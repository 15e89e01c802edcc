-- ===== src/Audio.antt =====
-- components/audio/wav.cpp and wav.h: the reader of a WAV header and the rules of the cues. The bytes
-- are those that the caller holds, none where the pointer is null; `word` is the number of values of
-- `size_t`. The walk over the chunks takes fuel.
pub mod Wav
pub mod Walk
pub mod Hang
pub mod Quiet
mod Examples
use lost_swan_firmware.Common.{
  ℕ, ◌*◌, ◌/◌, Bool, true, false, ◌&&◌, ◌||◌, ltb, leb, ◌==◌, if◌then◌else◌,
}
use lost_swan_firmware.Common.Int.{ℤ, pos, negsuc}

-- The gain of a volume as a multiple of 1/256.
unfoldable pub volume_scale_q8 : ℤ → Bool → ℕ
volume_scale_q8 (negsuc v) muted = 0
volume_scale_q8 (pos v) muted =
    let capped = if ltb 100 v then 100 else v in
    let g = capped * capped * 256 / 10000 in if muted then 0 else if ltb 256 g then 256 else g

-- Quiet from `start_min` until before `end_min`, over midnight where that is the earlier one.
unfoldable pub in_quiet_hours : ℕ → ℕ → ℕ → Bool
in_quiet_hours minute_of_day start_min end_min =
    if start_min == end_min
    then false
    else if ltb start_min end_min
    then leb start_min minute_of_day && ltb minute_of_day end_min
    else leb start_min minute_of_day || ltb minute_of_day end_min

pub data CueId : Type 0 where
  warn_4min : CueId
  warn_1min : CueId
  system_failure : CueId
  ui_execute : CueId
  ui_reject : CueId

pub record CuePolicy : Type 0 where
  loop : Bool
  max_loop_s : ℤ
  interrupts : Bool

-- The alarm loops, for a time; a key click cuts nothing off.
unfoldable pub cue_policy : CueId → ℤ → CuePolicy
cue_policy CueId.system_failure failure_loop_s = record {
  loop = true;
  max_loop_s = failure_loop_s;
  interrupts = true;
}
cue_policy CueId.ui_execute failure_loop_s = record {
  loop = false;
  max_loop_s = pos 0;
  interrupts = false;
}
cue_policy CueId.ui_reject failure_loop_s = record {
  loop = false;
  max_loop_s = pos 0;
  interrupts = false;
}
cue_policy _ failure_loop_s = record { loop = false; max_loop_s = pos 0; interrupts = true }
