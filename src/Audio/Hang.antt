-- ===== src/Audio/Hang.antt =====
-- `wav_parse` (components/audio/wav.cpp) where `size_t` has 32 bits, as it has on the device: the sum
-- that passes over a chunk wraps.
use lost_swan_firmware.Common.{
  ℕ, zero, suc, ◌-◌, ◌^◌, ◌≤◌, ◌≡◌, refl, Bool, true, false, ltb, leb, arith, List, length,
}
use lost_swan_firmware.Audio.Wav.{
  WavInfo, stuck, no_wav, rd32, is_fmt, is_data, is_riff_wave, on, chunk, next_index, walk,
  file_len, wav_parse,
}

module _ (bytes : List ℕ) (total_len : ℕ) where
  chunk-other :
      (word i : ℕ) (have_fmt : Bool) (w : WavInfo)
      → is_fmt bytes i ≡ false
      → is_data bytes i ≡ false
      → chunk word bytes total_len i have_fmt w ≡ on have_fmt w
  unfolding chunk
  chunk-other word i have_fmt w other_fmt other_data = rw (other_fmt, other_data) refl

  next_index-back : rd32 bytes 16 ≡ 2 ^ 32 - 8 → next_index (2 ^ 32) bytes total_len 12 ≡ 12
  next_index-back size = rw size refl

  walk_stuck :
      (fuel : ℕ) (have_fmt : Bool) (w : WavInfo)
      → 44 ≤ length bytes
      → is_fmt bytes 12 ≡ false
      → is_data bytes 12 ≡ false
      → rd32 bytes 16 ≡ 2 ^ 32 - 8
      → walk (2 ^ 32) bytes total_len fuel 12 have_fmt w ≡ stuck
  unfolding walk
  walk_stuck zero have_fmt w long other_fmt other_data size = refl
  walk_stuck (suc fuel) have_fmt w long other_fmt other_data size =
      let within : leb 20 (length bytes) ≡ true = ground arith in
      let inside : ltb (length bytes) 20 ≡ false = ground arith in
      rw
        (
          within,
          inside,
          chunk-other (2 ^ 32) 12 have_fmt w other_fmt other_data,
          next_index-back size,
        )
        (walk_stuck fuel have_fmt w long other_fmt other_data size)

-- With a `size_t` of 32 bits the walk over the chunks never ends on a RIFF/WAVE file of at least 44
-- bytes whose first chunk is neither `fmt ` nor `data` and gives 2^32 - 8 as its size.
pub wav_parse_stuck :
    (fuel : ℕ) (bytes : List ℕ) (total_len : ℕ)
    → 44 ≤ length bytes
    → is_riff_wave bytes ≡ true
    → is_fmt bytes 12 ≡ false
    → is_data bytes 12 ≡ false
    → rd32 bytes 16 ≡ 2 ^ 32 - 8
    → wav_parse (2 ^ 32) fuel bytes total_len ≡ stuck
unfolding wav_parse
wav_parse_stuck fuel bytes total_len long riff other_fmt other_data size =
    let full : ltb (length bytes) 44 ≡ false = ground arith in
    rw (full, riff)
      (walk_stuck bytes (file_len bytes total_len) fuel false no_wav long other_fmt other_data size)
