-- ===== src/Audio/Examples.antt =====
-- Runs of components/audio/wav.cpp on concrete files, and the theorems at them.
use lost_swan_firmware.Common.{ℕ, ◌^◌, ◌≡◌, refl, true, arith, List, [], ◌∷◌, ◌++◌}
use lost_swan_firmware.Audio.Wav.{
  found, stuck, byte_at, rd16, rd32, tag, finish, fmt_chunk, data_chunk, chunk, walk, wav_parse,
}
use lost_swan_firmware.Audio.Walk.{IsPlayable, wav_parse-IsPlayable, Settles, wav_parse-Settles}
use lost_swan_firmware.Audio.Hang.{wav_parse_stuck}

abbrev riff : List ℕ
riff = b'R' ∷ b'I' ∷ b'F' ∷ b'F' ∷ 38 ∷ 0 ∷ 0 ∷ 0 ∷ b'W' ∷ b'A' ∷ b'V' ∷ b'E' ∷ []

-- 22050 samples a second, mono, 16 bits.
abbrev fmt : List ℕ
fmt =
    b'f' ∷ b'm' ∷ b't' ∷ b' ' ∷ 16 ∷ 0 ∷ 0 ∷ 0 ∷ 1 ∷ 0 ∷ 1 ∷ 0 ∷ 34 ∷ 86 ∷ 0 ∷ 0 ∷ 68 ∷ 172 ∷ 0 ∷ 0
    ∷ 2 ∷ 0 ∷ 16 ∷ 0 ∷ []

-- The header says 200 bytes of samples, and two follow.
abbrev cue : List ℕ
cue = riff ++ (fmt ++ (b'd' ∷ b'a' ∷ b't' ∷ b'a' ∷ 200 ∷ 0 ∷ 0 ∷ 0 ∷ 7 ∷ 0 ∷ []))

-- A first chunk that gives 2^32 - 8 as its size.
abbrev looping : List ℕ
looping = riff ++ ((b'L' ∷ b'I' ∷ b'S' ∷ b'T' ∷ 248 ∷ 255 ∷ 255 ∷ 255 ∷ []) ++ fmt)

cue_found :
    wav_parse (2 ^ 64) 46 cue 0
    ≡ found (record {
      ok = true;
      sample_rate = 22050;
      channels = 1;
      bits = 16;
      data_offset = 44;
      data_bytes = 2;
    })
unfolding wav_parse walk chunk fmt_chunk data_chunk finish tag rd32 rd16 byte_at
cue_found = refl

wav_parse-IsPlayable_example : IsPlayable 46 (record {
  ok = true;
  sample_rate = 22050;
  channels = 1;
  bits = 16;
  data_offset = 44;
  data_bytes = 2;
})
wav_parse-IsPlayable_example = wav_parse-IsPlayable (2 ^ 64) 46 cue 0 _ cue_found

wav_parse-Settles_example : Settles (wav_parse (2 ^ 64) 46 cue 0)
wav_parse-Settles_example = wav_parse-Settles (2 ^ 64) 46 cue 0 (omega arith) (omega arith)

wav_parse_stuck_example : wav_parse (2 ^ 32) 1000 looping 0 ≡ stuck
unfolding tag rd32 byte_at
wav_parse_stuck_example = wav_parse_stuck 1000 looping 0 (omega arith) refl refl refl refl
