-- ===== src/Audio/Wav.antt =====
-- components/audio/wav.cpp, `wav_parse`. A byte is a number below 256, so that `|` of shifted bytes is
-- a sum. The bytes held are at least 16 fewer than `word`, so that only the index of a chunk can wrap:
-- where the test of the loop passes for that reason alone, it reads outside of them, which is `wild`.
use lost_swan_firmware.Common.{
  ℕ, zero, suc, ◌+◌, ◌-◌, ◌*◌, ◌/◌, ◌%◌, ◌^◌, Bool, true, false, not, ◌&&◌, ◌||◌, ltb, leb, ◌==◌,
  if◌then◌else◌, List, none, some, get_elem?, length,
}
use Prim.Native.String.{String}

pub record WavInfo : Type 0 where
  pub ok : Bool
  pub sample_rate : ℕ
  pub channels : ℕ
  pub bits : ℕ
  pub data_offset : ℕ
  pub data_bytes : ℕ

-- The file is taken; it is refused, with what was read of it; the reader left the bytes; or it ran out
-- of fuel.
pub data Outcome : Type 0 where
  found : WavInfo → Outcome
  refused : String → WavInfo → Outcome
  wild : Outcome
  stuck : Outcome

abbrev pub no_wav : WavInfo
no_wav = record {
  ok = false;
  sample_rate = 0;
  channels = 0;
  bits = 0;
  data_offset = 0;
  data_bytes = 0;
}

unfoldable pub duration_ms : WavInfo → ℕ
duration_ms w =
    let frame = w.channels * (w.bits / 8) in
    if not w.ok || frame == 0 || w.sample_rate == 0
    then 0
    else w.data_bytes / frame * 1000 / w.sample_rate % 2 ^ 32

unfoldable pub byte_at : List ℕ → ℕ → ℕ
byte_at bytes i = elim (get_elem? bytes i) [ none ↦ 0 | some b ↦ b ]

unfoldable pub rd16 : List ℕ → ℕ → ℕ
rd16 bytes i = (byte_at bytes i + 256 * byte_at bytes (i + 1)) % 2 ^ 16

unfoldable pub rd32 : List ℕ → ℕ → ℕ
rd32 bytes i =
    (byte_at bytes i
      + 256 * byte_at bytes (i + 1)
      + 65536 * byte_at bytes (i + 2)
      + 16777216 * byte_at bytes (i + 3))
    % 2 ^ 32

unfoldable pub tag : List ℕ → ℕ → ℕ → ℕ → ℕ → ℕ → Bool
tag bytes i a b c d =
    (byte_at bytes i == a)
    && (byte_at bytes (i + 1) == b)
    && (byte_at bytes (i + 2) == c)
    && (byte_at bytes (i + 3) == d)

abbrev pub is_riff_wave : List ℕ → Bool
is_riff_wave bytes = tag bytes 0 b'R' b'I' b'F' b'F' && tag bytes 8 b'W' b'A' b'V' b'E'

abbrev pub is_fmt : List ℕ → ℕ → Bool
is_fmt bytes i = tag bytes i b'f' b'm' b't' b' '

abbrev pub is_data : List ℕ → ℕ → Bool
is_data bytes i = tag bytes i b'd' b'a' b't' b'a'

-- What follows the walk.
unfoldable pub finish : Bool → WavInfo → Outcome
finish have_fmt w =
    if not have_fmt
    then refused "no fmt chunk" w
    else if w.data_offset == 0
    then refused "no data chunk" w
    else if not (w.channels == 1)
    then refused "not mono (spec 9)" w
    else if not (w.bits == 16)
    then refused "not 16-bit (spec 9)" w
    else if ltb w.sample_rate 8000 || ltb 32000 w.sample_rate
    then refused "sample rate outside 8000-32000 (spec 9: 22050, or 16000)" w
    else if w.data_bytes == 0
    then refused "no samples" w
    else found (record w { ok = true })

-- A chunk is passed over or read and the walk goes on; it holds the samples; or the file is bad.
pub data Chunk : Type 0 where
  on : Bool → WavInfo → Chunk
  samples : WavInfo → Chunk
  bad : String → WavInfo → Chunk

abbrev pub on_chunk : (Bool → WavInfo → Outcome) → Chunk → Outcome
on_chunk walk (on have_fmt w) = walk have_fmt w
on_chunk walk (samples w) = finish true w
on_chunk walk (bad why w) = refused why w

module _ (word : ℕ) (bytes : List ℕ) (total_len : ℕ) where
  abbrev pub read_fmt : ℕ → WavInfo → WavInfo
  read_fmt body w = record w {
    channels = rd16 bytes (body + 2);
    sample_rate = rd32 bytes (body + 4);
    bits = rd16 bytes (body + 14);
  }

  unfoldable pub fmt_chunk : ℕ → WavInfo → Chunk
  fmt_chunk i w =
      let body = i + 8 in
      if ltb (rd32 bytes (i + 4)) 16 || ltb (length bytes) ((body + 16) % word)
      then bad "truncated fmt chunk" w
      else if not (rd16 bytes body == 1)
      then bad "not uncompressed PCM" (read_fmt body w)
      else on true (read_fmt body w)

  -- The samples end with the file, whatever the header says.
  unfoldable pub data_chunk : ℕ → Bool → WavInfo → Chunk
  data_chunk i have_fmt w =
      let body = i + 8 in
      let size = rd32 bytes (i + 4) in
      let avail = if ltb body total_len then total_len - body else 0 in
      if not have_fmt
      then bad "data chunk before fmt" w
      else samples (record w {
        data_offset = body % 2 ^ 32;
        data_bytes = (if ltb size avail then size else avail) % 2 ^ 32;
      })

  unfoldable pub chunk : ℕ → Bool → WavInfo → Chunk
  chunk i have_fmt w =
      if is_fmt bytes i
      then fmt_chunk i w
      else if is_data bytes i
      then data_chunk i have_fmt w
      else on have_fmt w

  -- A chunk of odd size is followed by a pad byte.
  abbrev pub next_index : ℕ → ℕ
  next_index i = (i + 8 + rd32 bytes (i + 4) + rd32 bytes (i + 4) % 2) % word

  unfoldable pub walk : ℕ → ℕ → Bool → WavInfo → Outcome
  walk zero i have_fmt w = stuck
  walk (suc fuel) i have_fmt w =
      let rest = walk fuel (next_index i) in
      if not (leb ((i + 8) % word) (length bytes))
      then finish have_fmt w
      else if ltb (length bytes) (i + 8)
      then wild
      else on_chunk rest (chunk i have_fmt w)

-- A length of the file that is less than what is held counts as that.
abbrev pub file_len : List ℕ → ℕ → ℕ
file_len bytes total_len = if ltb total_len (length bytes) then length bytes else total_len

unfoldable pub wav_parse : ℕ → ℕ → List ℕ → ℕ → Outcome
wav_parse word fuel bytes total_len =
    if ltb (length bytes) 44
    then refused "too short to be a WAV" no_wav
    else if not (is_riff_wave bytes)
    then refused "not a RIFF/WAVE file" no_wav
    else walk word bytes (file_len bytes total_len) fuel 12 false no_wav
