-- ===== src/Audio/Walk.antt =====
-- What `wav_parse` (components/audio/wav.cpp) accepts, and that its walk over the chunks ends where
-- `size_t` is wide enough for the sums that it forms.
use lost_swan_firmware.Common.{
  ℕ, zero, suc, ◌+◌, ◌-◌, ◌%◌, ◌^◌, ◌≤◌, ◌<◌, ◌≡◌, refl, subst, Bool, true, false, not, ◌||◌, ltb,
  leb, ◌==◌, arith, if◌then◌else◌, List, length, by_branch, either_branch,
}
use lost_swan_firmware.Audio.Wav.{
  WavInfo, Outcome, found, refused, wild, stuck, no_wav, rd32, finish, Chunk, on, samples, bad,
  on_chunk, read_fmt, fmt_chunk, data_chunk, chunk, next_index, walk, file_len, wav_parse,
}
use Prim.Native.String.{String}
use native.Mathlib.Nat.{mod-eq_of_lt, mod-le, mod-lt}

-- Sound that the player can take, within a file of `total_len` bytes.
abbrev pub IsPlayable : ℕ → WavInfo → Type 0
IsPlayable total_len w =
    (w.ok ≡ true)
    × (w.channels ≡ 1)
    × (w.bits ≡ 16)
    × (8000 ≤ w.sample_rate)
    × (w.sample_rate ≤ 32000)
    × (0 < w.data_bytes)
    × (w.data_offset + w.data_bytes ≤ total_len)

abbrev Fits : ℕ → WavInfo → Type 0
Fits total_len w = w.data_offset + w.data_bytes ≤ total_len

data Delivers (total_len : ℕ) : Outcome → Type 0 where
  plays : (w : WavInfo) → IsPlayable total_len w → Delivers total_len (found w)
  declines : (why : String) (w : WavInfo) → Delivers total_len (refused why w)
  strays : Delivers total_len wild
  gives_out : Delivers total_len stuck

Delivers-IsPlayable :
    (total_len : ℕ) (w : WavInfo) → Delivers total_len (found w) → IsPlayable total_len w
Delivers-IsPlayable total_len w (plays _ h) = h

finish-Delivers :
    (total_len : ℕ) (have_fmt : Bool) (w : WavInfo)
    → Fits total_len w
    → Delivers total_len (finish have_fmt w)
unfolding finish
finish-Delivers total_len have_fmt w fits =
    by_branch (Delivers total_len) (not have_fmt) (λ no. declines "no fmt chunk" w)
      (λ fmt.
        by_branch (Delivers total_len) (w.data_offset == 0) (λ no. declines "no data chunk" w)
          (λ set.
            by_branch (Delivers total_len) (not (w.channels == 1))
              (λ no. declines "not mono (spec 9)" w)
              (λ mono.
                by_branch (Delivers total_len) (not (w.bits == 16))
                  (λ no. declines "not 16-bit (spec 9)" w)
                  (λ wide.
                    by_branch (Delivers total_len)
                      (ltb w.sample_rate 8000 || ltb 32000 w.sample_rate)
                      (λ no. declines "sample rate outside 8000-32000 (spec 9: 22050, or 16000)" w)
                      (λ rate.
                        by_branch (Delivers total_len) (w.data_bytes == 0)
                          (λ no. declines "no samples" w)
                          (λ some_left.
                            plays (record w { ok = true })
                              (
                                refl,
                                ground arith,
                                ground arith,
                                ground arith,
                                ground arith,
                                ground arith,
                                fits,
                              )))))))

data KeepsFit (total_len : ℕ) : Chunk → Type 0 where
  onward : (have_fmt : Bool) (w : WavInfo) → Fits total_len w → KeepsFit total_len (on have_fmt w)
  at_samples : (w : WavInfo) → Fits total_len w → KeepsFit total_len (samples w)
  spoilt : (why : String) (w : WavInfo) → KeepsFit total_len (bad why w)

on_chunk-Delivers :
    (total_len : ℕ) (walk : Bool → WavInfo → Outcome) (c : Chunk)
    → KeepsFit total_len c
    → ((have_fmt : Bool) (w : WavInfo) → Fits total_len w → Delivers total_len (walk have_fmt w))
    → Delivers total_len (on_chunk walk c)
on_chunk-Delivers total_len walk c (onward have_fmt w fits) step = step have_fmt w fits
on_chunk-Delivers total_len walk c (at_samples w fits) step = finish-Delivers total_len true w fits
on_chunk-Delivers total_len walk c (spoilt why w) step = declines why w

module _ (word : ℕ) (bytes : List ℕ) (total_len : ℕ) where
  fmt_chunk-KeepsFit :
      (i : ℕ) (w : WavInfo)
      → Fits total_len w
      → KeepsFit total_len (fmt_chunk word bytes total_len i w)
  unfolding fmt_chunk
  fmt_chunk-KeepsFit i w fits =
      either_branch (KeepsFit total_len) _ (spoilt "truncated fmt chunk" w) (
        either_branch (KeepsFit total_len) _
          (spoilt "not uncompressed PCM" (read_fmt word bytes total_len (i + 8) w))
          (onward true (read_fmt word bytes total_len (i + 8) w) fits))

  avail_bound :
      (i : ℕ)
      → i + 8 ≤ total_len
      → i + 8 + (if ltb (i + 8) total_len then total_len - (i + 8) else 0) ≤ total_len
  avail_bound i inside = ground arith

  data_chunk-KeepsFit :
      (i : ℕ) (have_fmt : Bool) (w : WavInfo)
      → i + 8 ≤ total_len
      → KeepsFit total_len (data_chunk word bytes total_len i have_fmt w)
  unfolding data_chunk
  data_chunk-KeepsFit i have_fmt w inside =
      let size = rd32 bytes (i + 4) in
      let avail = if ltb (i + 8) total_len then total_len - (i + 8) else 0 in
      let kept = if ltb size avail then size else avail in
      let kept-bound : kept ≤ avail = ground arith in
      either_branch (KeepsFit total_len) _ (spoilt "data chunk before fmt" w) (
        at_samples (record w { data_offset = (i + 8) % 2 ^ 32; data_bytes = kept % 2 ^ 32 })
          (omega (
            arith,
            mod-le (i + 8) (2 ^ 32),
            mod-le kept (2 ^ 32),
            avail_bound i inside,
            kept-bound,
          )))

  chunk-KeepsFit :
      (i : ℕ) (have_fmt : Bool) (w : WavInfo)
      → i + 8 ≤ total_len
      → Fits total_len w
      → KeepsFit total_len (chunk word bytes total_len i have_fmt w)
  unfolding chunk
  chunk-KeepsFit i have_fmt w inside fits =
      either_branch (KeepsFit total_len) _ (fmt_chunk-KeepsFit i w fits) (
        either_branch (KeepsFit total_len) _ (data_chunk-KeepsFit i have_fmt w inside)
          (onward have_fmt w fits))

  walk-Delivers :
      (fuel i : ℕ) (have_fmt : Bool) (w : WavInfo)
      → length bytes ≤ total_len
      → Fits total_len w
      → Delivers total_len (walk word bytes total_len fuel i have_fmt w)
  unfolding walk
  walk-Delivers zero i have_fmt w held fits = gives_out
  walk-Delivers (suc fuel) i have_fmt w held fits =
      either_branch (Delivers total_len) _ (finish-Delivers total_len have_fmt w fits) (
        by_branch (Delivers total_len) (ltb (length bytes) (i + 8)) (λ out. strays)
          (λ inside.
            on_chunk-Delivers total_len _ (chunk word bytes total_len i have_fmt w)
              (chunk-KeepsFit i have_fmt w (ground arith) fits)
              (λ h v k. walk-Delivers fuel (next_index word bytes total_len i) h v held k)))

file_len-bound : (bytes : List ℕ) (total_len : ℕ) → length bytes ≤ file_len bytes total_len
file_len-bound bytes total_len = ground arith

wav_parse-Delivers :
    (word fuel : ℕ) (bytes : List ℕ) (total_len : ℕ)
    → Delivers (file_len bytes total_len) (wav_parse word fuel bytes total_len)
unfolding wav_parse
wav_parse-Delivers word fuel bytes total_len =
    either_branch (Delivers (file_len bytes total_len)) _ (declines "too short to be a WAV" no_wav)
      (either_branch (Delivers (file_len bytes total_len)) _
        (declines "not a RIFF/WAVE file" no_wav)
        (walk-Delivers word bytes (file_len bytes total_len) fuel 12 false no_wav
          (file_len-bound bytes total_len) (omega arith)))

-- A WAV file that is accepted, by a `size_t` of any width, is mono of 16 bits at 8000 to 32000
-- samples a second; it has samples, and they lie within the file, whatever its header says of their
-- length.
pub wav_parse-IsPlayable :
    (word fuel : ℕ) (bytes : List ℕ) (total_len : ℕ) (w : WavInfo)
    → wav_parse word fuel bytes total_len ≡ found w
    → IsPlayable (file_len bytes total_len) w
wav_parse-IsPlayable word fuel bytes total_len w e =
    Delivers-IsPlayable (file_len bytes total_len) w
      (subst (Delivers (file_len bytes total_len)) e (wav_parse-Delivers word fuel bytes total_len))

-- Neither out of fuel nor outside of the bytes.
pub data Settles : Outcome → Type 0 where
  takes : (w : WavInfo) → Settles (found w)
  turns_away : (why : String) (w : WavInfo) → Settles (refused why w)

finish-Settles : (have_fmt : Bool) (w : WavInfo) → Settles (finish have_fmt w)
unfolding finish
finish-Settles have_fmt w = either_branch Settles _ (turns_away "no fmt chunk" w) (
    either_branch Settles _ (turns_away "no data chunk" w) (
      either_branch Settles _ (turns_away "not mono (spec 9)" w) (
        either_branch Settles _ (turns_away "not 16-bit (spec 9)" w) (
          either_branch Settles _
            (turns_away "sample rate outside 8000-32000 (spec 9: 22050, or 16000)" w)
            (either_branch Settles _ (turns_away "no samples" w)
              (takes (record w { ok = true })))))))

on_chunk-Settles :
    (walk : Bool → WavInfo → Outcome) (c : Chunk)
    → ((have_fmt : Bool) (w : WavInfo) → Settles (walk have_fmt w))
    → Settles (on_chunk walk c)
on_chunk-Settles walk (on have_fmt w) step = step have_fmt w
on_chunk-Settles walk (samples w) step = finish-Settles true w
on_chunk-Settles walk (bad why w) step = turns_away why w

module _ (word : ℕ) (bytes : List ℕ) (total_len : ℕ) (wide : length bytes + 2 ^ 32 + 8 < word) where
  rd32-bound : (i : ℕ) → rd32 bytes i < 2 ^ 32
  unfolding rd32
  rd32-bound i = mod-lt _ (omega arith)

  next_index-ahead :
      (i : ℕ)
      → i + 8 ≤ length bytes
      → (i + 8 ≤ next_index word bytes total_len i) × (next_index word bytes total_len i + 8 < word)
  next_index-ahead i inside =
      let size = rd32 bytes (i + 4) in
      let small : size < 2 ^ 32 = rd32-bound (i + 4) in
      let pad : size + size % 2 ≤ 2 ^ 32 = omega arith in
      let e : next_index word bytes total_len i ≡ i + 8 + size + size % 2 =
        mod-eq_of_lt (omega (arith, wide)) in
      (omega (arith, e), omega (arith, e, wide))

  walk-Settles :
      (fuel i : ℕ) (have_fmt : Bool) (w : WavInfo)
      → i + 8 < word
      → 0 < fuel
      → length bytes < i + fuel
      → Settles (walk word bytes total_len fuel i have_fmt w)
  unfolding walk
  walk-Settles zero i have_fmt w low some_left enough = absurd (omega arith)
  walk-Settles (suc fuel) i have_fmt w low some_left enough =
      let same : (i + 8) % word ≡ i + 8 = mod-eq_of_lt low in
      by_branch Settles (not (leb ((i + 8) % word) (length bytes)))
        (λ over. finish-Settles have_fmt w)
        (λ within.
          let inside : i + 8 ≤ length bytes = ground (arith, same) in
          let (ahead, low') = next_index-ahead i inside in
          by_branch Settles (ltb (length bytes) (i + 8)) (λ out. absurd (ground (arith, inside)))
            (λ fits. on_chunk-Settles _ (chunk word bytes total_len i have_fmt w) (λ h v.
              walk-Settles fuel (next_index word bytes total_len i) h v low' (omega arith)
                (omega arith))))

-- Where `size_t` has room for the length of the bytes held and a chunk size more, the walk over the
-- chunks ends within as many rounds as there are bytes, with a file taken or refused, and no test
-- that a sum wrapped lets it read outside of the bytes.
pub wav_parse-Settles :
    (word fuel : ℕ) (bytes : List ℕ) (total_len : ℕ)
    → length bytes + 2 ^ 32 + 8 < word
    → length bytes ≤ fuel
    → Settles (wav_parse word fuel bytes total_len)
unfolding wav_parse
wav_parse-Settles word fuel bytes total_len wide enough =
    by_branch Settles (ltb (length bytes) 44) (λ short. turns_away "too short to be a WAV" no_wav)
      (λ long. either_branch Settles _ (turns_away "not a RIFF/WAVE file" no_wav) (
        walk-Settles word bytes (file_len bytes total_len) wide fuel 12 false no_wav
          (omega (arith, wide)) (ground (arith, long, enough)) (ground (arith, enough))))
