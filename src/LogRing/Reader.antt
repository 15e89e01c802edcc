-- ===== src/LogRing/Reader.antt =====
-- components/journal/log_ring.cpp, the reader of the ring. What is written to the caller's buffer is
-- the list of its bytes; a read with no limit has `max_bytes` 0.
pub mod Output
pub mod Stored
pub mod Capped
use lost_swan_firmware.Common.{
  ℕ, zero, suc, ◌+◌, ◌-◌, ◌*◌, ◌%◌, Bool, true, false, not, ◌&&◌, ◌||◌, min, ltb, leb, ◌==◌,
  if◌then◌else◌, List, [], ◌∷◌, ◌++◌, length,
}
use lost_swan_firmware.LogRing.{LogRing, hdr, length_at, log_line_max}

-- The loop that skips old lines, over the lines that are left; the results are where to start and how
-- many lines remain from there.
unfoldable pub skip_lines : ℕ → LogRing → ℕ → ℕ → ℕ → ℕ × ℕ
unfolding length_at
skip_lines zero r max_bytes p remaining = (p, 0)
skip_lines (suc left) r max_bytes p remaining =
    let len = length_at r p in
    let rest =
      skip_lines left r max_bytes ((p + hdr + len) % r.cap) (remaining - (hdr + len + 1)) in
    if leb remaining max_bytes then (p, suc left) else rest

unfoldable pub start_of_capped : LogRing → ℕ → ℕ × ℕ
unfolding skip_lines
start_of_capped r max_bytes =
    if max_bytes == 0 || leb (r.used + r.lines) max_bytes
    then (r.tail, r.lines)
    else skip_lines r.lines r max_bytes r.tail (r.used + r.lines)

-- `memcpy` from a run that does not wrap.
unfoldable pub read_run : (ℕ → ℕ) → ℕ → ℕ → List ℕ
read_run buf p zero = []
read_run buf p (suc n) = buf p ∷ read_run buf (p + 1) n

-- A line, in two runs where it wraps.
unfoldable pub read_line : LogRing → ℕ → ℕ → List ℕ
unfolding read_run
read_line r p len =
    let first = min len (r.cap - p) in read_run r.buf p first ++ read_run r.buf 0 (len - first)

-- The loop of `read_into` over the lines that are left; `out` bytes were written before.
unfoldable pub read_lines : ℕ → LogRing → ℕ → ℕ → ℕ → List ℕ
unfolding length_at read_line
read_lines zero r dst_cap p out = []
read_lines (suc left) r dst_cap p out =
    let len = length_at r p in
    let q = (p + hdr) % r.cap in
    let rest = read_lines left r dst_cap ((q + len) % r.cap) (out + len + 1) in
    if ltb dst_cap (out + len + 1) then [] else read_line r q len ++ (10 ∷ rest)

unfoldable pub read_into : LogRing → ℕ → ℕ → List ℕ
unfolding start_of_capped read_lines
read_into r dst_cap max_bytes =
    let (p, left) = start_of_capped r max_bytes in
    if dst_cap == 0 || r.lines == 0 then [] else read_lines left r dst_cap p 0

unfoldable pub read : LogRing → ℕ → List ℕ
read r max_bytes =
    let all = r.used + r.lines in
    let room =
      if not (max_bytes == 0) && ltb max_bytes all then max_bytes + log_line_max + 1 else all in
    if r.lines == 0 then [] else read_into r room max_bytes
