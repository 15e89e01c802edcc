-- ===== src/LogRing.antt =====
-- components/journal/log_ring.cpp and log_ring.h: the byte ring of log lines. The storage is a function
-- from positions to byte values, below 256, so that `|` of shifted bytes is a sum. The sizes are far
-- below the range of `size_t`.
pub mod Bytes
pub mod Lines
pub mod Runs
pub mod Append
pub mod Push
pub mod Reader
mod Examples
use lost_swan_firmware.Common.{
  is_empty, ℕ, zero, suc, ◌+◌, ◌-◌, ◌*◌, ◌/◌, ◌%◌, ◌^◌, Bool, true, false, not, ◌&&◌, ◌||◌, min,
  ltb, leb, ◌==◌, if◌then◌else◌, List, [], ◌∷◌, ◌++◌, length, drop, replicate,
}

abbrev pub log_line_max : ℕ
log_line_max = 160

-- Bytes of the length before each line.
abbrev pub hdr : ℕ
hdr = 2

pub record LogRing : Type 0 where
  pub buf : ℕ → ℕ
  pub has_storage : Bool
  pub cap : ℕ
  pub head : ℕ
  pub tail : ℕ
  pub used : ℕ
  pub lines : ℕ
  pub dropped : ℕ  -- uint32_t

abbrev pub set_byte : (ℕ → ℕ) → ℕ → ℕ → ℕ → ℕ
set_byte buf i v j = if j == i then v else buf j

unfoldable pub length_at : LogRing → ℕ → ℕ
length_at r p = r.buf p + 256 * r.buf ((p + 1) % r.cap)

unfoldable pub pop_oldest : LogRing → LogRing
unfolding length_at
pop_oldest r =
    let len = length_at r r.tail in
    if r.lines == 0 then r else record r {
      tail = (r.tail + hdr + len) % r.cap;
      used = r.used - (hdr + len);
      lines = r.lines - 1;
      dropped = (r.dropped + 1) % 2 ^ 32;
    }

-- `while (used_ + need > cap_) pop_oldest();` on fuel.
unfoldable pub evict : ℕ → ℕ → LogRing → LogRing
evict zero need r = r
evict (suc fuel) need r =
    let rest = evict fuel need (pop_oldest r) in if ltb r.cap (r.used + need) then rest else r

abbrev pub is_newline : ℕ → Bool
is_newline c = c == 10 || c == 13

-- Newlines at the end are taken off.
unfoldable pub trim : List ℕ → List ℕ
trim [] = []
trim (c ∷ s) = let rest = trim s in if is_empty rest && is_newline c then [] else c ∷ rest

unfoldable pub take : ℕ → List ℕ → List ℕ
take zero s = []
take (suc n) [] = []
take (suc n) (c ∷ s) = c ∷ take n s

-- `memcpy` of a run that does not wrap.
unfoldable pub copy_run : (ℕ → ℕ) → ℕ → List ℕ → ℕ → ℕ
copy_run buf p [] = buf
copy_run buf p (b ∷ s) = copy_run (set_byte buf p b) (p + 1) s

-- One byte after the other, wrapping.
unfoldable pub copy_wrapped : ℕ → (ℕ → ℕ) → ℕ → List ℕ → ℕ → ℕ
copy_wrapped turn buf p [] = buf
copy_wrapped turn buf p (b ∷ s) = copy_wrapped turn (set_byte buf p b) ((p + 1) % turn) s

-- `buf_[head_] = total & 0xFF; buf_[(head_ + 1) % cap_] = (total >> 8) & 0xFF;`
unfoldable pub put_length : LogRing → ℕ → LogRing
put_length r total = record r {
  buf = set_byte (set_byte r.buf r.head (total % 256)) ((r.head + 1) % r.cap) (total / 256 % 256);
  head = (r.head + hdr) % r.cap;
}

-- The text, in two runs where it wraps.
unfoldable pub put_text : LogRing → List ℕ → LogRing
unfolding copy_run take
put_text r text =
    let first = min (length text) (r.cap - r.head) in
    record r {
      buf = copy_run (copy_run r.buf r.head (take first text)) 0 (drop first text);
      head = (r.head + length text) % r.cap;
    }

abbrev pub dots : List ℕ
dots = 46 ∷ 46 ∷ 46 ∷ []

-- The marker of a line that was cut.
unfoldable pub put_dots : LogRing → LogRing
unfolding copy_wrapped
put_dots r = record r {
  buf = copy_wrapped r.cap r.buf r.head dots;
  head = (((r.head + 1) % r.cap + 1) % r.cap + 1) % r.cap;
}

-- The part of `push` after the room was made; `truncated` adds the marker.
unfoldable pub append_line : LogRing → List ℕ → Bool → LogRing
unfolding put_length put_text put_dots
append_line r text truncated =
    let total = length text + (if truncated then 3 else 0) in
    let put = put_text (put_length r total) text in
    let marked = if truncated then put_dots put else put in
    record marked { used = r.used + (hdr + total); lines = r.lines + 1 }

unfoldable pub push_text : LogRing → List ℕ → Bool → LogRing
unfolding evict append_line
push_text r text truncated =
    let need = hdr + length text + (if truncated then 3 else 0) in
    if ltb r.cap need then r else append_line (evict r.lines need r) text truncated

-- Whether a line is over the limit, alone or with the marker that it needs.
abbrev pub is_cut : List ℕ → Bool → Bool
is_cut line truncated =
    ltb log_line_max (length line) || (truncated && ltb log_line_max (length line + 3))

unfoldable pub kept_text : List ℕ → Bool → List ℕ
unfolding take
kept_text line truncated = if is_cut line truncated then take (log_line_max - 3) line else line

unfoldable pub push : LogRing → List ℕ → Bool → LogRing
push r bytes truncated =
    let line = trim bytes in
    if not r.has_storage || ltb r.cap (hdr + 4)
    then r
    else if is_empty line
    then r
    else push_text r (kept_text line truncated) (is_cut line truncated || truncated)

unfoldable pub clear : LogRing → LogRing
clear r = record r { head = 0; tail = 0; used = 0; lines = 0 }
