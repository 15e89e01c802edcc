-- ===== src/LogRing/Push.antt =====
-- A line pushed into the ring of components/journal/log_ring.cpp, against the list of lines.
use lost_swan_firmware.Common.{
  is_empty, ℕ, ◌+◌, ◌≤◌, ◌<◌, ◌≡◌, sym, refl, Bool, true, false, not, ◌||◌, ltb, if◌then◌else◌,
  List, [], ◌∷◌, ◌++◌, length, arith, Bool-cases, inl, inr, ltb→le,
}
use lost_swan_firmware.LogRing.{
  LogRing, log_line_max, evict, trim, is_cut, kept_text, push_text, push, clear,
}
use lost_swan_firmware.LogRing.Lines.{
  frames, Represents, make_room, make_room_fits, evict-Represents, evict_cap,
}
use lost_swan_firmware.LogRing.Append.{marker, append_line-Represents}
use lost_swan_firmware.LogRing.Runs.{length-take}
use native.Mathlib.Nat.{mod-eq_of_lt}

-- On the list of lines: the oldest lines that are in the way are dropped.
unfoldable pub push_lines : ℕ → List (List ℕ) → List ℕ → Bool → List (List ℕ)
push_lines cap ls text truncated =
    let need = 2 + length text + (if truncated then 3 else 0) in
    if ltb cap need then ls else make_room cap need ls ++ ((text ++ marker truncated) ∷ [])

push_text-Represents :
    (r : LogRing)
    → (ls : List (List ℕ)) → (text : List ℕ) → (truncated : Bool) → length text ≤ log_line_max
    → Represents r ls
    → Represents (push_text r text truncated) (push_lines r.cap ls text truncated)
unfolding push_text push_lines
push_text-Represents r ls text truncated short h =
    let need = 2 + length text + (if truncated then 3 else 0) in
    elim (Bool-cases (ltb r.cap need)) [
      | inl over ↦ rw over h
      | inr fits ↦
          let room = evict-Represents r.lines need r ls h.lines_is h in
          let enough = make_room_fits r.cap need ls (ltb→le r.cap need fits) in
          let same = evict_cap r.lines need r in
          rw fits (
            append_line-Represents (evict r.lines need r) (make_room r.cap need ls) text truncated
              (omega (arith, enough, same)) (ground arith) room)
    ]

-- The list after a push: newlines at the end are taken off, an empty line is no line, and a line over
-- the limit is cut and marked.
unfoldable pub lines_after : ℕ → List (List ℕ) → List ℕ → Bool → List (List ℕ)
lines_after cap ls bytes truncated =
    let line = trim bytes in
    if is_empty line
    then ls
    else push_lines cap ls (kept_text line truncated) (is_cut line truncated || truncated)

kept_text_short :
    (line : List ℕ) → (truncated : Bool) → length (kept_text line truncated) ≤ log_line_max
unfolding kept_text
kept_text_short line truncated = elim (Bool-cases (is_cut line truncated)) [
  | inl over ↦ rw over (omega (arith, length-take 157 line))
  | inr fits ↦ rw fits (ground arith)
]

-- A ring with storage for at least six bytes that holds exactly some lines holds, after a push, the
-- list that the push leaves, oldest first: the pushed text without its last newlines, whole or cut with
-- a marker, behind every old line but the oldest that had to make room; or the old list, if nothing is
-- left of the text or the whole storage cannot hold it.
pub push-Represents :
    (r : LogRing)
    → (ls : List (List ℕ)) → (bytes : List ℕ) → (truncated : Bool) → r.has_storage ≡ true
    → 6 ≤ r.cap
    → Represents r ls
    → Represents (push r bytes truncated) (lines_after r.cap ls bytes truncated)
unfolding push lines_after
push-Represents r ls bytes truncated storage room h =
    let ready : (not r.has_storage || ltb r.cap 6) ≡ false = ground arith in
    let line = trim bytes in
    rw ready (elim (Bool-cases (is_empty line)) [
      | inl blank ↦ rw blank h
      | inr text ↦ rw text (
          push_text-Represents r ls (kept_text line truncated) (is_cut line truncated || truncated)
            (kept_text_short line truncated) h)
    ])

-- A cleared ring holds no line.
pub clear-Represents : (r : LogRing) → 0 < r.cap → Represents (clear r) []
unfolding clear frames
clear-Represents r h = record {
  tail_lt = h;
  head_at = sym (mod-eq_of_lt h);
  used_is = refl;
  fits = omega arith;
  lines_is = refl;
  stands = tt;
  short = refl;
}
