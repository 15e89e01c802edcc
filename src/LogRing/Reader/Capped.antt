-- ===== src/LogRing/Reader/Capped.antt =====
-- Whole and capped reads of the ring of components/journal/log_ring.cpp.
use lost_swan_firmware.Common.{
  ℕ, ◌+◌, ◌≤◌, ◌≡◌, ◌∙◌, sym, ap, refl, true, false, ◌||◌, ltb, leb, ◌==◌, if◌then◌else◌, List, [],
  ◌∷◌, length, arith, Bool-cases, inl, inr,
}
use lost_swan_firmware.LogRing.{LogRing, log_line_max}
use lost_swan_firmware.LogRing.Reader.{skip_lines, start_of_capped, read_lines, read_into, read}
use lost_swan_firmware.LogRing.Reader.Output.{printed}
use lost_swan_firmware.LogRing.Lines.{frames, Represents}
use lost_swan_firmware.LogRing.Reader.Stored.{
  newest, LinesAt, tail-LinesAt, read_lines-LinesAt, skip_lines-LinesAt, newest_fits,
  length-printed,
}

start_whole :
    (r : LogRing)
    → (max_bytes : ℕ) → (max_bytes == 0 || leb (r.used + r.lines) max_bytes) ≡ true
    → start_of_capped r max_bytes ≡ (r.tail, r.lines)
unfolding start_of_capped
start_whole r max_bytes h = rw h refl

start_late :
    (r : LogRing)
    → (max_bytes : ℕ) → (max_bytes == 0 || leb (r.used + r.lines) max_bytes) ≡ false
    → start_of_capped r max_bytes ≡ skip_lines r.lines r max_bytes r.tail (r.used + r.lines)
unfolding start_of_capped
start_late r max_bytes h = rw h refl

-- A read from a start that is known, into a buffer that is large enough.
read_from :
    (r : LogRing)
    → (ls : List (List ℕ)) → (dst_cap max_bytes : ℕ) → (start : ℕ × ℕ)
    → start_of_capped r max_bytes ≡ start
    → start.1 ≡ length ls
    → LinesAt r start.0 ls
    → length (printed ls) ≤ dst_cap
    → 1 ≤ dst_cap
    → 1 ≤ r.lines
    → read_into r dst_cap max_bytes ≡ printed ls
unfolding read_into
read_from r ls dst_cap max_bytes (p, left) at_start left_is h room dst_some some =
    let busy : (dst_cap == 0 || r.lines == 0) ≡ false = ground arith in
    rw busy (
      rw at_start (
        ap (λ n. read_lines n r dst_cap p 0) left_is
        ∙ read_lines-LinesAt r ls dst_cap p 0 (omega arith) h))

-- All lines, read from the tail.
read_whole :
    (r : LogRing)
    → (ls : List (List ℕ)) → (max_bytes : ℕ) → Represents r ls
    → 1 ≤ r.lines
    → (max_bytes == 0 || leb (r.used + r.lines) max_bytes) ≡ true
    → read_into r (r.used + r.lines) max_bytes ≡ printed ls
read_whole r ls max_bytes h some test =
    let used_is = h.used_is in
    let lines_is = h.lines_is in
    read_from r ls (r.used + r.lines) max_bytes (r.tail, r.lines) (start_whole r max_bytes test)
      lines_is (tail-LinesAt r ls h) (omega (arith, length-printed ls, used_is, lines_is))
      (omega (arith, some)) some

read_late :
    (r : LogRing)
    → (ls : List (List ℕ)) → (max_bytes : ℕ) → Represents r ls
    → 1 ≤ r.lines
    → (max_bytes == 0 || leb (r.used + r.lines) max_bytes) ≡ false
    → read_into r (max_bytes + log_line_max + 1) max_bytes ≡ printed (newest max_bytes ls)
read_late r ls max_bytes h some test =
    let all : r.used + r.lines ≡ length (frames ls) + length ls =
      omega (arith, h.used_is, h.lines_is) in
    let start = skip_lines (length ls) r max_bytes r.tail (length (frames ls) + length ls) in
    let (left_is, at_start) = skip_lines-LinesAt r ls max_bytes r.tail (tail-LinesAt r ls h) in
    let begins : start_of_capped r max_bytes ≡ start =
      start_late r max_bytes test
      ∙ ap (λ n. skip_lines n r max_bytes r.tail (r.used + r.lines)) h.lines_is
      ∙ ap (λ n. skip_lines (length ls) r max_bytes r.tail n) all in
    read_from r (newest max_bytes ls) (max_bytes + log_line_max + 1) max_bytes start begins left_is
      at_start (omega (arith, newest_fits max_bytes ls)) (omega arith) some

nothing_printed :
    (max_bytes : ℕ) → printed (if max_bytes == 0 then [] else newest max_bytes []) ≡ []
unfolding newest printed
nothing_printed max_bytes = elim (Bool-cases (max_bytes == 0)) [
  | inl zero_limit ↦ rw zero_limit refl
  | inr limit ↦ rw limit refl
]

newest_whole :
    (r : LogRing)
    → (s : List ℕ) → (ls : List (List ℕ)) → (max_bytes : ℕ) → Represents r (s ∷ ls)
    → leb (r.used + r.lines) max_bytes ≡ true
    → newest max_bytes (s ∷ ls) ≡ s ∷ ls
unfolding newest
newest_whole r s ls max_bytes h fits =
    let total : r.used + r.lines ≡ length (frames (s ∷ ls)) + length (s ∷ ls) =
      omega (arith, h.used_is, h.lines_is) in
    let fits₁ = rw total at fits in rw fits₁ refl

-- A read returns the lines oldest first, each with an end: all of them without a limit, and else the
-- newest lines that the limit leaves room for, counting three bytes more for each.
pub read-Represents :
    (r : LogRing)
    → (ls : List (List ℕ)) → (max_bytes : ℕ) → Represents r ls
    → read r max_bytes ≡ printed (if max_bytes == 0 then ls else newest max_bytes ls)
unfolding read
read-Represents r [] max_bytes h =
    let none_left : (r.lines == 0) ≡ true = ground (arith, h.lines_is) in
    rw none_left (sym (nothing_printed max_bytes))
read-Represents r (s ∷ ls) max_bytes h =
    let some : 1 ≤ r.lines = omega (arith, h.lines_is) in
    let busy : (r.lines == 0) ≡ false = ground arith in
    let all = r.used + r.lines in
    elim (Bool-cases (max_bytes == 0)) [
      | inl zero_limit ↦
          let test : (max_bytes == 0 || leb all max_bytes) ≡ true = rw zero_limit refl in
          rw busy (rw zero_limit (read_whole r (s ∷ ls) max_bytes h some test))
      | inr limit ↦ rw busy (
          rw limit (elim (Bool-cases (leb all max_bytes)) [
            | inl fits ↦
                let under : ltb max_bytes all ≡ false = ground arith in
                let test : (max_bytes == 0 || leb all max_bytes) ≡ true = rw limit fits in
                rw under (
                  read_whole r (s ∷ ls) max_bytes h some test
                  ∙ ap printed (sym (newest_whole r s ls max_bytes h fits)))
            | inr over ↦
                let above : ltb max_bytes all ≡ true = ground arith in
                let test : (max_bytes == 0 || leb all max_bytes) ≡ false = rw limit over in
                rw above (read_late r (s ∷ ls) max_bytes h some test)
          ]))
    ]
