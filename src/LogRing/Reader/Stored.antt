-- ===== src/LogRing/Reader/Stored.antt =====
-- Lines that stand in the ring of components/journal/log_ring.cpp, read and skipped.
use lost_swan_firmware.Common.{
  ℕ, suc, ◌+◌, ◌-◌, ◌/◌, ◌%◌, ◌≤◌, ◌<◌, ◌≡◌, subst, refl, true, false, ltb, leb, if◌then◌else◌,
  List, [], ◌∷◌, ◌++◌, length, length-append, arith, Bool-cases, inl, inr, leb→le,
}
use lost_swan_firmware.LogRing.{LogRing, length_at}
use lost_swan_firmware.LogRing.Reader.{skip_lines, read_line, read_lines}
use lost_swan_firmware.LogRing.Reader.Output.{printed, length_at-StandsAt, read_line-StandsAt}
use lost_swan_firmware.LogRing.Bytes.{StandsAt, wrap-bound}
use lost_swan_firmware.LogRing.Lines.{frame, frames, all_short, Represents, StandsAt-drop}
use native.Mathlib.Nat.{mod-add-mod}

-- The newest lines whose lengths, with three bytes for each, add up to at most the limit.
unfoldable pub newest : ℕ → List (List ℕ) → List (List ℕ)
unfolding frames
newest max_bytes [] = []
newest max_bytes (s ∷ ls) =
    let rest = newest max_bytes ls in
    if leb (length (frames (s ∷ ls)) + length (s ∷ ls)) max_bytes then s ∷ ls else rest

-- Lines that stand in the ring from a position on.
pub record LinesAt (r : LogRing) (p : ℕ) (ls : List (List ℕ)) : Type 0 where
  pub inside : p < r.cap
  pub fit : length (frames ls) ≤ r.cap
  pub stand : StandsAt r.buf r.cap p (frames ls)
  pub short : all_short ls ≡ true

pub length-frames :
    (s : List ℕ)
    → (ls : List (List ℕ)) → length (frames (s ∷ ls)) ≡ 2 + length s + length (frames ls)
unfolding frames
length-frames s ls = omega (arith, length-append s (frames ls))

-- The next line, and the position after it.
next_line :
    (r : LogRing)
    → (p : ℕ) → (s : List ℕ) → (ls : List (List ℕ)) → LinesAt r p (s ∷ ls)
    → (length_at r p ≡ length s) × LinesAt r ((p + 2 + length s) % r.cap) ls
unfolding frames
next_line r p s ls h =
    let size = length-frames s ls in
    let place : p + suc (suc (length s)) ≡ p + 2 + length s = omega arith in
    let left =
      StandsAt-drop r.buf r.cap p (frame s) (frames ls) h.inside (omega (arith, size, h.fit))
        h.stand in
    (
      length_at-StandsAt r p s (frames ls) (ground (arith, h.short)) h.stand,
      record {
        inside = wrap-bound r.cap (p + 2 + length s) (omega (arith, size, h.fit, h.inside));
        fit = omega (arith, size, h.fit);
        stand = rw place at left;
        short = ground (arith, h.short);
      },
    )

next_text :
    (r : LogRing)
    → (p : ℕ) → (s : List ℕ) → (ls : List (List ℕ)) → LinesAt r p (s ∷ ls)
    → read_line r ((p + 2) % r.cap) (length s) ≡ s
unfolding frames
next_text r p s ls h =
    let size = length-frames s ls in
    let fit = h.fit in
    let inside = h.inside in
    read_line-StandsAt r ((p + 2) % r.cap) s (frames ls)
      (wrap-bound r.cap (p + 2) (omega (arith, size, fit, inside))) (omega (arith, size, fit))
      (StandsAt-drop r.buf r.cap p (length s % 256 ∷ length s / 256 % 256 ∷ []) (s ++ frames ls)
        inside (omega (arith, size, fit)) h.stand)

pub tail-LinesAt : (r : LogRing) → (ls : List (List ℕ)) → Represents r ls → LinesAt r r.tail ls
tail-LinesAt r ls h = record {
  inside = h.tail_lt;
  fit = subst (λ n. n ≤ r.cap) h.used_is h.fits;
  stand = h.stands;
  short = h.short;
}

pub read_lines-LinesAt :
    (r : LogRing)
    → (ls : List (List ℕ)) → (dst_cap p out : ℕ) → out + length (printed ls) ≤ dst_cap
    → LinesAt r p ls
    → read_lines (length ls) r dst_cap p out ≡ printed ls
unfolding read_lines printed
read_lines-LinesAt r [] dst_cap p out room h = refl
read_lines-LinesAt r (s ∷ ls) dst_cap p out room h =
    let (len, next) = next_line r p s ls h in
    let size = length-append s (10 ∷ printed ls) in
    let enough : ltb dst_cap (out + length s + 1) ≡ false = ground (arith, size, room) in
    let text = next_text r p s ls h in
    let after : ((p + 2) % r.cap + length s) % r.cap ≡ (p + 2 + length s) % r.cap =
      mod-add-mod (p + 2) r.cap (length s) in
    rw len (
      rw enough (
        rw text (
          rw after (
            rw
              (read_lines-LinesAt r ls dst_cap ((p + 2 + length s) % r.cap) (out + length s + 1)
                (omega (arith, size, room)) next)
              refl))))

-- What the skip leaves: the newest lines, and a position where they stand.
pub skip_lines-LinesAt :
    (r : LogRing)
    → (ls : List (List ℕ)) → (max_bytes p : ℕ) → LinesAt r p ls
    → let (start, left) = skip_lines (length ls) r max_bytes p (length (frames ls) + length ls) in
      (left ≡ length (newest max_bytes ls)) × LinesAt r start (newest max_bytes ls)
unfolding skip_lines newest
skip_lines-LinesAt r [] max_bytes p h = (refl, h)
skip_lines-LinesAt r (s ∷ ls) max_bytes p h =
    let (len, next) = next_line r p s ls h in
    let size = length-frames s ls in
    let total = length (frames (s ∷ ls)) + length (s ∷ ls) in
    let less : total - (2 + length s + 1) ≡ length (frames ls) + length ls = omega (arith, size) in
    let rest = skip_lines-LinesAt r ls max_bytes ((p + 2 + length s) % r.cap) next in
    elim (Bool-cases (leb total max_bytes)) [
      | inl fits ↦ rw fits (refl, h)
      | inr over ↦ rw over (rw len (rw less rest))
    ]

pub length-printed : (ls : List (List ℕ)) → length (printed ls) ≤ length (frames ls) + length ls
unfolding printed
length-printed [] = omega arith
length-printed (s ∷ ls) =
    omega (arith, length-printed ls, length-frames s ls, length-append s (10 ∷ printed ls))

pub newest_fits :
    (max_bytes : ℕ) → (ls : List (List ℕ)) → length (printed (newest max_bytes ls)) ≤ max_bytes
unfolding newest printed
newest_fits max_bytes [] = omega arith
newest_fits max_bytes (s ∷ ls) =
    elim (Bool-cases (leb (length (frames (s ∷ ls)) + length (s ∷ ls)) max_bytes)) [
      | inl fits ↦ rw fits (
          omega (
            arith,
            length-printed (s ∷ ls),
            leb→le (length (frames (s ∷ ls)) + length (s ∷ ls)) max_bytes fits,
          ))
      | inr over ↦ rw over (newest_fits max_bytes ls)
    ]
