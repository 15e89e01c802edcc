-- ===== src/LogRing/Append.antt =====
-- One line appended to the ring of components/journal/log_ring.cpp where there is room.
use lost_swan_firmware.Common.{
  ℕ, ◌+◌, ◌/◌, ◌%◌, ◌≤◌, ◌<◌, ◌≡◌, ◌∙◌, sym, ap, subst, refl, Bool, true, false, if◌then◌else◌,
  List, [], ◌∷◌, ◌++◌, length, length-append, arith,
}
use lost_swan_firmware.LogRing.{
  LogRing, copy_wrapped, put_length, put_text, put_dots, dots, append_line,
}
use lost_swan_firmware.LogRing.Bytes.{StandsAt, wrap-bound, append-nil}
use lost_swan_firmware.LogRing.Lines.{frame, frames, all_short, Represents}
use lost_swan_firmware.LogRing.Runs.{Written, grow, two_runs}
use native.Mathlib.Nat.{mod-add-mod}

abbrev pub marker : Bool → List ℕ
marker truncated = if truncated then dots else []

three_steps : (turn p : ℕ) → (((p + 1) % turn + 1) % turn + 1) % turn ≡ (p + 3) % turn
three_steps turn p =
    mod-add-mod ((p + 1) % turn + 1) turn 1
    ∙ ap (λ x. x % turn) (omega arith)
    ∙ mod-add-mod (p + 1) turn 2
    ∙ ap (λ x. x % turn) (omega arith)

put_length-Written :
    (r : LogRing)
    → (bs : List ℕ) → (total : ℕ) → length bs + 2 ≤ r.cap
    → Written r bs
    → Written (put_length r total) (bs ++ (total % 256 ∷ total / 256 % 256 ∷ []))
unfolding put_length copy_wrapped
put_length-Written r bs total fits w =
    grow r bs (total % 256 ∷ total / 256 % 256 ∷ []) fits w _ _ refl refl

put_text-Written :
    (r : LogRing)
    → (bs text : List ℕ) → length bs + length text ≤ r.cap
    → Written r bs
    → Written (put_text r text) (bs ++ text)
unfolding put_text
put_text-Written r bs text fits w =
    let inside : r.head < r.cap =
      subst (λ x. x < r.cap) (sym w.head_at)
        (wrap-bound r.cap (r.tail + length bs) (omega (arith, w.tail_lt, fits))) in
    grow r bs text fits w _ _ (two_runs r.cap r.buf r.head text inside (omega arith)) refl

put_dots-Written :
    (r : LogRing)
    → (bs : List ℕ) → (truncated : Bool) → length bs + length (marker truncated) ≤ r.cap
    → Written r bs
    → Written (if truncated then put_dots r else r) (bs ++ marker truncated)
unfolding put_dots
put_dots-Written r bs true fits w = grow r bs dots fits w _ _ refl (three_steps r.cap r.head)
put_dots-Written r bs false fits w = rw (append-nil bs) w

pub append_assoc : (xs ys zs : List ℕ) → (xs ++ ys) ++ zs ≡ xs ++ (ys ++ zs)
append_assoc [] ys zs = refl
append_assoc (x ∷ xs) ys zs = ap (λ s. x ∷ s) (append_assoc xs ys zs)

frames_snoc : (ls : List (List ℕ)) → (s : List ℕ) → frames (ls ++ (s ∷ [])) ≡ frames ls ++ frame s
unfolding frames
frames_snoc [] s = append-nil (frame s)
frames_snoc (l ∷ ls) s =
    ap (λ t. frame l ++ t) (frames_snoc ls s) ∙ sym (append_assoc (frame l) (frames ls) (frame s))

all_short_snoc :
    (ls : List (List ℕ))
    → (s : List ℕ) → all_short ls ≡ true
    → length s < 65536
    → all_short (ls ++ (s ∷ [])) ≡ true
all_short_snoc [] s h lt = ground arith
all_short_snoc (l ∷ ls) s h lt =
    let rest = all_short_snoc ls s (ground arith) lt in ground (arith, rest)

length-marker : (truncated : Bool) → length (marker truncated) ≡ (if truncated then 3 else 0)
length-marker true = refl
length-marker false = refl

-- The bytes of an appended line stand behind the others.
append_line-Written :
    (r : LogRing)
    → (bs text : List ℕ) → (truncated : Bool)
    → let total = length text + (if truncated then 3 else 0) in
      length bs + (2 + total) ≤ r.cap
      → Written r bs
      → let put = put_text (put_length r total) text in
        Written (if truncated then put_dots put else put) (bs ++ frame (text ++ marker truncated))
unfolding put_length put_text
append_line-Written r bs text truncated fits w =
    let total = length text + (if truncated then 3 else 0) in
    let header = total % 256 ∷ total / 256 % 256 ∷ [] in
    let mark = marker truncated in
    let mark_len = length-marker truncated in
    let size = length-append bs header in
    let size₁ = length-append (bs ++ header) text in
    let w₁ = put_length-Written r bs total (omega (arith, fits)) w in
    let w₂ =
      put_text-Written (put_length r total) (bs ++ header) text (omega (arith, fits, size)) w₁ in
    let w₃ =
      put_dots-Written (put_text (put_length r total) text) ((bs ++ header) ++ text) truncated
        (omega (arith, fits, size, size₁, mark_len)) w₂ in
    let total_is : total ≡ length (text ++ mark) =
      omega (arith, length-append text mark, mark_len) in
    let shape =
      append_assoc (bs ++ header) text mark
      ∙ append_assoc bs header (text ++ mark)
      ∙ ap (λ n. bs ++ (n % 256 ∷ n / 256 % 256 ∷ (text ++ mark))) total_is in
    subst
      (λ t.
        Written
          (if truncated
            then put_dots (put_text (put_length r total) text)
            else put_text (put_length r total) text)
          t)
      shape w₃

-- The counters brought up to what was written.
Written-Represents :
    (r : LogRing)
    → (ls : List (List ℕ)) → (line : List ℕ) → (used lines : ℕ)
    → Written r (frames ls ++ frame line)
    → used ≡ length (frames ls ++ frame line)
    → used ≤ r.cap
    → lines ≡ length ls + 1
    → all_short (ls ++ (line ∷ [])) ≡ true
    → Represents (record r { used = used; lines = lines }) (ls ++ (line ∷ []))
Written-Represents r ls line used lines w used_is fits lines_is short =
    let same = sym (frames_snoc ls line) in
    record {
      tail_lt = w.tail_lt;
      head_at = w.head_at ∙ ap (λ n. (r.tail + n) % r.cap) (sym used_is);
      used_is = used_is ∙ ap length same;
      fits = fits;
      lines_is = lines_is ∙ sym (length-append ls (line ∷ []));
      stands = subst (λ t. StandsAt r.buf r.cap r.tail t) same w.stands;
      short = short;
    }

marked_cap : (r : LogRing) → (truncated : Bool) → (if truncated then put_dots r else r).cap ≡ r.cap
unfolding put_dots
marked_cap r true = refl
marked_cap r false = refl

pub append_line-Represents :
    (r : LogRing)
    → (ls : List (List ℕ)) → (text : List ℕ) → (truncated : Bool)
    → length (frames ls) + (2 + (length text + (if truncated then 3 else 0))) ≤ r.cap
    → length text + (if truncated then 3 else 0) < 65536
    → Represents r ls
    → Represents (append_line r text truncated) (ls ++ ((text ++ marker truncated) ∷ []))
unfolding append_line put_length put_text
append_line-Represents r ls text truncated fits lt h =
    let line = text ++ marker truncated in
    let total = length text + (if truncated then 3 else 0) in
    let put = put_text (put_length r total) text in
    let start : Written r (frames ls) = record {
      tail_lt = h.tail_lt;
      head_at = h.head_at ∙ ap (λ n. (r.tail + n) % r.cap) h.used_is;
      stands = h.stands;
    } in
    let len : length line ≡ total =
      omega (arith, length-append text (marker truncated), length-marker truncated) in
    let size : r.used + (2 + total) ≡ length (frames ls ++ frame line) =
      omega (arith, h.used_is, len, length-append (frames ls) (frame line)) in
    Written-Represents (if truncated then put_dots put else put) ls line (r.used + (2 + total))
      (r.lines + 1) (append_line-Written r (frames ls) text truncated fits start) size
      (subst (λ n. r.used + (2 + total) ≤ n) (sym (marked_cap put truncated))
        (omega (arith, h.used_is, fits)))
      (omega (arith, h.lines_is)) (all_short_snoc ls line h.short (omega (arith, len, lt)))
