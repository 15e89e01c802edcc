-- ===== src/Tz/Parse.antt =====
-- components/timesvc/tz.cpp, the reader of POSIX time zone strings. A string is the list of its
-- character codes and the cursor is the part not yet read; a failure carries the reason of the code.
pub mod Ranges
use lost_swan_firmware.Common.{
  ℕ, zero, suc, ◌+◌, ◌-◌, ◌*◌, Bool, true, false, not, ◌&&◌, ◌||◌, ltb, leb, ◌==◌, if◌then◌else◌,
  List, [], ◌∷◌, Option, none, some, length,
}
use lost_swan_firmware.Common.Int.{ℤ, pos, negsuc, sub_ℕ, ◌-ℤ◌}
use lost_swan_firmware.Tz.Zone.{Rule, TimeZone, utc_zone, default_rule}
use Prim.Native.String.{String}

pub data Parsed {ℓ} (A : Type ℓ) : Type ℓ where
  fail : String → Parsed A
  ok : A → Parsed A

module _ {ℓ} {A : Type ℓ} where
  unfoldable pub and_then {ℓ'} : {B : Type ℓ'} → Parsed A → (A → Parsed B) → Parsed B
  and_then (fail why) k = fail why
  and_then (ok a) k = k a

  abbrev pub or_fail : String → Option A → Parsed A
  or_fail why none = fail why
  or_fail why (some a) = ok a

-- 0 is what `peek` gives at the end.
abbrev pub peek : List ℕ → ℕ
peek [] = 0
peek (c ∷ s) = c

abbrev pub advance : List ℕ → List ℕ
advance [] = []
advance (c ∷ s) = s

abbrev pub done : List ℕ → Bool
done [] = true
done (c ∷ s) = false

abbrev is_letter : ℕ → Bool
is_letter c = (leb 65 c && leb c 90) || (leb 97 c && leb c 122)

abbrev is_digit : ℕ → Bool
is_digit c = leb 48 c && leb c 57

-- Up to the closing `>`, and past it.
unfoldable pub quoted : List ℕ → Option (List ℕ × List ℕ)
quoted [] = none
quoted (c ∷ s) =
    if c == 62
    then some ([], s)
    else elim (quoted s) [ none ↦ none | some (out, rest) ↦ some (c ∷ out, rest) ]

unfoldable pub letters : List ℕ → List ℕ × List ℕ
letters [] = ([], [])
letters (c ∷ s) =
    let (out, rest) = letters s in if is_letter c then (c ∷ out, rest) else ([], c ∷ s)

abbrev long_name : List ℕ × List ℕ → Option (List ℕ × List ℕ)
long_name (out, rest) = if leb 3 (length out) then some (out, rest) else none

unfoldable pub name : List ℕ → Option (List ℕ × List ℕ)
unfolding quoted letters
name s =
    if peek s == 60
    then elim (quoted (advance s)) [ none ↦ none | some read ↦ long_name read ]
    else long_name (letters s)

-- The value, the digits read, and the rest.
unfoldable pub digits : ℕ → ℕ → ℕ → List ℕ → ℕ × ℕ × List ℕ
digits zero v n s = (v, n, s)
digits (suc max_digits) v n [] = (v, n, [])
digits (suc max_digits) v n (c ∷ s) =
    let more = digits max_digits (v * 10 + (c - 48)) (n + 1) s in
    if is_digit c then more else (v, n, c ∷ s)

unfoldable pub number : ℕ → List ℕ → Option (ℕ × List ℕ)
unfolding digits
number max_digits s =
    let (v, n, rest) = digits max_digits 0 0 s in if n == 0 then none else some (v, rest)

-- `[:ss]`
unfoldable pub seconds_part : List ℕ → Option (ℕ × List ℕ)
unfolding number
seconds_part s = if peek s == 58 then number 2 (advance s) else some (0, s)

-- `[:mm[:ss]]`
unfoldable pub minutes_part : List ℕ → Option (ℕ × ℕ × List ℕ)
unfolding number seconds_part
minutes_part s =
    if peek s == 58
    then elim (number 2 (advance s)) [
      | none ↦ none
      | some (m, rest) ↦ elim (seconds_part rest) [
        | none ↦ none
        | some (sec, rest₁) ↦ some (m, sec, rest₁)
      ]
    ]
    else some (0, 0, s)

unfoldable pub signed_time : Bool → ℕ → ℕ → ℕ → ℤ
signed_time minus h m sec =
    let total = h * 3600 + m * 60 + sec in if minus then sub_ℕ 0 total else pos total

unfoldable pub check_time : Bool → ℕ → ℕ → Option (ℕ × ℕ × List ℕ) → Option (ℤ × List ℕ)
check_time minus max_hours h none = none
check_time minus max_hours h (some (m, sec, rest)) =
    if ltb max_hours h || ltb 59 m || ltb 59 sec
    then none
    else some (signed_time minus h m sec, rest)

unfoldable pub read_time : Bool → ℕ → Option (ℕ × List ℕ) → Option (ℤ × List ℕ)
unfolding minutes_part check_time
read_time minus max_hours none = none
read_time minus max_hours (some (h, rest)) = check_time minus max_hours h (minutes_part rest)

unfoldable pub offset : ℕ → List ℕ → Option (ℤ × List ℕ)
unfolding number read_time
offset max_hours s =
    let minus = peek s == 45 in
    let start = if minus || peek s == 43 then advance s else s in
    read_time minus max_hours (number 3 start)

-- A field of a rule: a number in range.
abbrev pub in_range : String → ℕ → ℕ → Option (ℕ × List ℕ) → Parsed (ℕ × List ℕ)
in_range why lo hi none = fail why
in_range why lo hi (some (v, rest)) = if ltb v lo || ltb hi v then fail why else ok (v, rest)

abbrev pub field : String → ℕ → ℕ → ℕ → List ℕ → Parsed (ℕ × List ℕ)
field why max_digits lo hi s = in_range why lo hi (number max_digits s)

abbrev pub expect : String → ℕ → List ℕ → Parsed (List ℕ)
expect why c s = if peek s == c then ok (advance s) else fail why

abbrev pub rule_time : List ℕ → Parsed (ℤ × List ℕ)
rule_time s =
    if peek s == 47 then or_fail "bad rule time" (offset 167 (advance s)) else ok (pos 7200, s)

unfoldable pub rule : List ℕ → Parsed (Rule × List ℕ)
rule s₀ = and_then (expect "only M-rule dates supported" 77 s₀) λ s₁.
    and_then (field "bad rule month" 2 1 12 s₁) λ (month, s₂).
      and_then (expect "bad rule" 46 s₂) λ s₃.
        and_then (field "bad rule week" 1 1 5 s₃) λ (week, s₄).
          and_then (expect "bad rule" 46 s₄) λ s₅.
            and_then (field "bad rule day" 1 0 6 s₅) λ (day, s₆).
              and_then (rule_time s₆)
                λ (at, s₇). ok (record { month = month; week = week; day = day; at = at }, s₇)

-- From the comma before the first rule.
unfoldable pub parse_rules : TimeZone → List ℕ → Parsed TimeZone
unfolding and_then rule
parse_rules out s =
    if done s
    then fail "dst named but no transition rules"
    else and_then (expect "expected ','" 44 s) λ s₁. and_then (rule s₁) λ (start, s₂).
      and_then (expect "expected second rule" 44 s₂) λ s₃. and_then (rule s₃) λ (end_rule, s₄).
        if not (done s₄)
        then fail "trailing garbage"
        else ok (record out { start = start; end_rule = end_rule; has_dst = true })

unfoldable pub dst_offset_part : TimeZone → List ℕ → Parsed (ℤ × List ℕ)
dst_offset_part out s =
    if not (done s) && not (peek s == 44)
    then or_fail "bad dst offset" (offset 24 s)
    else ok (out.std_offset -ℤ pos 3600, s)

unfoldable pub parse_dst : TimeZone → List ℕ → Parsed TimeZone
unfolding and_then dst_offset_part parse_rules
parse_dst out s =
    if done s
    then ok out
    else if peek s == 44
    then fail "transition rules without a dst name"
    else and_then (or_fail "bad dst name" (name s)) λ (dst_name, s₁).
      and_then (dst_offset_part out s₁) λ (dst_offset, s₂).
        parse_rules (record out { dst_name = dst_name; dst_offset = dst_offset }) s₂

unfoldable pub parse : List ℕ → Parsed TimeZone
unfolding and_then parse_dst
parse tz = and_then (or_fail "bad std name" (name tz)) λ (std_name, s₁).
    and_then (or_fail "bad std offset" (offset 24 s₁)) λ (std_offset, s₂).
      parse_dst (record utc_zone { std_name = std_name; std_offset = std_offset }) s₂
