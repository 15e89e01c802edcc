-- ===== src/Tz/Parse/Ranges.antt =====
-- What components/timesvc/tz.cpp lets through when it reads a time zone.
use lost_swan_firmware.Common.{
  ℕ, ◌+◌, ◌*◌, ◌≤◌, ◌≡◌, ◌⊎◌, inl, inr, refl, Bool, true, false, not, ◌&&◌, ◌||◌, ltb, ◌==◌,
  if◌then◌else◌, List, Option, none, some, arith, Bool-cases,
}
use lost_swan_firmware.Common.Int.{ℤ, pos, ◌-ℤ◌, pos_part, neg_part}
use lost_swan_firmware.Tz.Zone.{Rule, TimeZone}
use lost_swan_firmware.Tz.Parse.{
  Parsed, fail, ok, and_then, or_fail, peek, advance, done, name, number, minutes_part, signed_time,
  check_time, read_time, offset, in_range, expect, rule_time, rule, parse_rules, dst_offset_part,
  parse_dst, parse,
}
use Prim.Native.String.{String}

-- A time of at most so many hours, 59 minutes and 59 seconds, east or west.
abbrev pub WithinHours : ℕ → ℤ → Type 0
WithinHours hours t = pos_part t + neg_part t ≤ hours * 3600 + 3599

abbrev pub RuleInRange : Rule → Type 0
RuleInRange r =
    (1 ≤ r.month)
    × (r.month ≤ 12)
    × (1 ≤ r.week)
    × (r.week ≤ 5)
    × (r.day ≤ 6)
    × WithinHours 167 r.at

-- The value, where there is one, satisfies the predicate.
abbrev pub Holds {ℓ} : {A : Type ℓ} → (A → Type 0) → Parsed A → Type 0
Holds P (fail why) = Unit
Holds P (ok a) = P a

abbrev HoldsSome {ℓ} : {A : Type ℓ} → (A → Type 0) → Option A → Type 0
HoldsSome P none = Unit
HoldsSome P (some a) = P a

and_then-Holds {ℓ ℓ'} :
    {A : Type ℓ}
    → {B : Type ℓ'} → (P : A → Type 0) → (Q : B → Type 0) → (m : Parsed A) → (k : A → Parsed B)
    → Holds P m
    → ((a : A) → P a → Holds Q (k a))
    → Holds Q (and_then m k)
unfolding and_then
and_then-Holds P Q (fail why) k h next = tt
and_then-Holds P Q (ok a) k h next = next a h

or_fail-Holds {ℓ} :
    {A : Type ℓ}
    → (P : A → Type 0) → (why : String) → (o : Option A) → HoldsSome P o
    → Holds P (or_fail why o)
or_fail-Holds P why none h = tt
or_fail-Holds P why (some a) h = h

signed_time-WithinHours :
    (minus : Bool)
    → (hours h m sec : ℕ) → h ≤ hours
    → m ≤ 59
    → sec ≤ 59
    → WithinHours hours (signed_time minus h m sec)
unfolding signed_time
signed_time-WithinHours minus hours h m sec h_le m_le sec_le = ground arith

check_time-WithinHours :
    (minus : Bool)
    → (hours h : ℕ) → (read : Option (ℕ × ℕ × List ℕ))
    → HoldsSome (λ (t, rest). WithinHours hours t) (check_time minus hours h read)
unfolding check_time
check_time-WithinHours minus hours h none = tt
check_time-WithinHours minus hours h (some (m, sec, rest)) =
    elim (Bool-cases (ltb hours h || ltb 59 m || ltb 59 sec)) [
      | inl over ↦ rw over tt
      | inr within ↦
          rw within (
            signed_time-WithinHours minus hours h m sec (ground arith) (ground arith)
              (ground arith))
    ]

read_time-WithinHours :
    (minus : Bool)
    → (hours : ℕ) → (read : Option (ℕ × List ℕ))
    → HoldsSome (λ (t, rest). WithinHours hours t) (read_time minus hours read)
unfolding read_time
read_time-WithinHours minus hours none = tt
read_time-WithinHours minus hours (some (h, rest)) =
    check_time-WithinHours minus hours h (minutes_part rest)

offset-WithinHours :
    (hours : ℕ) → (s : List ℕ) → HoldsSome (λ (t, rest). WithinHours hours t) (offset hours s)
unfolding offset
offset-WithinHours hours s =
    let minus = peek s == 45 in
    let start = if minus || peek s == 43 then advance s else s in
    read_time-WithinHours minus hours (number 3 start)

in_range-Holds :
    (why : String)
    → (lo hi : ℕ) → (read : Option (ℕ × List ℕ))
    → Holds (λ (v, rest). (lo ≤ v) × (v ≤ hi)) (in_range why lo hi read)
in_range-Holds why lo hi none = tt
in_range-Holds why lo hi (some (v, rest)) = elim (Bool-cases (ltb v lo || ltb hi v)) [
  | inl outside ↦ rw outside tt
  | inr inside ↦ rw inside (ground arith, ground arith)
]

any_ok : {A : Type 0} → (m : Parsed A) → Holds (λ a. Unit) m
any_ok (fail why) = tt
any_ok (ok a) = tt

rule_time-WithinHours : (s : List ℕ) → Holds (λ (t, rest). WithinHours 167 t) (rule_time s)
rule_time-WithinHours s = elim (Bool-cases (peek s == 47)) [
  | inl slash ↦
      rw slash (or_fail-Holds _ _ (offset 167 (advance s)) (offset-WithinHours 167 (advance s)))
  | inr two ↦ rw two (omega arith)
]

rule-RuleInRange : (s : List ℕ) → Holds (λ (r, rest). RuleInRange r) (rule s)
unfolding rule
rule-RuleInRange s = and_then-Holds _ _ _ _ (any_ok _) λ s₁ any₁.
    and_then-Holds (λ (v, rest). (1 ≤ v) × (v ≤ 12)) _ _ _
      (in_range-Holds "bad rule month" 1 12 (number 2 s₁))
      λ month month_in. and_then-Holds _ _ _ _ (any_ok _) λ s₃ any₃.
        and_then-Holds (λ (v, rest). (1 ≤ v) × (v ≤ 5)) _ _ _
          (in_range-Holds "bad rule week" 1 5 (number 1 s₃))
          λ week week_in. and_then-Holds _ _ _ _ (any_ok _) λ s₅ any₅.
            and_then-Holds (λ (v, rest). (0 ≤ v) × (v ≤ 6)) _ _ _
              (in_range-Holds "bad rule day" 0 6 (number 1 s₅))
              λ day day_in.
                and_then-Holds (λ (t, rest). WithinHours 167 t) _ _ _ (rule_time-WithinHours day.1)
                  λ at at_in. (month_in.0, month_in.1, week_in.0, week_in.1, day_in.1, at_in)

-- What a parsed zone promises.
abbrev pub ZoneInRange : TimeZone → Type 0
ZoneInRange tz =
    WithinHours 24 tz.std_offset
    × ((tz.has_dst ≡ false)
        ⊎ (WithinHours 25 tz.dst_offset × RuleInRange tz.start × RuleInRange tz.end_rule))

if-Holds {ℓ} :
    {A : Type ℓ}
    → (P : A → Type 0) → (b : Bool) → (m n : Parsed A) → Holds P m
    → Holds P n
    → Holds P (if b then m else n)
if-Holds P true m n hm hn = hm
if-Holds P false m n hm hn = hn

parse_rules-ZoneInRange :
    (out : TimeZone)
    → (s : List ℕ) → WithinHours 24 out.std_offset
    → WithinHours 25 out.dst_offset
    → Holds ZoneInRange (parse_rules out s)
unfolding parse_rules
parse_rules-ZoneInRange out s std dst = if-Holds _ (done s) _ _ tt (
    and_then-Holds (λ s₁. Unit) ZoneInRange (expect "expected ','" 44 s) _ (any_ok _)
      λ s₁ any₁.
        and_then-Holds _ ZoneInRange (rule s₁) _ (rule-RuleInRange s₁) λ (start, s₂) start_in.
          and_then-Holds (λ s₃. Unit) ZoneInRange (expect "expected second rule" 44 s₂) _ (any_ok _)
            λ s₃ any₃.
              and_then-Holds _ ZoneInRange (rule s₃) _ (rule-RuleInRange s₃)
                λ (end_rule, s₄) end_in.
                  let zone = record out { start = start; end_rule = end_rule; has_dst = true } in
                  if-Holds ZoneInRange (not (done s₄)) (fail "trailing garbage") (ok zone) tt
                    (std, inr (dst, start_in, end_in)))

hour_ahead : (t : ℤ) → WithinHours 24 t → WithinHours 25 (t -ℤ pos 3600)
unfolding ◌-ℤ◌
hour_ahead t h = ground arith

one_more_hour :
    (read : Option (ℤ × List ℕ))
    → HoldsSome (λ (t, rest). WithinHours 24 t) read
    → HoldsSome (λ (t, rest). WithinHours 25 t) read
one_more_hour none h = tt
one_more_hour (some (t, rest)) h = omega arith

dst_offset_part-WithinHours :
    (out : TimeZone)
    → (s : List ℕ) → WithinHours 24 out.std_offset
    → Holds (λ (t, rest). WithinHours 25 t) (dst_offset_part out s)
unfolding dst_offset_part
dst_offset_part-WithinHours out s std = elim (Bool-cases (not (done s) && not (peek s == 44))) [
  | inl given ↦ rw given (
      or_fail-Holds (λ (t, rest). WithinHours 25 t) "bad dst offset" (offset 24 s)
        (one_more_hour (offset 24 s) (offset-WithinHours 24 s)))
  | inr default ↦ rw default (hour_ahead out.std_offset std)
]

parse_dst-ZoneInRange :
    (out : TimeZone)
    → (s : List ℕ) → WithinHours 24 out.std_offset
    → out.has_dst ≡ false
    → Holds ZoneInRange (parse_dst out s)
unfolding parse_dst
parse_dst-ZoneInRange out s std none_yet =
    if-Holds _ (done s) _ _ (std, inl none_yet)
      (if-Holds _ (peek s == 44) _ _ tt (
        and_then-Holds (λ read. Unit) ZoneInRange (or_fail "bad dst name" (name s)) _ (any_ok _)
          λ (dst_name, s₁) any₁.
            and_then-Holds (λ (t, rest). WithinHours 25 t) ZoneInRange _ _
              (dst_offset_part-WithinHours out s₁ std)
              λ (dst_offset, s₂) dst.
                parse_rules-ZoneInRange
                  (record out { dst_name = dst_name; dst_offset = dst_offset }) s₂ std dst))

-- A string that is accepted gives a zone in range: the standard offset within 24:59:59; and either no
-- daylight time, or its offset within 25:59:59 and two rules with a month from 1 to 12, a week from 1
-- to 5, a weekday from 0 to 6 and a time of day within 167:59:59.
pub parse-ZoneInRange : (tz : List ℕ) → Holds ZoneInRange (parse tz)
unfolding parse
parse-ZoneInRange tz =
    and_then-Holds (λ read. Unit) ZoneInRange (or_fail "bad std name" (name tz)) _ (any_ok _)
      λ (std_name, s₁) any₁.
        and_then-Holds (λ (t, rest). WithinHours 24 t) ZoneInRange _ _
          (or_fail-Holds (λ (t, rest). WithinHours 24 t) "bad std offset" (offset 24 s₁)
            (offset-WithinHours 24 s₁))
          λ (std_offset, s₂) std. parse_dst-ZoneInRange _ s₂ std refl
