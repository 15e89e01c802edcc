-- ===== src/Frame/Duration.antt =====
-- components/frame/frame.cpp, move_duration_ms: how long a move of some flips takes.
use lost_swan_firmware.Common.{
  ℕ, zero, suc, ◌+◌, ◌-◌, ◌*◌, ◌/◌, ◌^◌, ◌≤◌, ◌<◌, ◌≡◌, ◌⊎◌, subst, arith, leb, ltb, ◌==◌, ◌||◌,
  if◌then◌else◌, Bool-cases, inl, inr, leb→le, leb→lt, ltb→lt, ltb→le,
}
use lost_swan_firmware.Motion.Geometry.{
  ring_target_usteps, ring_target_usteps-exact, flaps_s_to_usteps_s, flaps_s_to_usteps_s-exact,
}
use native.Mathlib.Nat.{pow-suc, div-le_self}

-- The binary search for the integer square root of `x` between `lo` and `hi`, on fuel: the range
-- halves in every round.
unfoldable pub isqrt_search : ℕ → ℕ → ℕ → ℕ → ℕ
isqrt_search zero lo hi x = lo
isqrt_search (suc fuel) lo hi x =
    let mid = (lo + hi + 1) / 2 in
    let upper = isqrt_search fuel mid hi x in
    let lower = isqrt_search fuel lo (mid - 1) x in
    let narrowed = if leb (mid * mid) x then upper else lower in if ltb lo hi then narrowed else lo

-- `hi` starts at 200000 < 2 ^ 18.
unfoldable pub move_duration_ms : ℕ → ℕ → ℕ → ℕ
move_duration_ms flips flaps_s accel =
    let d = ring_target_usteps flips in
    let v = flaps_s_to_usteps_s flaps_s in
    let ramp_d = v * v / accel in
    let trapezoid = d * 1000 / v + v * 1000 / accel in
    let triangle = isqrt_search 18 0 200000 (d * 4000000 / accel) in
    if flips == 0
    then 0
    else if v == 0 || accel == 0
    then 0
    else if leb ramp_d d
    then trapezoid
    else triangle

-- `r` is the integer square root of `x`.
abbrev pub IsSqrt : ℕ → ℕ → Type 0
IsSqrt r x = (r * r ≤ x) × (x < (r + 1) * (r + 1))

-- The search ends with the integer square root, if that lies in the range and the range is
-- shorter than two to the fuel.
pub isqrt_search-IsSqrt :
    (fuel lo hi x : ℕ)
    → lo ≤ hi
    → hi - lo < 2 ^ fuel
    → lo * lo ≤ x
    → x < (hi + 1) * (hi + 1)
    → IsSqrt (isqrt_search fuel lo hi x) x
unfolding isqrt_search
isqrt_search-IsSqrt zero lo hi x order small below above =
    let e : hi ≡ lo = omega arith in (below, subst (λ h. x < (h + 1) * (h + 1)) e above)
isqrt_search-IsSqrt (suc fuel) lo hi x order small below above =
    let mid = (lo + hi + 1) / 2 in
    elim (Bool-cases (ltb lo hi)) [
      | inr done ↦
          let e : hi ≡ lo = omega (arith, ltb→le lo hi done) in
          rw done (below, subst (λ h. x < (h + 1) * (h + 1)) e above)
      | inl more ↦
          let lt = ltb→lt lo hi more in
          rw more (elim (Bool-cases (leb (mid * mid) x)) [
            | inl fits ↦ rw fits (
                isqrt_search-IsSqrt fuel mid hi x (omega (arith, lt))
                  (omega (arith, lt, pow-suc 2 fuel)) (leb→le (mid * mid) x fits) above)
            | inr over ↦
                let e : mid - 1 + 1 ≡ mid = omega (arith, lt) in
                rw over (
                  isqrt_search-IsSqrt fuel lo (mid - 1) x (omega (arith, lt))
                    (omega (arith, lt, pow-suc 2 fuel)) below (rw e (leb→lt (mid * mid) x over)))
          ])
    ]

in_range : (n accel : ℕ) → n < 200001 * 200001 → 0 < accel → n / accel < (200000 + 1) * (200000 + 1)
in_range n accel h able = omega (arith, div-le_self n accel)

-- The ramp distance decides the shape of a move: with a positive speed and acceleration, a move
-- that reaches cruise takes d/v + v/a, rounded down in two steps; a shorter one takes the integer
-- square root of 4000000 d/a, which stays in the range of the search for moves of one revolution
-- at most.
pub move_duration_ms_shape :
    (flips flaps_s accel : ℕ)
    → 0 < flips
    → flips ≤ 50
    → 0 < flaps_s
    → 0 < accel
    → ((64 * flaps_s * (64 * flaps_s) / accel ≤ 64 * flips)
        × (move_duration_ms flips flaps_s accel
            ≡ 64 * flips * 1000 / (64 * flaps_s) + 64 * flaps_s * 1000 / accel))
      ⊎ ((64 * flips < 64 * flaps_s * (64 * flaps_s) / accel)
          × IsSqrt (move_duration_ms flips flaps_s accel) (64 * flips * 4000000 / accel))
unfolding move_duration_ms
move_duration_ms_shape flips flaps_s accel moves short fast able =
    let x = 64 * flips * 4000000 / accel in
    ground (
      arith,
      ring_target_usteps-exact flips,
      flaps_s_to_usteps_s-exact flaps_s,
      isqrt_search-IsSqrt 18 0 200000 x (omega arith) (omega arith) (omega arith)
          (in_range (64 * flips * 4000000) accel (omega arith) able),
    )
