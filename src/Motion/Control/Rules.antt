-- ===== src/Motion/Control/Rules.antt =====
-- How a property of the context passes through the Hall edge stage of a tick
-- (components/motion/axis_control.cpp).
use lost_swan_firmware.Common.{Bool, true, false, Bool-cases, inl, inr, ◌==◌, if◌then◌else◌}
use lost_swan_firmware.Motion.Position.{EdgeVerdict}
use lost_swan_firmware.Motion.Axis.{IsrSnap, MotionParams}
use lost_swan_firmware.Motion.Control.{
  TickCtx, measure_edge, judge_edge, edge_verdict, verify_edge, anchor_edge, mark_seen,
  on_hall_edge, take_seq, tick_edge,
}

-- A verdict that raised a fault ends the stage, any other goes on to the anchoring of the edge.
abbrev pub Judged {ℓ} : (P Q : TickCtx → Type ℓ) → TickCtx × Bool → Type ℓ
Judged P Q (c, true) = Q c
Judged P Q (c, false) = P c

pub record EdgeRule {ℓ} (P Q : TickCtx → Type ℓ) (inp : IsrSnap) (p : MotionParams) : Type ℓ where
  pub no_edge : (c : TickCtx) → P c → Q c
  pub noted : (c : TickCtx) → P c → P (mark_seen (take_seq inp c))
  pub measured : (c : TickCtx) → P c → P (measure_edge inp c)
  pub judged : (c : TickCtx) (v : EdgeVerdict) → P c → Judged P Q (judge_edge p c v)
  pub anchored : (c : TickCtx) → P c → Q (anchor_edge inp c)

module _ {ℓ} {P Q : TickCtx → Type ℓ} {inp : IsrSnap} {p : MotionParams}
    (rule : EdgeRule P Q inp p) where
  finish : (r : TickCtx × Bool) → Judged P Q r → Q (if r.1 then r.0 else anchor_edge inp r.0)
  finish (c, true) j = j
  finish (c, false) j = rule.anchored c j

  verified : (c : TickCtx) → P c → Judged P Q (verify_edge inp p c)
  unfolding verify_edge
  verified c h =
      elim c.a.hall_valid
        as (λ valid. Judged P Q (
          if valid then judge_edge p (measure_edge inp c) (edge_verdict inp p c) else (c, false))) [
            | true ↦ rule.judged (measure_edge inp c) (edge_verdict inp p c) (rule.measured c h)
            | false ↦ h
          ]

  pub tick_edge_rule : (c : TickCtx) → P c → Q (tick_edge inp p c)
  unfolding tick_edge on_hall_edge
  tick_edge_rule c h = elim (Bool-cases (inp.seq == c.a.seq_seen)) [
    | inl same ↦ rw same (rule.no_edge c h)
    | inr new ↦
        let noted = mark_seen (take_seq inp c) in
        rw new (finish (verify_edge inp p noted) (verified noted (rule.noted c h)))
  ]
