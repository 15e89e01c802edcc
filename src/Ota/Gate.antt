-- ===== src/Ota/Gate.antt =====
-- When components/webapi/ota_policy.cpp lets an update start.
use lost_swan_firmware.Common.{
  is_empty, ℕ, ◌≡◌, ◌⊎◌, inl, inr, refl, true, false, not, ◌&&◌, List, [], ◌∷◌, arith, Bool-cases,
}
use lost_swan_firmware.Ota.{
  allow, wrong_board, loses_simulation, OtaPrecheck, same_text, is_other_board, drops_simulation,
  soft_gate, ota_gate, ota_chip_id_esp32c5, rel,
}

same_text_eq : (s t : List ℕ) → same_text s t ≡ true → s ≡ t
unfolding same_text
same_text_eq [] [] h = refl
same_text_eq [] (d ∷ t) h = ground arith
same_text_eq (c ∷ s) [] h = ground arith
same_text_eq (c ∷ s) (d ∷ t) h =
    let head : c ≡ d = ground arith in
    let tail : same_text s t ≡ true = ground arith in rw head (rw (same_text_eq s t tail) refl)

empty_text : (s : List ℕ) → is_empty s ≡ true → s ≡ []
empty_text [] h = refl
empty_text (c ∷ s) h = ground arith

same_or_empty :
    (s t : List ℕ) → (not (is_empty t) && not (same_text s t)) ≡ false → (t ≡ []) ⊎ (s ≡ t)
same_or_empty s [] h = inl refl
same_or_empty s (d ∷ t) h = inr (same_text_eq s (d ∷ t) (ground arith))

board_matches :
    (p : OtaPrecheck)
    → is_other_board p ≡ false
    → (p.image.board ≡ []) ⊎ (p.running_board ≡ []) ⊎ (p.image.board ≡ p.running_board)
board_matches p h = elim (Bool-cases (is_empty p.image.board)) [
  | inl untagged ↦ inl (empty_text p.image.board untagged)
  | inr tagged ↦ inr (same_or_empty p.image.board p.running_board (ground arith))
]

keeps_simulation :
    (p : OtaPrecheck)
    → drops_simulation p ≡ false
    → (p.any_simulated_column ≡ false) ⊎ (same_text p.image.flavour rel ≡ false)
keeps_simulation p h = ground arith

-- An update that is allowed has a parsed image for this chip, of the running project if that is
-- known; it runs on a confirmed image, with every axis idle or in maintenance; and unless it was
-- forced, an image tagged with a board is for the running one, if that is known, and no simulated
-- column meets a release image.
pub ota_gate_allow :
    (p : OtaPrecheck)
    → ota_gate p ≡ allow
    → (p.image.parsed ≡ true)
      × (p.image.chip_id ≡ ota_chip_id_esp32c5)
      × ((p.running_project ≡ []) ⊎ (p.image.project_name ≡ p.running_project))
      × (p.running_pending_verify ≡ false)
      × ((p.all_axes_idle ≡ true) ⊎ (p.maintenance ≡ true))
      × ((p.force ≡ true)
          ⊎ (((p.image.board ≡ []) ⊎ (p.running_board ≡ []) ⊎ (p.image.board ≡ p.running_board))
              × ((p.any_simulated_column ≡ false) ⊎ (same_text p.image.flavour rel ≡ false))))
unfolding ota_gate soft_gate
ota_gate_allow p h = (
  ground arith,
  ground arith,
  same_or_empty p.image.project_name p.running_project (ground arith),
  ground arith,
  ground arith,
  elim (Bool-cases p.force) [
    | inl forced ↦ inl forced
    | inr asked ↦ inr (board_matches p (ground arith), keeps_simulation p (ground arith))
  ],
)

-- Forcing an update turns the refusals for the board and for lost simulation into a start, and
-- changes no other verdict.
pub ota_gate_force :
    (p : OtaPrecheck)
    → (ota_gate (record p { force = true }) ≡ ota_gate p)
      ⊎ ((ota_gate (record p { force = true }) ≡ allow)
          × ((ota_gate p ≡ wrong_board) ⊎ (ota_gate p ≡ loses_simulation)))
unfolding ota_gate soft_gate
ota_gate_force p = ground arith
