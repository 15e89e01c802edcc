-- ===== src/Ota/Image/Layout.antt =====
-- Fields and version tags of an image, components/webapi/ota_policy.cpp, written and read back.
use lost_swan_firmware.Common.{
  ℕ, zero, suc, ◌+◌, ◌≤◌, ◌≡◌, ◌∙◌, refl, Bool, true, false, not, ◌&&◌, drop, ltb, ◌==◌, List, [],
  ◌∷◌, ◌++◌, some, length, arith,
}
use lost_swan_firmware.Ota.{ImageInfo}
use lost_swan_firmware.Ota.Image.{
  byte_at, rd32, sniff_desc, sniff_image, field, split_at, tag_parts, version_tag,
}

abbrev pub lacks : ℕ → List ℕ → Bool
lacks c [] = true
lacks c (d ∷ s) = not (d == c) && lacks c s

==_refl : (c : ℕ) → (c == c) ≡ true
==_refl c = ground arith

split_at_first :
    (c : ℕ) → (s t : List ℕ) → lacks c s ≡ true → split_at c (s ++ (c ∷ t)) ≡ some (s, t)
unfolding split_at
split_at_first c [] t h = rw (==_refl c) refl
split_at_first c (d ∷ s) t h =
    let other : (d == c) ≡ false = ground arith in
    let rest : lacks c s ≡ true = ground arith in rw other (rw (split_at_first c s t rest) refl)

-- `base+board.flavour`
abbrev pub tagged : List ℕ → List ℕ → List ℕ → List ℕ
tagged base board flavour = base ++ (43 ∷ (board ++ (46 ∷ flavour)))

-- The tag of a version `base+board.flavour` is read back, if `base` has no plus and `board` no dot.
pub version_tag-split_at :
    (base board flavour : List ℕ)
    → lacks 43 base ≡ true
    → lacks 46 board ≡ true
    → version_tag (split_at 43 (tagged base board flavour)) ≡ (board, flavour)
unfolding version_tag tag_parts
version_tag-split_at base board flavour no_plus no_dot =
    rw (split_at_first 43 base (board ++ (46 ∷ flavour)) no_plus)
      (rw (split_at_first 46 board flavour no_dot) refl)

-- A text without NUL that fits its field is read back, padded with NULs or filling the field.
field-append :
    (max : ℕ)
    → (s rest : List ℕ) → lacks 0 s ≡ true
    → length s + 1 ≤ max
    → field max (s ++ (0 ∷ rest)) ≡ s
unfolding field
field-append zero s rest h le = absurd (omega arith)
field-append (suc max) [] rest h le = refl
field-append (suc max) (c ∷ s) rest h le =
    let other : (c == 0) ≡ false = ground arith in
    let more : lacks 0 s ≡ true = ground arith in
    rw other (rw (field-append max s rest more (omega arith)) refl)

drop-append : (pre rest : List ℕ) → drop (length pre) (pre ++ rest) ≡ rest
drop-append [] rest = refl
drop-append (c ∷ pre) rest = drop-append pre rest

byte_at-append :
    (pre rest : List ℕ) → (i : ℕ) → i + 1 ≤ length pre → byte_at (pre ++ rest) i ≡ byte_at pre i
unfolding byte_at
byte_at-append [] rest i h = absurd (omega arith)
byte_at-append (c ∷ pre) rest zero h = refl
byte_at-append (c ∷ pre) rest (suc i) h = byte_at-append pre rest i (omega arith)

-- The 32 bytes of two headers, then a description with 16 bytes before its version field.
abbrev pub image_bytes : List ℕ → List ℕ → List ℕ → List ℕ → List ℕ
image_bytes head before version rest = head ++ (before ++ (version ++ (0 ∷ rest)))

rd32-append : (pre rest : List ℕ) → 4 ≤ length pre → rd32 (pre ++ rest) 0 ≡ rd32 pre 0
unfolding rd32
rd32-append pre rest h = rw (byte_at-append pre rest 0 (omega arith)) (
    rw (byte_at-append pre rest 1 (omega arith)) (
      rw (byte_at-append pre rest 2 (omega arith))
        (rw (byte_at-append pre rest 3 (omega arith)) refl)))

sniff_desc-append :
    (info : ImageInfo)
    → (before base board flavour rest : List ℕ) → length before ≡ 16
    → rd32 before 0 ≡ 2882360370
    → length (tagged base board flavour) + 1 ≤ 32
    → lacks 0 (tagged base board flavour) ≡ true
    → lacks 43 base ≡ true
    → lacks 46 board ≡ true
    → let found = sniff_desc info (before ++ (tagged base board flavour ++ (0 ∷ rest))) in
      (found.parsed ≡ true)
      × (found.version ≡ tagged base board flavour)
      × (found.board ≡ board)
      × (found.flavour ≡ flavour)
unfolding sniff_desc
sniff_desc-append info before base board flavour rest size magic fits no_nul no_plus no_dot =
    let version = tagged base board flavour in
    let tail = version ++ (0 ∷ rest) in
    let at_version : drop 16 (before ++ tail) ≡ tail = rw size at (drop-append before tail) in
    let same_magic = rd32-append before tail (omega arith) ∙ magic in
    let read : field 32 tail ≡ version = field-append 32 version rest no_nul fits in
    let tags = version_tag-split_at base board flavour no_plus no_dot in
    rw same_magic (rw at_version (rw read (rw tags (refl, refl, refl, refl))))

-- An image of 288 bytes or more with both magics, whose version field holds `base+board.flavour`
-- padded with a NUL, is parsed with that version, board and flavour, if the version has no NUL and
-- at most 31 bytes, `base` has no plus and `board` no dot.
pub sniff_image_version :
    (head before base board flavour rest : List ℕ)
    → length head ≡ 32
    → byte_at head 0 ≡ 233
    → length before ≡ 16
    → rd32 before 0 ≡ 2882360370
    → 288 ≤ length (image_bytes head before (tagged base board flavour) rest)
    → length (tagged base board flavour) + 1 ≤ 32
    → lacks 0 (tagged base board flavour) ≡ true
    → lacks 43 base ≡ true
    → lacks 46 board ≡ true
    → let info = sniff_image (some (image_bytes head before (tagged base board flavour) rest)) in
      (info.parsed ≡ true)
      × (info.version ≡ tagged base board flavour)
      × (info.board ≡ board)
      × (info.flavour ≡ flavour)
unfolding sniff_image
sniff_image_version head before base board flavour rest h_size h_magic b_size b_magic long fits
      no_nul no_plus no_dot =
    let desc = before ++ (tagged base board flavour ++ (0 ∷ rest)) in
    let at_desc : drop 32 (head ++ desc) ≡ desc = rw h_size at (drop-append head desc) in
    let magic = byte_at-append head desc 0 (omega arith) ∙ h_magic in
    let enough : ltb (length (head ++ desc)) 288 ≡ false = ground arith in
    rw enough (
      rw magic (
        rw at_desc (
          sniff_desc-append _ before base board flavour rest b_size b_magic fits no_nul no_plus
            no_dot)))
