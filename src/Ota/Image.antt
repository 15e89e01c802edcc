-- ===== src/Ota/Image.antt =====
-- components/webapi/ota_policy.cpp, what the first bytes of an image say about it. A byte is a number
-- below 256, so that `|` of shifted bytes is a sum.
pub mod Layout
use lost_swan_firmware.Common.{
  ℕ, zero, suc, ◌+◌, ◌*◌, Bool, true, false, not, ◌||◌, ltb, ◌==◌, if◌then◌else◌, List, [], ◌∷◌,
  Option, none, some, drop, get_elem?, length,
}
use lost_swan_firmware.Ota.{ImageInfo, no_image}

abbrev pub ota_header_bytes : ℕ
ota_header_bytes = 288

abbrev pub desc_off : ℕ
desc_off = 32

-- `p[0]`; every read of the code lies within the bytes that `len` promises.
unfoldable pub byte_at : List ℕ → ℕ → ℕ
byte_at bytes i = elim (get_elem? bytes i) [ none ↦ 0 | some b ↦ b ]

unfoldable pub rd16 : List ℕ → ℕ → ℕ
unfolding byte_at
rd16 p i = byte_at p i + 256 * byte_at p (i + 1)

unfoldable pub rd32 : List ℕ → ℕ → ℕ
unfolding byte_at
rd32 p i =
    byte_at p i + 256 * byte_at p (i + 1) + 65536 * byte_at p (i + 2) + 16777216 * byte_at p (i + 3)

-- Up to `max` bytes, ending before the first NUL.
unfoldable pub field : ℕ → List ℕ → List ℕ
field zero p = []
field (suc max) [] = []
field (suc max) (c ∷ p) = let rest = field max p in if c == 0 then [] else c ∷ rest

abbrev pub extend_before : ℕ → Option (List ℕ × List ℕ) → Option (List ℕ × List ℕ)
extend_before d none = none
extend_before d (some (before, after)) = some (d ∷ before, after)

-- `find(c)` with the text before it and after it.
unfoldable pub split_at : ℕ → List ℕ → Option (List ℕ × List ℕ)
split_at c [] = none
split_at c (d ∷ s) =
    let rest = split_at c s in if d == c then some ([], s) else extend_before d rest

-- The board and the flavour of the tag after a '+', parted by a '.'.
unfoldable pub tag_parts : Option (List ℕ × List ℕ) → List ℕ → List ℕ × List ℕ
tag_parts none tag = (tag, [])
tag_parts (some (before, after)) tag = (before, after)

unfoldable pub version_tag : Option (List ℕ × List ℕ) → List ℕ × List ℕ
unfolding tag_parts split_at
version_tag none = ([], [])
version_tag (some (base, tag)) = tag_parts (split_at 46 tag) tag

-- The description has its own magic, 0xABCD5432.
unfoldable pub sniff_desc : ImageInfo → List ℕ → ImageInfo
unfolding rd32 field version_tag
sniff_desc info d =
    let version = field 32 (drop 16 d) in
    let (board, flavour) = version_tag (split_at 43 version) in
    if rd32 d 0 == 2882360370
    then record info {
      version = version;
      project_name = field 32 (drop 48 d);
      idf_ver = field 32 (drop 112 d);
      parsed = true;
      board = board;
      flavour = flavour;
    }
    else info

unfoldable pub sniff_image : Option (List ℕ) → ImageInfo
unfolding rd16 byte_at sniff_desc
sniff_image none = no_image
sniff_image (some bytes) =
    let info = record no_image {
      chip_id = rd16 bytes 12;
      min_chip_rev_full = rd16 bytes 15;
      max_chip_rev_full = rd16 bytes 17;
    } in
    if ltb (length bytes) ota_header_bytes || not (byte_at bytes 0 == 233)
    then no_image
    else sniff_desc info (drop desc_off bytes)
