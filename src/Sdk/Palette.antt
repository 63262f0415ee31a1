-- ===== src/Sdk/Palette.antt =====
-- The map of colors that the encoder fills (image.ts, lines 76 to 85).
pub mod Indices
use web3_nft.Prelude.{
  ℕ, ◌+◌, ◌-◌, Bool, true, false, ◌&&◌, Option, none, some, List, [], ◌∷◌, ◌++◌, map, ◌==◌,
  if◌then◌else◌, length, or_else,
}
use web3_nft.Sdk.Hex.{Text, rgb_to_hex}
use web3_nft.Sdk.Types.{RgbaColor}

-- A map from colors to their indices, in the order of insertion.
abbrev pub Colors : Type 0
Colors = List (Text × ℕ)

unfoldable pub text_eq : Text → Text → Bool
text_eq [] [] = true
text_eq [] (d ∷ ds) = false
text_eq (c ∷ cs) [] = false
text_eq (c ∷ cs) (d ∷ ds) = c == d && text_eq cs ds

unfoldable pub get_color : Text → Colors → Option ℕ
unfolding text_eq
get_color key [] = none
get_color key ((k, i) ∷ colors) = if text_eq k key then some i else get_color key colors

-- `if (!colors.has(key)) colors.set(key, colors.size)`
unfoldable pub add_color : Text → Colors → Colors
unfolding get_color
add_color key colors = elim (get_color key colors) [
  | none ↦ colors ++ (key, length colors) ∷ []
  | some _ ↦ colors
]

-- The index of a pixel: 0, `transparent`, where alpha is 0. The color is in the map by then.
unfoldable pub color_index_of : RgbaColor → Colors → ℕ
unfolding get_color rgb_to_hex
color_index_of p colors =
    if p.a == 0 then 0 else or_else (get_color (rgb_to_hex p.r p.g p.b) colors) 0
