-- ===== src/Sdk/Examples.antt =====
-- The theorems about the image package, applied to an image of two rows and two columns.
use web3_nft.Prelude.{
  ℕ, ◌<◌, ◌≡◌, refl, ◌⊎◌, ◌&&◌, some, List, [], ◌∷◌, arith, ◌==◌, if◌then◌else◌, All,
}
use web3_nft.Table.{lookup}
use web3_nft.Sdk.Encoder.{PngImage, PngCollectionEncoder, new_encoder, encode_image}
use web3_nft.Sdk.Encoder.Growth.{encode_image-grows}
use web3_nft.Sdk.Hex.{Text, rgb_to_hex, to_padded_hex, hex_digits, hex_digit}
use web3_nft.Sdk.Types.{RgbaColor, Image, new_image}
use web3_nft.Sdk.Palette.{Colors, add_color, get_color, text_eq, color_index_of}
use web3_nft.Sdk.Palette.Indices.{IsIndexed}
use web3_nft.Sdk.Image.{encode, zeros}
use web3_nft.Sdk.Image.Loops.{row_indices}
use web3_nft.Sdk.Image.Scan.{picture, rows_of, bounds_from}
use web3_nft.Sdk.Image.RoundTrip.{IsDecoded, kept_rows, encode-IsDecoded}
use web3_nft.Sdk.Svg.{draw_rects, DecodedBounds}
use web3_nft.Sdk.Svg.Cursor.{numbers, all_runs, draw_lines, IsLine, widths, draw_rects-lines}

-- Transparent, but for the pixel at (1, 1), which is red.
abbrev pixel : ℕ → ℕ → RgbaColor
pixel x y = record { r = 255; g = 0; b = 0; a = if x == 1 && y == 1 then 255 else 0 }

abbrev transparent : Colors
transparent = ([], 0) ∷ []

small_colors : All (λ cs. All (λ c. c < 256) cs) (picture pixel 2 0 2 transparent).0
unfolding picture row_indices add_color get_color text_eq color_index_of rgb_to_hex to_padded_hex
    hex_digits hex_digit
small_colors = ((omega arith, (omega arith, tt)), ((omega arith, (omega arith, tt)), tt))

encode-IsDecoded_example :
    (r : Image × Text × Colors) × ((encode pixel (new_image 2 2) transparent ≡ some r)
      × (r.2 ≡ (picture pixel 2 0 2 transparent).1)
      × (r.0.rows
          ≡ kept_rows 2
              (bounds_from 2 0 (new_image 2 2).bounds (picture pixel 2 0 2 transparent).0)
              (rows_of 2 0 (picture pixel 2 0 2 transparent).0))
      × ((r.0.bounds.right < r.0.bounds.left)
          ⊎ ((r.1 ≡ zeros) ⊎ IsDecoded r.1 r.0.bounds r.0.rows)))
encode-IsDecoded_example =
    encode-IsDecoded pixel 2 2 transparent (omega arith) (omega arith) (omega arith) small_colors

abbrev two_lines : List (List (ℕ × ℕ))
two_lines = ((2, 0) ∷ (1, 4) ∷ []) ∷ ((3, 5) ∷ []) ∷ []

abbrev drawn_bounds : DecodedBounds
drawn_bounds = record { top = some 1; right = some 4; bottom = some 2; left = some 1 }

two_lines-IsLine : All (IsLine 1 4) two_lines
unfolding widths
two_lines-IsLine = (
  (omega arith, refl, (omega arith, (omega arith, tt))),
  ((omega arith, refl, (omega arith, tt)), tt),
)

draw_rects-lines_example :
    draw_rects ("" ∷ "ff0000" ∷ []) drawn_bounds (some 1) (some 1) (numbers (all_runs two_lines))
    ≡ draw_lines ("" ∷ "ff0000" ∷ []) 1 1 two_lines
draw_rects-lines_example =
    draw_rects-lines ("" ∷ "ff0000" ∷ []) drawn_bounds 1 4 1 two_lines refl refl two_lines-IsLine

transparent-IsIndexed : IsIndexed 0 transparent
unfolding IsIndexed
transparent-IsIndexed = (refl, tt)

abbrev picture_file : PngImage
picture_file = record { width = 2; height = 2; rgba_at = pixel }

encode_image-grows_example :
    (r : Text × PngCollectionEncoder) × ((encode_image "red" picture_file (some "heads") new_encoder
        ≡ some r)
      × (lookup "red" r.1.images ≡ some r.0)
      × IsIndexed 0 r.1.colors
      × (get_color [] r.1.colors ≡ some 0))
unfolding get_color text_eq
encode_image-grows_example =
    encode_image-grows "red" picture_file (some "heads") new_encoder [] 0 (omega arith)
      transparent-IsIndexed refl
