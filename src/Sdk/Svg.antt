-- ===== src/Sdk/Svg.antt =====
-- svg-builder.ts: decoding the run-length text of a part, and drawing it. `none` as a number is
-- `NaN`. The drawing is the list of its elements; their text is not modelled.
pub mod Decoding
pub mod Cursor
use web3_nft.Prelude.{
  ℕ, ◌+◌, ◌-◌, ◌/◌, ◌^◌, String, Bool, false, not, ◌&&◌, Option, none, some, List, [], ◌∷◌, ◌++◌,
  ◌==◌, if◌then◌else◌, length, take, drop, get_elem?,
}
use web3_nft.Sdk.Hex.{Text, parse_int16}

pub record DecodedBounds : Type 0 where
  pub top : Option ℕ
  pub right : Option ℕ
  pub bottom : Option ℕ
  pub left : Option ℕ

pub record DecodedImage : Type 0 where
  pub palette_index : Option ℕ
  pub bounds : DecodedBounds
  pub rects : List (Option ℕ × Option ℕ)

-- `replace(/^0x/, '')`
unfoldable pub strip_prefix : Text → Text
strip_prefix [] = []
strip_prefix (c ∷ []) = c ∷ []
strip_prefix (c ∷ d ∷ cs) = if c == 48 && d == 120 then cs else c ∷ d ∷ cs

-- `substring(from, to)`, with `from` no larger than `to`.
abbrev pub substring : ℕ → ℕ → Text → Text
substring from to s = take (to - from) (drop from s)

-- Pieces of four characters, the last of them shorter perhaps, and two numbers in each.
unfoldable pub decode_rects : Text → List (Option ℕ × Option ℕ)
unfolding parse_int16
decode_rects [] = []
decode_rects (a ∷ []) = (parse_int16 (a ∷ []), parse_int16 []) ∷ []
decode_rects (a ∷ b ∷ []) = (parse_int16 (a ∷ b ∷ []), parse_int16 []) ∷ []
decode_rects (a ∷ b ∷ c ∷ []) = (parse_int16 (a ∷ b ∷ []), parse_int16 (c ∷ [])) ∷ []
decode_rects (a ∷ b ∷ c ∷ d ∷ cs) =
    (parse_int16 (a ∷ b ∷ []), parse_int16 (c ∷ d ∷ [])) ∷ decode_rects cs

unfoldable pub decode_image : Text → DecodedImage
unfolding strip_prefix decode_rects parse_int16
decode_image image =
    let data' = strip_prefix image in
    record {
      palette_index = parse_int16 (substring 0 2 data');
      bounds = record {
        top = parse_int16 (substring 2 4 data');
        right = parse_int16 (substring 4 6 data');
        bottom = parse_int16 (substring 6 8 data');
        left = parse_int16 (substring 8 10 data');
      };
      rects = decode_rects (drop 10 data');
    }

-- A `rect` element, in pixels of the image; the source writes ten times each number. A color that
-- the palette does not have is `none`, written as "undefined".
pub record SvgRect : Type 0 where
  pub width : Option ℕ
  pub x : Option ℕ
  pub y : Option ℕ
  pub fill : Option String

unfoldable pub add_number : Option ℕ → Option ℕ → Option ℕ
add_number none n = none
add_number (some m) none = none
add_number (some m) (some n) = some (m + n)

unfoldable pub number_eq : Option ℕ → Option ℕ → Bool
number_eq none n = false
number_eq (some m) none = false
number_eq (some m) (some n) = m == n

unfoldable pub palette_color : List String → Option ℕ → Option String
palette_color colors none = none
palette_color colors (some i) = get_elem? colors i

unfoldable pub shown : List String → Option ℕ → Option ℕ → Option ℕ × Option ℕ → List SvgRect
unfolding number_eq palette_color
shown palette x y (length', color_index) =
    if number_eq color_index (some 0)
    then []
    else record { width = length'; x = x; y = y; fill = palette_color palette color_index } ∷ []

-- The cursor goes right, and on to the next line from the right bound.
unfoldable pub draw_rects :
    List String → DecodedBounds → Option ℕ → Option ℕ → List (Option ℕ × Option ℕ) → List SvgRect
unfolding shown add_number number_eq
draw_rects palette bounds x y [] = []
draw_rects palette bounds x y (rect ∷ rects) =
    let x' = add_number x rect.0 in
    let same_line = draw_rects palette bounds x' y rects in
    let next_line = draw_rects palette bounds bounds.left (add_number y (some 1)) rects in
    shown palette x y rect ++ (if number_eq x' bounds.right then next_line else same_line)

unfoldable pub draw_part : List String → Text → List SvgRect
unfolding decode_image draw_rects
draw_part palette text =
    let image = decode_image text in
    draw_rects palette image.bounds image.bounds.left image.bounds.top image.rects

unfoldable pub draw_parts : List String → List Text → List SvgRect
unfolding draw_part
draw_parts palette [] = []
draw_parts palette (part ∷ parts) = draw_part palette part ++ draw_parts palette parts

pub record Svg : Type 0 where
  pub background : String
  pub rects : List SvgRect

abbrev pub build_svg : List Text → List String → String → Svg
build_svg parts palette_colors bg_color = record {
  background = bg_color;
  rects = draw_parts palette_colors parts;
}
