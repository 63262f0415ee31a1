-- ===== src/Sdk/Image.antt =====
-- image.ts: an image's rows and bounds, and its run-length encoding.
-- `none` is the error that the source throws, reading a row that does not exist.
pub mod Runs
pub mod Crop
pub mod Loops
pub mod Scan
pub mod Encoding
pub mod Sides
pub mod RoundTrip
use web3_nft.Prelude.{
  ℕ, zero, suc, ◌+◌, ◌-◌, ◌%◌, ◌<◌, Bool, false, not, ◌&&◌, Option, none, some, List, [], ◌∷◌, ◌++◌,
  ltb, ◌==◌, if◌then◌else◌, length, or_else,
}
use web3_nft.Sdk.Hex.{Text, rgb_to_hex, to_padded_hex, buffer_hex}
use web3_nft.Sdk.Types.{
  RgbaColor, Rect, ImageRow, ImageRows, ImageBounds, Image, row_at, put_row, delete_row, push_pixel,
}
use web3_nft.Sdk.Palette.{Colors, add_color, color_index_of}

abbrev pub empty_row : ImageRow
empty_row = record { rects = []; bounds = record { left = 0; right = 0 } }

unfoldable pub append_pixel_to_rect : ℕ → ℕ → Image → Image
unfolding row_at put_row push_pixel
append_pixel_to_rect c y image =
    let row = or_else (row_at y image.rows) empty_row in
    record image { rows = put_row y (record row { rects = push_pixel c row.rects }) image.rows }

-- Whether a rect is there, fills the row and is transparent.
unfoldable pub is_empty_row : ℕ → Option Rect → Bool
is_empty_row width none = false
is_empty_row width (some rect) = rect.length == width && rect.color_index == 0

unfoldable pub first : List Rect → Option Rect
first [] = none
first (r ∷ rs) = some r

unfoldable pub last : List Rect → Option Rect
last [] = none
last (r ∷ []) = some r
last (r ∷ r' ∷ rs) = last (r' ∷ rs)

-- The top and bottom bounds after row `y`; a bound that is 0 counts as not yet set.
unfoldable pub next_bounds : ℕ → Bool → ImageBounds → ImageBounds
next_bounds y empty b =
    let top = if not empty && b.top == 0 then y else b.top in
    let bottom =
      if top == 0
      then b.bottom
      else if empty
      then (if b.bottom == 0 then y - 1 else b.bottom)
      else if y == 31
      then y
      else 0 in
    record b { top = top; bottom = bottom }

unfoldable pub update_image_bounds : ℕ → Image → Option Image
unfolding row_at put_row first last is_empty_row next_bounds
update_image_bounds y image = elim (row_at y image.rows) [
  | none ↦ none
  | some row ↦ elim (first row.rects) [
    | none ↦ none
    | some head ↦ elim (last row.rects) [
      | none ↦ none
      | some tail ↦ some (record image {
        bounds = next_bounds y (is_empty_row image.width (some head)) image.bounds;
        rows =
            put_row y
              (record row {
                bounds = record { left = head.length; right = image.width - tail.length };
              })
              image.rows;
      })
    ]
  ]
]

-- `for (let i = 0; i < n; i++) delete rows[i]`
unfoldable pub delete_below : ℕ → ImageRows → ImageRows
unfolding delete_row
delete_below zero rows = rows
delete_below (suc n) rows = delete_row n (delete_below n rows)

-- `for (let i = n - 1; i > bottom; i--) delete rows[i]`
unfoldable pub delete_above : ℕ → ℕ → ImageRows → ImageRows
unfolding delete_row
delete_above bottom zero rows = rows
delete_above bottom (suc i) rows =
    let rest = delete_above bottom i (delete_row i rows) in if ltb bottom i then rest else rows

unfoldable pub delete_empty_rows : Image → Image
unfolding delete_below delete_above
delete_empty_rows image = record image {
  rows = delete_above image.bounds.bottom image.height (delete_below image.bounds.top image.rows);
}

unfoldable pub min_left : ℕ → ImageRows → ℕ
min_left m [] = m
min_left m ((k, row) ∷ rows) = min_left (if ltb row.bounds.left m then row.bounds.left else m) rows

unfoldable pub max_right : ℕ → ImageRows → ℕ
max_right m [] = m
max_right m ((k, row) ∷ rows) =
    max_right (if ltb m row.bounds.right then row.bounds.right else m) rows

-- `Math.min(...)` and `Math.max(...)` over the rows; nothing is set where there is no row.
unfoldable pub set_side_bounds : ImageRows → ImageBounds → ImageBounds
unfolding min_left max_right
set_side_bounds [] b = b
set_side_bounds ((k, row) ∷ rows) b = record b {
  left = min_left row.bounds.left rows;
  right = max_right row.bounds.right rows;
}

unfoldable pub get_encoded_bounds : ImageBounds → Text
unfolding to_padded_hex
get_encoded_bounds b =
    48
    ∷ 120
    ∷ 48
    ∷ 48
    ∷ (to_padded_hex b.top 2
        ++ (to_padded_hex b.right 2 ++ (to_padded_hex b.bottom 2 ++ to_padded_hex b.left 2)))

-- `a - b` as `Buffer.from` keeps it: modulo 256.
abbrev pub byte_diff : ℕ → ℕ → ℕ
byte_diff a b = (a + (256 - b % 256)) % 256

-- The numbers of one rect: `i` counts the rects before it, `more` those after it.
unfoldable pub encode_rect : ℕ → ImageBounds → ℕ → ℕ → Rect → List ℕ
encode_rect width bounds i more rect =
    if i == 0 && more == 0
    then byte_diff bounds.right bounds.left ∷ rect.color_index ∷ []
    else if i == 0 && ltb bounds.left rect.length
    then (rect.length - bounds.left) ∷ rect.color_index ∷ []
    else if i == 0 && rect.length == bounds.left
    then []
    else if more == 0 && ltb (width - bounds.right) rect.length
    then (rect.length - (width - bounds.right)) ∷ rect.color_index ∷ []
    else if more == 0 && rect.length == (width - bounds.right)
    then []
    else rect.length ∷ rect.color_index ∷ []

unfoldable pub encode_rects : ℕ → ImageBounds → ℕ → List Rect → List ℕ
unfolding encode_rect
encode_rects width bounds i [] = []
encode_rects width bounds i (r ∷ rs) =
    encode_rect width bounds i (length rs) r ++ encode_rects width bounds (i + 1) rs

unfoldable pub get_encoded_row : ℕ → ImageBounds → ImageRow → Text
unfolding encode_rects buffer_hex
get_encoded_row width bounds row = buffer_hex (encode_rects width bounds 0 row.rects)

unfoldable pub get_encoded_rows : ℕ → ImageBounds → ImageRows → Text
unfolding get_encoded_row
get_encoded_rows width bounds [] = []
get_encoded_rows width bounds ((k, row) ∷ rows) =
    get_encoded_row width bounds row ++ get_encoded_rows width bounds rows

-- The pixels of a row, from column `x` on, `n` of them.
unfoldable pub scan_row : (ℕ → ℕ → RgbaColor) → ℕ → ℕ → ℕ → Image × Colors → Image × Colors
unfolding add_color color_index_of append_pixel_to_rect
scan_row rgba_at y x zero s = s
scan_row rgba_at y x (suc n) (image, colors) =
    let p = rgba_at x y in
    let colors' = add_color (rgb_to_hex p.r p.g p.b) colors in
    scan_row rgba_at y (x + 1) n (append_pixel_to_rect (color_index_of p colors') y image, colors')

unfoldable pub scan_rows : (ℕ → ℕ → RgbaColor) → ℕ → ℕ → Image × Colors → Option (Image × Colors)
unfolding scan_row update_image_bounds
scan_rows rgba_at y zero s = some s
scan_rows rgba_at y (suc n) (image, colors) =
    let (image', colors') = scan_row rgba_at y 0 image.width (image, colors) in
    elim (update_image_bounds y image') [
      | none ↦ none
      | some image'' ↦ scan_rows rgba_at (y + 1) n (image'', colors')
    ]

abbrev pub zeros : Text
zeros = 48 ∷ 120 ∷ 48 ∷ 48 ∷ 48 ∷ 48 ∷ 48 ∷ 48 ∷ 48 ∷ 48 ∷ 48 ∷ 48 ∷ []

-- The rows and bounds as they are written, and the text. "0x0000000000" is an image of one row,
-- with the key 0, that is transparent.
unfoldable pub write_rows : Image → Image × Text
unfolding delete_empty_rows set_side_bounds get_encoded_rows get_encoded_bounds
write_rows image =
    let kept = delete_empty_rows image in
    let b = set_side_bounds kept.rows kept.bounds in
    let done = record kept { bounds = b } in
    let blank =
      length done.rows == 1
      && is_empty_row done.width (first (or_else (row_at 0 done.rows) empty_row).rects) in
    (done, if blank then zeros else get_encoded_bounds b ++ get_encoded_rows done.width b done.rows)

unfoldable pub encode : (ℕ → ℕ → RgbaColor) → Image → Colors → Option (Image × Text × Colors)
unfolding scan_rows write_rows
encode rgba_at image colors = elim (scan_rows rgba_at 0 image.height (image, colors)) [
  | none ↦ none
  | some (image', colors') ↦ let (done, text) = write_rows image' in some (done, text, colors')
]

-- The encoding is made once and kept.
unfoldable pub to_rle : (ℕ → ℕ → RgbaColor) → Image → Colors → Option (Image × Text × Colors)
unfolding encode
to_rle rgba_at image colors = elim image.rle [
  | some text ↦ some (image, text, colors)
  | none ↦ elim (encode rgba_at image colors) [
    | none ↦ none
    | some (image', text, colors') ↦ some (record image' { rle = some text }, text, colors')
  ]
]
