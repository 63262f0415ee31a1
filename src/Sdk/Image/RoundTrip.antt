-- ===== src/Sdk/Image/RoundTrip.antt =====
-- An image of any pixels, encoded and decoded.
use web3_nft.Prelude.{
  ℕ, ◌≤◌, ◌<◌, ◌≡◌, refl, ap, ◌∙◌, ◌⊎◌, inl, inr, Bool, true, false, ◌&&◌, none, some, ◌++◌, arith,
  ◌==◌, if◌then◌else◌, length, or_else, All,
}
use web3_nft.Sdk.Hex.{Text}
use web3_nft.Sdk.Types.{RgbaColor, ImageRows, ImageBounds, Image, new_image, row_at}
use web3_nft.Sdk.Palette.{Colors}
use web3_nft.Sdk.Image.{
  delete_below, delete_above, delete_empty_rows, set_side_bounds, get_encoded_bounds,
  get_encoded_rows, write_rows, encode, zeros, is_empty_row, first, empty_row,
}
use web3_nft.Sdk.Image.Scan.{rows_of, bounds_from, picture, scan_rows-picture}
use web3_nft.Sdk.Image.Encoding.{
  IsFilled, IsAround, cropped, get_encoded_rows-cropped, delete_empty_rows-All, IsFilledBy,
}
use web3_nft.Sdk.Image.Sides.{
  set_side_bounds-IsAround, set_side_bounds-inside, rows_of-IsFilled, picture-filled, IsByteBounds,
  bounds_from-IsByteBounds, set_side_bounds-lines,
}
use web3_nft.Sdk.Svg.{decode_image}
use web3_nft.Sdk.Svg.Decoding.{paint, decode_image-header}

-- What a text is decoded to: the pixels of rows between bounds.
abbrev pub IsDecoded : Text → ImageBounds → ImageRows → Type 0
IsDecoded text b rows =
    ((decode_image text).bounds ≡ record {
      top = some b.top;
      right = some b.right;
      bottom = some b.bottom;
      left = some b.left;
    })
    × (paint (decode_image text).rects ≡ cropped b rows)

either_text :
    (blank : Bool) (text : Text) (b : ImageBounds) (rows : ImageRows)
    → IsDecoded text b rows
    → ((if blank then zeros else text) ≡ zeros) ⊎ IsDecoded (if blank then zeros else text) b rows
either_text true text b rows h = inl refl
either_text false text b rows h = inr h

-- The text of rows that fill the width, with side bounds around them.
texts-IsDecoded :
    (width : ℕ) (b : ImageBounds) (rows : ImageRows)
    → IsFilled width rows
    → IsAround b rows
    → width < 256
    → b.top < 256
    → b.bottom < 256
    → b.right ≤ width
    → b.left ≤ b.right
    → IsDecoded (get_encoded_bounds b ++ get_encoded_rows width b rows) b rows
texts-IsDecoded width b rows h a small t o inside order =
    let read =
      decode_image-header b (get_encoded_rows width b rows) t (omega arith) o (omega arith) in
    (
      ap (λ d. d.bounds) read,
      ap (λ d. paint d.rects) read ∙ get_encoded_rows-cropped width b rows h a order inside small,
    )

-- The rows as they are written are decoded, if the side bounds are in order.
pub write_rows-IsDecoded :
    (image : Image)
    → IsFilled image.width image.rows
    → IsByteBounds image.bounds
    → image.width < 256
    → (write_rows image).0.bounds.left ≤ (write_rows image).0.bounds.right
    → ((write_rows image).1 ≡ zeros)
      ⊎ IsDecoded (write_rows image).1 (write_rows image).0.bounds (write_rows image).0.rows
unfolding write_rows delete_empty_rows
write_rows-IsDecoded image h k small order =
    let kept = delete_empty_rows image in
    let b = set_side_bounds kept.rows kept.bounds in
    let filled =
      delete_empty_rows-All (λ kr. IsFilledBy image.width kr.1.bounds kr.1.rects) image h in
    let inside =
      set_side_bounds-inside image.width kept.rows kept.bounds filled (omega arith) (omega arith) in
    let lines = set_side_bounds-lines kept.rows kept.bounds in
    either_text
      (length kept.rows == 1
        && is_empty_row image.width (first (or_else (row_at 0 kept.rows) empty_row).rects))
      (get_encoded_bounds b ++ get_encoded_rows image.width b kept.rows) b kept.rows
      (texts-IsDecoded image.width b kept.rows filled
        (set_side_bounds-IsAround kept.rows kept.bounds) small (omega (arith, lines.0))
        (omega (arith, lines.1)) inside.1 order)

le_or : (m n : ℕ) → (m ≤ n) ⊎ (n < m)
le_or m n = omega arith

-- The rows of a picture that are written: those from its top bound to its bottom bound.
abbrev pub kept_rows : ℕ → ImageBounds → ImageRows → ImageRows
kept_rows height b rows = delete_above b.bottom height (delete_below b.top rows)

-- An image of one column or more, below 256, and at most 256 rows, with color indices of one byte,
-- is encoded without an error. The colors are those of the scan, and the rows that are kept are
-- the scanned rows from the top bound to the bottom bound. Unless the side bounds cross, or the
-- text is that of a blank image, the decoder reads back the bounds and every pixel of the kept rows
-- between the side bounds.
pub encode-IsDecoded :
    (rgba_at : ℕ → ℕ → RgbaColor) (width height : ℕ) (palette : Colors)
    → 0 < width
    → width < 256
    → height ≤ 256
    → All (λ cs. All (λ c. c < 256) cs) (picture rgba_at width 0 height palette).0
    → (r : Image × Text × Colors) × ((encode rgba_at (new_image width height) palette ≡ some r)
        × (r.2 ≡ (picture rgba_at width 0 height palette).1)
        × (r.0.rows
            ≡ kept_rows height
                (bounds_from width 0
                  (new_image width height).bounds
                  (picture rgba_at width 0 height palette).0)
                (rows_of width 0 (picture rgba_at width 0 height palette).0))
        × ((r.0.bounds.right < r.0.bounds.left)
            ⊎ ((r.1 ≡ zeros) ⊎ IsDecoded r.1 r.0.bounds r.0.rows)))
unfolding encode write_rows delete_empty_rows
encode-IsDecoded rgba_at width height palette h small lines colors =
    let image = new_image width height in
    let css = (picture rgba_at width 0 height palette).0 in
    let (scanned, (eq, same_width, same_height, same_rows, same_bounds, same_colors)) =
      scan_rows-picture rgba_at height 0 image palette h tt in
    let filled : IsFilled scanned.0.width scanned.0.rows =
      rw (same_width, same_rows)
        (rows_of-IsFilled width 0 css h (picture-filled rgba_at width height 0 palette colors)) in
    let small_bounds : IsByteBounds scanned.0.bounds = rw (same_bounds) (
      bounds_from-IsByteBounds rgba_at width height 0 image.bounds palette (omega (arith, lines))
        (omega arith, omega arith, refl, refl)) in
    let (done, text) = write_rows scanned.0 in
    (
      (done, text, scanned.1),
      (
        ap
            (λ o. elim o [
              | none ↦ none
              | some (i, colors') ↦
                  let (done', text') = write_rows i in some (done', text', colors')
            ])
            eq,
        same_colors,
        ap (λ n. kept_rows n scanned.0.bounds scanned.0.rows) same_height
            ∙ ap (λ b. kept_rows height b scanned.0.rows) same_bounds
            ∙ ap (kept_rows height (bounds_from width 0 image.bounds css)) same_rows,
        elim (le_or done.bounds.left done.bounds.right) [
          | inl order ↦ inr (
              write_rows-IsDecoded scanned.0 filled small_bounds (omega (arith, small, same_width))
                order)
          | inr cross ↦ inl cross
        ],
      ),
    )
