-- ===== src/Sdk/Image/Encoding.antt =====
-- What an encoded image is decoded to: the rows that are kept, between the image's side bounds.
use web3_nft.Prelude.{
  ℕ, zero, suc, ◌+◌, ◌-◌, ◌≤◌, ◌<◌, ◌≡◌, refl, ap, ◌∙◌, inl, inr, List, [], ◌∷◌, ◌++◌, arith, ltb,
  ◌==◌, Bool-cases, length, length-append, replicate, All, length-replicate,
}
use web3_nft.Prelude.{length-replicate}
use web3_nft.Sdk.Hex.{Text, buffer_hex}
use web3_nft.Sdk.Types.{Rect, LineBounds, ImageRow, ImageRows, ImageBounds, Image, delete_row}
use web3_nft.Sdk.Image.{
  encode_rect, encode_rects, get_encoded_row, get_encoded_rows, delete_below, delete_above,
  delete_empty_rows,
}
use web3_nft.Sdk.Image.Runs.{expand}
use web3_nft.Sdk.Image.Crop.{last_length, crop, encode_rects-crop}
use web3_nft.Sdk.Svg.{decode_rects}
use web3_nft.Sdk.Svg.Decoding.{IsBytePairs, paint, paint-buffer_hex}

-- A row that fills the image's width, with its bounds, and colors of one byte.
unfoldable pub IsFilledBy : ℕ → LineBounds → List Rect → Type 0
IsFilledBy width bounds [] = ⊥
IsFilledBy width bounds (r ∷ rs) =
    (length (expand (r ∷ rs)) ≡ width)
    × (bounds.left ≡ r.length)
    × (bounds.right ≡ width - last_length r rs)
    × All (λ rect. rect.color_index < 256) (r ∷ rs)

abbrev pub IsFilled : ℕ → ImageRows → Type 0
IsFilled width rows = All (λ kr. IsFilledBy width kr.1.bounds kr.1.rects) rows

-- The side bounds lie on both sides of the bounds of every row.
abbrev pub IsAround : ImageBounds → ImageRows → Type 0
IsAround b rows = All (λ kr. (b.left ≤ kr.1.bounds.left) × (kr.1.bounds.right ≤ b.right)) rows

encode_rect-IsBytePairs :
    (width : ℕ) (b : ImageBounds) (i more : ℕ) (r : Rect)
    → r.length < 256
    → r.color_index < 256
    → IsBytePairs (encode_rect width b i more r)
unfolding encode_rect IsBytePairs
encode_rect-IsBytePairs width b i more r h k = ground arith

append-IsBytePairs : (ns ms : List ℕ) → IsBytePairs ns → IsBytePairs ms → IsBytePairs (ns ++ ms)
unfolding IsBytePairs
append-IsBytePairs [] ms h k = k
append-IsBytePairs (n ∷ []) ms h k = absurd h
append-IsBytePairs (n ∷ c ∷ ns) ms (p, q, h) k = (p, q, append-IsBytePairs ns ms h k)

no_bytes : IsBytePairs []
unfolding IsBytePairs
no_bytes = tt

encode_rects-IsBytePairs :
    (width : ℕ) (b : ImageBounds) (i : ℕ) (rs : List Rect)
    → length (expand rs) < 256
    → All (λ rect. rect.color_index < 256) rs
    → IsBytePairs (encode_rects width b i rs)
unfolding encode_rects expand
encode_rects-IsBytePairs width b i [] h k = no_bytes
encode_rects-IsBytePairs width b i (r ∷ rs) h (c, k) =
    let sizes = length-append (replicate r.length r.color_index) (expand rs) in
    let size = length-replicate r.length r.color_index in
    append-IsBytePairs (encode_rect width b i (length rs) r) (encode_rects width b (i + 1) rs)
      (encode_rect-IsBytePairs width b i (length rs) r (omega (arith, sizes, size, h)) c)
      (encode_rects-IsBytePairs width b (i + 1) rs (omega (arith, sizes, size, h)) k)

-- The pixels of rows between the side bounds, row after row.
unfoldable pub cropped : ImageBounds → ImageRows → List ℕ
cropped b [] = []
cropped b ((k, row) ∷ rows) = crop b (expand row.rects) ++ cropped b rows

row_cropped :
    (width : ℕ) (b : ImageBounds) (bounds : LineBounds) (rects : List Rect) (text : Text)
    → IsFilledBy width bounds rects
    → b.left ≤ bounds.left
    → bounds.right ≤ b.right
    → b.left ≤ b.right
    → b.right ≤ width
    → width < 256
    → paint (decode_rects (buffer_hex (encode_rects width b 0 rects) ++ text))
      ≡ crop b (expand rects) ++ paint (decode_rects text)
unfolding IsFilledBy
row_cropped width b bounds [] text f l r order inside small = absurd f
row_cropped width b bounds (r ∷ rs) text (full, at_left, at_right, colors) l right order inside
      small =
    paint-buffer_hex (encode_rects width b 0 (r ∷ rs)) text
      (encode_rects-IsBytePairs width b 0 (r ∷ rs) (omega (arith, full)) colors)
    ∙ ap (λ pixels. pixels ++ paint (decode_rects text))
        (encode_rects-crop width b r rs full (omega arith) (omega arith) order inside small)

nothing : paint (decode_rects []) ≡ []
unfolding paint decode_rects
nothing = refl

-- Decoding the encoded rows gives back every pixel that lies between the side bounds.
pub get_encoded_rows-cropped :
    (width : ℕ) (b : ImageBounds) (rows : ImageRows)
    → IsFilled width rows
    → IsAround b rows
    → b.left ≤ b.right
    → b.right ≤ width
    → width < 256
    → paint (decode_rects (get_encoded_rows width b rows)) ≡ cropped b rows
unfolding get_encoded_rows get_encoded_row cropped
get_encoded_rows-cropped width b [] h k order inside small = nothing
get_encoded_rows-cropped width b ((y, row) ∷ rows) (f, h) (a, k) order inside small =
    row_cropped width b row.bounds row.rects (get_encoded_rows width b rows) f a.0 a.1 order inside
      small
    ∙ ap (λ pixels. crop b (expand row.rects) ++ pixels)
        (get_encoded_rows-cropped width b rows h k order inside small)

-- The rows that `delete` leaves are among those before it.
module _ (P : ℕ × ImageRow → Type 0) where
  delete_row-All : (y : ℕ) (rows : ImageRows) → All P rows → All P (delete_row y rows)
  unfolding delete_row
  delete_row-All y [] h = tt
  delete_row-All y ((k, row) ∷ rows) (p, h) = elim (Bool-cases (k == y)) [
    | inl e ↦ rw (e) (delete_row-All y rows h)
    | inr e ↦ rw (e) (p, delete_row-All y rows h)
  ]

  delete_below-All : (n : ℕ) (rows : ImageRows) → All P rows → All P (delete_below n rows)
  unfolding delete_below
  delete_below-All zero rows h = h
  delete_below-All (suc n) rows h =
      delete_row-All n (delete_below n rows) (delete_below-All n rows h)

  delete_above-All :
      (bottom i : ℕ) (rows : ImageRows) → All P rows → All P (delete_above bottom i rows)
  unfolding delete_above
  delete_above-All bottom zero rows h = h
  delete_above-All bottom (suc i) rows h = elim (Bool-cases (ltb bottom i)) [
    | inl e ↦ rw (e) (delete_above-All bottom i (delete_row i rows) (delete_row-All i rows h))
    | inr e ↦ rw (e) h
  ]

  pub delete_empty_rows-All :
      (image : Image) → All P image.rows → All P (delete_empty_rows image).rows
  unfolding delete_empty_rows
  delete_empty_rows-All image h =
      delete_above-All image.bounds.bottom image.height (delete_below image.bounds.top image.rows)
        (delete_below-All image.bounds.top image.rows h)
