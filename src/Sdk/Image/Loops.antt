-- ===== src/Sdk/Image/Loops.antt =====
-- The two loops of `encode`: the rows they build, for a picture given by its color indices.
use web3_nft.Prelude.{
  ℕ, zero, suc, ◌+◌, ◌<◌, ◌≡◌, refl, sym, ap, ◌∙◌, none, some, List, [], ◌∷◌, ◌++◌, arith, or_else,
  All,
}
use mathlib.Core.List.{append_assoc, append-nil}
use web3_nft.Sdk.Hex.{rgb_to_hex}
use web3_nft.Sdk.Types.{RgbaColor, Rect, ImageRow, ImageRows, Image, row_at, put_row, push_pixel}
use web3_nft.Sdk.Palette.{Colors, add_color, color_index_of}
use web3_nft.Sdk.Image.{append_pixel_to_rect, empty_row, scan_row}
use web3_nft.Sdk.Image.Runs.{expand, expand-push_pixel, IsShortest, push_pixel-IsShortest}

-- A row's color indices, and the map of colors after it.
unfoldable pub row_indices : (ℕ → ℕ → RgbaColor) → ℕ → ℕ → ℕ → Colors → List ℕ × Colors
row_indices rgba_at y x zero colors = ([], colors)
row_indices rgba_at y x (suc n) colors =
    let p = rgba_at x y in
    let colors' = add_color (rgb_to_hex p.r p.g p.b) colors in
    let (indices, colors'') = row_indices rgba_at y (x + 1) n colors' in
    (color_index_of p colors' ∷ indices, colors'')

unfoldable pub push_all : List ℕ → List Rect → List Rect
push_all [] rs = rs
push_all (c ∷ cs) rs = push_all cs (push_pixel c rs)

pub expand-push_all : (cs : List ℕ) (rs : List Rect) → expand (push_all cs rs) ≡ expand rs ++ cs
unfolding push_all
expand-push_all [] rs = sym (append-nil (expand rs))
expand-push_all (c ∷ cs) rs =
    expand-push_all cs (push_pixel c rs)
    ∙ ap (λ l. l ++ cs) (expand-push_pixel c rs)
    ∙ append_assoc (expand rs) (c ∷ []) cs

pub push_all-IsShortest :
    (cs : List ℕ) (rs : List Rect) → IsShortest rs → IsShortest (push_all cs rs)
unfolding push_all
push_all-IsShortest [] rs h = h
push_all-IsShortest (c ∷ cs) rs h =
    push_all-IsShortest cs (push_pixel c rs) (push_pixel-IsShortest c rs h)

-- Every key stands below `y`.
abbrev pub IsBelow : ℕ → ImageRows → Type 0
IsBelow y rows = All (λ kr. kr.0 < y) rows

pub row_at-fresh : (y : ℕ) (rows : ImageRows) → IsBelow y rows → row_at y rows ≡ none
unfolding row_at
row_at-fresh y [] h = refl
row_at-fresh y ((k, row) ∷ rows) h = let rest = row_at-fresh y rows h.1 in ground arith

pub put_row-fresh :
    (y : ℕ) (row : ImageRow) (rows : ImageRows)
    → IsBelow y rows
    → put_row y row rows ≡ rows ++ (y, row) ∷ []
unfolding put_row
put_row-fresh y row [] h = refl
put_row-fresh y row ((k, old) ∷ rows) h = let rest = put_row-fresh y row rows h.1 in ground arith

pub row_at-last :
    (y : ℕ) (row : ImageRow) (rows : ImageRows)
    → IsBelow y rows
    → row_at y (rows ++ (y, row) ∷ []) ≡ some row
unfolding row_at
row_at-last y row [] h = ground arith
row_at-last y row ((k, old) ∷ rows) h = let rest = row_at-last y row rows h.1 in ground arith

pub put_row-last :
    (y : ℕ) (row old : ImageRow) (rows : ImageRows)
    → IsBelow y rows
    → put_row y row (rows ++ (y, old) ∷ []) ≡ rows ++ (y, row) ∷ []
unfolding put_row
put_row-last y row old [] h = ground arith
put_row-last y row old ((k, r) ∷ rows) h =
    let rest = put_row-last y row old rows h.1 in ground arith

-- The row `y` of rects, under the rows before it.
abbrev pub with_rows : Image → ImageRows → Image
with_rows image rows = record image { rows = rows }

pub append-fresh :
    (c y : ℕ) (image : Image)
    → IsBelow y image.rows
    → append_pixel_to_rect c y image
      ≡ with_rows image (image.rows ++ (y, record empty_row { rects = push_pixel c [] }) ∷ [])
unfolding append_pixel_to_rect
append-fresh c y image h =
    ap
      (λ r. with_rows image (
        put_row y
          (record (or_else r empty_row) { rects = push_pixel c (or_else r empty_row).rects })
          image.rows))
      (row_at-fresh y image.rows h)
    ∙ ap (with_rows image)
        (put_row-fresh y (record empty_row { rects = push_pixel c [] }) image.rows h)

pub append-last :
    (c y : ℕ) (image : Image) (rows : ImageRows) (row : ImageRow)
    → IsBelow y rows
    → append_pixel_to_rect c y (with_rows image (rows ++ (y, row) ∷ []))
      ≡ with_rows image (rows ++ (y, record row { rects = push_pixel c row.rects }) ∷ [])
unfolding append_pixel_to_rect
append-last c y image rows row h =
    ap
      (λ r. with_rows image (
        put_row y
          (record (or_else r empty_row) { rects = push_pixel c (or_else r empty_row).rects })
          (rows ++ (y, row) ∷ [])))
      (row_at-last y row rows h)
    ∙ ap (with_rows image)
        (put_row-last y (record row { rects = push_pixel c row.rects }) row rows h)

module _ (rgba_at : ℕ → ℕ → RgbaColor) (y : ℕ) (image : Image) (rows : ImageRows) where
  pub scan_row-last :
      (n x : ℕ) (row : ImageRow) (colors : Colors)
      → IsBelow y rows
      → scan_row rgba_at y x n (with_rows image (rows ++ (y, row) ∷ []), colors) ≡ (
        with_rows image (
            rows
            ++ (y, record row { rects = push_all (row_indices rgba_at y x n colors).0 row.rects })
              ∷ []),
        (row_indices rgba_at y x n colors).1,
      )
  unfolding scan_row row_indices push_all
  scan_row-last zero x row colors h = refl
  scan_row-last (suc n) x row colors h =
      let p = rgba_at x y in
      let colors' = add_color (rgb_to_hex p.r p.g p.b) colors in
      let c = color_index_of p colors' in
      ap (λ i. scan_row rgba_at y (x + 1) n (i, colors')) (append-last c y image rows row h)
      ∙ scan_row-last n (x + 1) (record row { rects = push_pixel c row.rects }) colors' h

  -- A row that is new, of one pixel or more.
  pub scan_row-fresh :
      (n x : ℕ) (colors : Colors)
      → IsBelow y rows
      → scan_row rgba_at y x (suc n) (with_rows image rows, colors) ≡ (
        with_rows image (
            rows
            ++ (
              y,
              record empty_row { rects = push_all (row_indices rgba_at y x (suc n) colors).0 [] },
            )
              ∷ []),
        (row_indices rgba_at y x (suc n) colors).1,
      )
  unfolding scan_row row_indices push_all
  scan_row-fresh n x colors h =
      let p = rgba_at x y in
      let colors' = add_color (rgb_to_hex p.r p.g p.b) colors in
      let c = color_index_of p colors' in
      ap (λ i. scan_row rgba_at y (x + 1) n (i, colors'))
        (append-fresh c y (with_rows image rows) h)
      ∙ scan_row-last n (x + 1) (record empty_row { rects = push_pixel c [] }) colors' h
