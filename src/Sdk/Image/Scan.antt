-- ===== src/Sdk/Image/Scan.antt =====
-- What scanning an image makes of it: a row of runs for each row of its color indices.
use web3_nft.Prelude.{
  ℕ, zero, suc, ◌+◌, ◌-◌, ◌<◌, ◌≡◌, refl, sym, ap, ◌∙◌, none, some, List, [], ◌∷◌, ◌++◌, arith,
  length, All-append,
}
use mathlib.Core.List.{append_assoc, append-nil}
use web3_nft.Sdk.Types.{
  RgbaColor, Rect, LineBounds, ImageRow, ImageRows, ImageBounds, Image, put_row, push_pixel,
}
use web3_nft.Sdk.Hex.{rgb_to_hex}
use web3_nft.Sdk.Palette.{Colors, add_color}
use web3_nft.Sdk.Image.{
  empty_row, first, last, is_empty_row, next_bounds, update_image_bounds, scan_row, scan_rows,
}
use web3_nft.Sdk.Image.Runs.{expand, IsShortest}
use web3_nft.Sdk.Image.Crop.{last_length}
use web3_nft.Sdk.Image.Loops.{
  row_indices, push_all, expand-push_all, push_all-IsShortest, IsBelow, row_at-last, put_row-last,
  with_rows, scan_row-fresh,
}

-- The color indices of a picture, row by row.
unfoldable pub picture : (ℕ → ℕ → RgbaColor) → ℕ → ℕ → ℕ → Colors → List (List ℕ) × Colors
picture rgba_at width y zero colors = ([], colors)
picture rgba_at width y (suc n) colors =
    let (indices, colors') = row_indices rgba_at y 0 width colors in
    let (rest, colors'') = picture rgba_at width (y + 1) n colors' in (indices ∷ rest, colors'')

unfoldable pub bounds_of : ℕ → List Rect → LineBounds
bounds_of width [] = record { left = 0; right = 0 }
bounds_of width (r ∷ rs) = record { left = r.length; right = width - last_length r rs }

abbrev pub runs : List ℕ → List Rect
runs cs = push_all cs []

abbrev pub row_of : ℕ → List ℕ → ImageRow
row_of width cs = record { rects = runs cs; bounds = bounds_of width (runs cs) }

unfoldable pub rows_of : ℕ → ℕ → List (List ℕ) → ImageRows
rows_of width y [] = []
rows_of width y (cs ∷ css) = (y, row_of width cs) ∷ rows_of width (y + 1) css

-- The bounds after rows of color indices, the first of them at `y`.
unfoldable pub bounds_from : ℕ → ℕ → ImageBounds → List (List ℕ) → ImageBounds
bounds_from width y b [] = b
bounds_from width y b (cs ∷ css) =
    bounds_from width (y + 1) (next_bounds y (is_empty_row width (first (runs cs))) b) css

last_rect : Rect → List Rect → Rect
last_rect r [] = r
last_rect r (r' ∷ rs) = last_rect r' rs

last-last_rect : (r : Rect) (rs : List Rect) → last (r ∷ rs) ≡ some (last_rect r rs)
unfolding last last_rect
last-last_rect r [] = refl
last-last_rect r (r' ∷ rs) = last-last_rect r' rs

length-last_rect : (r : Rect) (rs : List Rect) → (last_rect r rs).length ≡ last_length r rs
unfolding last_length last_rect
length-last_rect r [] = refl
length-last_rect r (r' ∷ rs) = length-last_rect r' rs

-- The bounds of a row that has a rect.
pub update_image_bounds-last :
    (y : ℕ) (image : Image) (rows : ImageRows) (rects : List Rect)
    → IsBelow y rows
    → 0 < length rects
    → update_image_bounds y (with_rows image (rows ++ (y, record empty_row { rects = rects }) ∷ []))
      ≡ some (record image {
        bounds = next_bounds y (is_empty_row image.width (first rects)) image.bounds;
        rows = rows ++ (y, record { rects = rects; bounds = bounds_of image.width rects }) ∷ [];
      })
unfolding update_image_bounds first bounds_of
update_image_bounds-last y image rows [] h e = absurd (omega arith)
update_image_bounds-last y image rows (r ∷ rs) h e =
    rw
      (
        row_at-last y (record empty_row { rects = r ∷ rs }) rows h,
        update_image_bounds,
        last-last_rect r rs,
      )
      (ap
        (λ all. some (record image {
          bounds = next_bounds y (is_empty_row image.width (some r)) image.bounds;
          rows = all;
        }))
        (ap
            (λ l.
              put_row y
                record {
                  rects = r ∷ rs;
                  bounds = record { left = r.length; right = image.width - l };
                }
                (rows ++ (y, record empty_row { rects = r ∷ rs }) ∷ []))
            (length-last_rect r rs)
          ∙ put_row-last y record { rects = r ∷ rs; bounds = bounds_of image.width (r ∷ rs) }
              (record empty_row { rects = r ∷ rs }) rows h))

pub length-row_indices :
    (rgba_at : ℕ → ℕ → RgbaColor) (y n x : ℕ) (colors : Colors)
    → length (row_indices rgba_at y x n colors).0 ≡ n
unfolding row_indices
length-row_indices rgba_at y zero x colors = refl
length-row_indices rgba_at y (suc n) x colors =
    let p = rgba_at x y in
    ap suc (length-row_indices rgba_at y n (x + 1) (add_color (rgb_to_hex p.r p.g p.b) colors))

pub expand-runs : (cs : List ℕ) → expand (runs cs) ≡ cs
unfolding expand
expand-runs cs = expand-push_all cs []

-- The runs of a row cover its color indices, one after the other; each run has pixels, and
-- neighbours differ in color.
pub runs-IsShortest : (cs : List ℕ) → (expand (runs cs) ≡ cs) × IsShortest (runs cs)
runs-IsShortest cs = (expand-runs cs, push_all-IsShortest cs [] tt)

push_pixel-full : (c : ℕ) (rs : List Rect) → 0 < length (push_pixel c rs)
unfolding push_pixel
push_pixel-full c [] = omega arith
push_pixel-full c (r ∷ []) = ground arith
push_pixel-full c (r ∷ r' ∷ rs) = omega arith

push_all-full : (cs : List ℕ) (rs : List Rect) → 0 < length rs → 0 < length (push_all cs rs)
unfolding push_all
push_all-full [] rs h = h
push_all-full (c ∷ cs) rs h = push_all-full cs (push_pixel c rs) (push_pixel-full c rs)

pub runs-full : (cs : List ℕ) → 0 < length cs → 0 < length (runs cs)
unfolding push_all
runs-full [] h = absurd (omega arith)
runs-full (c ∷ cs) h = push_all-full cs (push_pixel c []) (push_pixel-full c [])

IsBelow-next : (y : ℕ) (rows : ImageRows) → IsBelow y rows → IsBelow (y + 1) rows
IsBelow-next y [] h = tt
IsBelow-next y ((k, row) ∷ rows) h = (omega arith, IsBelow-next y rows h.1)

module _ (rgba_at : ℕ → ℕ → RgbaColor) where
  scan_row-filled :
      (n y : ℕ) (image : Image) (colors : Colors)
      → 0 < n
      → IsBelow y image.rows
      → scan_row rgba_at y 0 n (image, colors) ≡ (
        with_rows image (
            image.rows
            ++ (y, record empty_row { rects = runs (row_indices rgba_at y 0 n colors).0 }) ∷ []),
        (row_indices rgba_at y 0 n colors).1,
      )
  scan_row-filled zero y image colors h k = absurd (omega arith)
  scan_row-filled (suc n) y image colors h k =
      scan_row-fresh rgba_at y image image.rows n 0 colors k

  pub scan_rows-picture :
      (n y : ℕ) (image : Image) (colors : Colors)
      → 0 < image.width
      → IsBelow y image.rows
      → (r : Image × Colors) × ((scan_rows rgba_at y n (image, colors) ≡ some r)
          × (r.0.width ≡ image.width)
          × (r.0.height ≡ image.height)
          × (r.0.rows
              ≡ image.rows ++ rows_of image.width y (picture rgba_at image.width y n colors).0)
          × (r.0.bounds
              ≡ bounds_from image.width y image.bounds (picture rgba_at image.width y n colors).0)
          × (r.1 ≡ (picture rgba_at image.width y n colors).1))
  unfolding scan_rows picture rows_of bounds_from
  scan_rows-picture zero y image colors h k =
      ((image, colors), (refl, refl, refl, sym (append-nil image.rows), refl, refl))
  scan_rows-picture (suc n) y image colors h k =
      let cs = (row_indices rgba_at y 0 image.width colors).0 in
      let colors' = (row_indices rgba_at y 0 image.width colors).1 in
      let scanned = scan_row-filled image.width y image colors h k in
      let some_pixel : 0 < length cs =
        omega (arith, length-row_indices rgba_at y image.width 0 colors) in
      let bounded =
        update_image_bounds-last y image image.rows (runs cs) k (runs-full cs some_pixel) in
      let image' : Image = record image {
        bounds = next_bounds y (is_empty_row image.width (first (runs cs))) image.bounds;
        rows = image.rows ++ (y, row_of image.width cs) ∷ [];
      } in
      let below : IsBelow (y + 1) image'.rows =
        All-append (λ kr. kr.0 < y + 1) image.rows ((y, row_of image.width cs) ∷ [])
          (IsBelow-next y image.rows k) (omega arith, tt) in
      let (r, (eq, same_width, same_height, same_rows, same_bounds, same_colors)) =
        scan_rows-picture n (y + 1) image' colors' h below in
      (
        r,
        (
          ap
                (λ s. elim (update_image_bounds y s.0) [
                  | none ↦ none
                  | some i ↦ scan_rows rgba_at (y + 1) n (i, s.1)
                ])
                scanned
              ∙ ap (λ o. elim o [ none ↦ none | some i ↦ scan_rows rgba_at (y + 1) n (i, colors') ])
                  bounded
              ∙ eq,
          same_width,
          same_height,
          same_rows
              ∙ append_assoc image.rows ((y, row_of image.width cs) ∷ [])
                  (rows_of image.width (y + 1) (picture rgba_at image.width (y + 1) n colors').0),
          same_bounds,
          same_colors,
        ),
      )
