-- ===== src/Sdk/Image/Sides.antt =====
-- The image's side bounds against those of its rows, and the bounds as bytes.
use web3_nft.Prelude.{
  ℕ, zero, suc, ◌+◌, ◌≤◌, ◌<◌, ◌≡◌, refl, ap, ◌∙◌, inl, inr, Bool, List, [], ◌∷◌, arith, ltb, ◌==◌,
  if◌then◌else◌, Bool-cases, length, length-append, replicate, All, length-replicate,
}
use web3_nft.Prelude.{length-replicate}
use web3_nft.Sdk.Types.{Rect, LineBounds, ImageRows, ImageBounds, push_pixel, RgbaColor}
use web3_nft.Sdk.Palette.{Colors}
use web3_nft.Sdk.Image.{min_left, max_right, set_side_bounds, next_bounds, first, is_empty_row}
use web3_nft.Sdk.Image.Runs.{expand}
use web3_nft.Sdk.Image.Loops.{push_all, row_indices}
use web3_nft.Sdk.Image.Scan.{
  rows_of, runs, bounds_of, expand-runs, runs-full, bounds_from, picture, length-row_indices,
}
use web3_nft.Sdk.Image.Encoding.{IsFilledBy, IsFilled, IsAround}

min_left-le : (m : ℕ) (rows : ImageRows) → min_left m rows ≤ m
unfolding min_left
min_left-le m [] = omega arith
min_left-le m ((k, row) ∷ rows) =
    let rest = min_left-le (if ltb row.bounds.left m then row.bounds.left else m) rows in
    ground arith

min_left-All : (m : ℕ) (rows : ImageRows) → All (λ kr. min_left m rows ≤ kr.1.bounds.left) rows
unfolding min_left
min_left-All m [] = tt
min_left-All m ((k, row) ∷ rows) =
    let m' = if ltb row.bounds.left m then row.bounds.left else m in
    let rest = min_left-le m' rows in (ground arith, min_left-All m' rows)

max_right-ge : (m : ℕ) (rows : ImageRows) → m ≤ max_right m rows
unfolding max_right
max_right-ge m [] = omega arith
max_right-ge m ((k, row) ∷ rows) =
    let rest = max_right-ge (if ltb m row.bounds.right then row.bounds.right else m) rows in
    ground arith

max_right-All : (m : ℕ) (rows : ImageRows) → All (λ kr. kr.1.bounds.right ≤ max_right m rows) rows
unfolding max_right
max_right-All m [] = tt
max_right-All m ((k, row) ∷ rows) =
    let m' = if ltb m row.bounds.right then row.bounds.right else m in
    let rest = max_right-ge m' rows in (ground arith, max_right-All m' rows)

max_right-le :
    (width m : ℕ) (rows : ImageRows)
    → m ≤ width
    → All (λ kr. kr.1.bounds.right ≤ width) rows
    → max_right m rows ≤ width
unfolding max_right
max_right-le width m [] h k = h
max_right-le width m ((y, row) ∷ rows) h (p, k) =
    max_right-le width (if ltb m row.bounds.right then row.bounds.right else m) rows (ground arith)
      k

both :
    (b : ImageBounds) (rows : ImageRows)
    → All (λ kr. b.left ≤ kr.1.bounds.left) rows
    → All (λ kr. kr.1.bounds.right ≤ b.right) rows
    → IsAround b rows
both b [] h k = tt
both b (kr ∷ rows) (p, h) (q, k) = ((p, q), both b rows h k)

-- The side bounds leave no row out, on either side.
pub set_side_bounds-IsAround :
    (rows : ImageRows) (b : ImageBounds) → IsAround (set_side_bounds rows b) rows
unfolding set_side_bounds
set_side_bounds-IsAround [] b = tt
set_side_bounds-IsAround ((k, row) ∷ rows) b = (
  (min_left-le row.bounds.left rows, max_right-ge row.bounds.right rows),
  both (set_side_bounds ((k, row) ∷ rows) b) rows (min_left-All row.bounds.left rows)
      (max_right-All row.bounds.right rows),
)

filled-inside :
    (width : ℕ) (bounds : LineBounds) (rects : List Rect)
    → IsFilledBy width bounds rects
    → (bounds.left ≤ width) × (bounds.right ≤ width)
unfolding IsFilledBy expand
filled-inside width bounds [] f = absurd f
filled-inside width bounds (r ∷ rs) (full, l, r', c) = (
  omega (
    arith,
    full,
    length-append (replicate r.length r.color_index) (expand rs),
    length-replicate r.length r.color_index,
  ),
  omega (arith, r'),
)

rights-inside :
    (width : ℕ) (rows : ImageRows)
    → IsFilled width rows
    → All (λ kr. kr.1.bounds.right ≤ width) rows
rights-inside width [] h = tt
rights-inside width ((k, row) ∷ rows) (f, h) =
    ((filled-inside width row.bounds row.rects f).1, rights-inside width rows h)

-- They lie inside the image.
pub set_side_bounds-inside :
    (width : ℕ) (rows : ImageRows) (b : ImageBounds)
    → IsFilled width rows
    → b.left ≤ width
    → b.right ≤ width
    → ((set_side_bounds rows b).left ≤ width) × ((set_side_bounds rows b).right ≤ width)
unfolding set_side_bounds
set_side_bounds-inside width [] b h l r = (l, r)
set_side_bounds-inside width ((k, row) ∷ rows) b (f, h) l r =
    let inside = filled-inside width row.bounds row.rects f in
    (
      omega (arith, inside.0, min_left-le row.bounds.left rows),
      max_right-le width row.bounds.right rows inside.1 (rights-inside width rows h),
    )

push_pixel-small :
    (c : ℕ) (rs : List Rect)
    → c < 256
    → All (λ rect. rect.color_index < 256) rs
    → All (λ rect. rect.color_index < 256) (push_pixel c rs)
unfolding push_pixel
push_pixel-small c [] h k = (h, tt)
push_pixel-small c (r ∷ []) h (p, k) = elim (Bool-cases (r.color_index == c)) [
  | inl e ↦ rw (e) (p, tt)
  | inr e ↦ rw (e) (p, (h, tt))
]
push_pixel-small c (r ∷ r' ∷ rs) h (p, k) = (p, push_pixel-small c (r' ∷ rs) h k)

push_all-small :
    (cs : List ℕ) (rs : List Rect)
    → All (λ c. c < 256) cs
    → All (λ rect. rect.color_index < 256) rs
    → All (λ rect. rect.color_index < 256) (push_all cs rs)
unfolding push_all
push_all-small [] rs h k = k
push_all-small (c ∷ cs) rs (p, h) k =
    push_all-small cs (push_pixel c rs) h (push_pixel-small c rs p k)

bounds_of-filled :
    (width : ℕ) (rs : List Rect)
    → length (expand rs) ≡ width
    → 0 < length rs
    → All (λ rect. rect.color_index < 256) rs
    → IsFilledBy width (bounds_of width rs) rs
unfolding IsFilledBy bounds_of
bounds_of-filled width [] full h k = absurd (omega arith)
bounds_of-filled width (r ∷ rs) full h k = (full, refl, refl, k)

-- Scanned rows fill the image's width.
pub rows_of-IsFilled :
    (width y : ℕ) (css : List (List ℕ))
    → 0 < width
    → All (λ cs. (length cs ≡ width) × All (λ c. c < 256) cs) css
    → IsFilled width (rows_of width y css)
unfolding rows_of
rows_of-IsFilled width y [] h k = tt
rows_of-IsFilled width y (cs ∷ css) h ((full, small), k) = (
  bounds_of-filled width (runs cs) (ap length (expand-runs cs) ∙ full)
      (runs-full cs (omega (arith, full))) (push_all-small cs [] small tt),
  rows_of-IsFilled width (y + 1) css h k,
)

pub picture-filled :
    (rgba_at : ℕ → ℕ → RgbaColor) (width n y : ℕ) (colors : Colors)
    → All (λ cs. All (λ c. c < 256) cs) (picture rgba_at width y n colors).0
    → All (λ cs. (length cs ≡ width) × All (λ c. c < 256) cs) (picture rgba_at width y n colors).0
unfolding picture
picture-filled rgba_at width zero y colors h = tt
picture-filled rgba_at width (suc n) y colors (p, h) = (
  (length-row_indices rgba_at y width 0 colors, p),
  picture-filled rgba_at width n (y + 1) (row_indices rgba_at y 0 width colors).1 h,
)

-- Bounds that fit in two hexadecimal digits.
abbrev pub IsByteBounds : ImageBounds → Type 0
IsByteBounds b = (b.top < 256) × (b.bottom < 256) × (b.left ≡ 0) × (b.right ≡ 0)

next_bounds-IsByteBounds :
    (y : ℕ) (empty : Bool) (b : ImageBounds)
    → y < 256
    → IsByteBounds b
    → IsByteBounds (next_bounds y empty b)
unfolding next_bounds
next_bounds-IsByteBounds y empty b h k = ground arith

pub bounds_from-IsByteBounds :
    (rgba_at : ℕ → ℕ → RgbaColor) (width n y : ℕ) (b : ImageBounds) (colors : Colors)
    → y + n ≤ 256
    → IsByteBounds b
    → IsByteBounds (bounds_from width y b (picture rgba_at width y n colors).0)
unfolding bounds_from picture
bounds_from-IsByteBounds rgba_at width zero y b colors h k = k
bounds_from-IsByteBounds rgba_at width (suc n) y b colors h k =
    let indices = row_indices rgba_at y 0 width colors in
    let empty = is_empty_row width (first (runs indices.0)) in
    bounds_from-IsByteBounds rgba_at width n (y + 1) (next_bounds y empty b) indices.1 (omega arith)
      (next_bounds-IsByteBounds y empty b (omega arith) k)

pub set_side_bounds-lines :
    (rows : ImageRows) (b : ImageBounds)
    → ((set_side_bounds rows b).top ≡ b.top) × ((set_side_bounds rows b).bottom ≡ b.bottom)
unfolding set_side_bounds
set_side_bounds-lines [] b = (refl, refl)
set_side_bounds-lines (kr ∷ rows) b = (refl, refl)
