-- ===== src/Sdk/Svg/Cursor.antt =====
-- The drawing cursor: rows of runs that fill the bounds are drawn each on its own line.
use web3_nft.Prelude.{
  ℕ, ◌+◌, ◌<◌, String, ◌≡◌, refl, sym, ap, ◌∙◌, true, false, Option, some, List, [], ◌∷◌, ◌++◌, map,
  arith, ◌==◌, if◌then◌else◌, length, All,
}
use mathlib.Core.List.{append_assoc, append-nil}
use web3_nft.Sdk.Svg.{SvgRect, DecodedBounds, shown, draw_rects, number_eq}

-- Runs of a length and a color index, as the decoder hands them on.
abbrev pub numbers : List (ℕ × ℕ) → List (Option ℕ × Option ℕ)
numbers rs = map (λ r. (some r.0, some r.1)) rs

unfoldable pub widths : List (ℕ × ℕ) → ℕ
widths [] = 0
widths ((n, c) ∷ rs) = n + widths rs

map-append : (row rows : List (ℕ × ℕ)) → numbers (row ++ rows) ≡ numbers row ++ numbers rows
map-append [] rows = refl
map-append (r ∷ row) rows = ap (λ l. (some r.0, some r.1) ∷ l) (map-append row rows)

-- A line drawn from column `x` on, with no regard to any bound.
unfoldable pub draw_line : List String → ℕ → ℕ → List (ℕ × ℕ) → List SvgRect
draw_line palette x y [] = []
draw_line palette x y ((n, c) ∷ rs) =
    shown palette (some x) (some y) (some n, some c) ++ draw_line palette (x + n) y rs

unfoldable pub draw_lines : List String → ℕ → ℕ → List (List (ℕ × ℕ)) → List SvgRect
draw_lines palette x y [] = []
draw_lines palette x y (row ∷ rows) = draw_line palette x y row ++ draw_lines palette x (y + 1) rows

unfoldable pub all_runs : List (List (ℕ × ℕ)) → List (ℕ × ℕ)
all_runs [] = []
all_runs (row ∷ rows) = row ++ all_runs rows

-- Runs that have pixels, and reach from `x` to `right`.
abbrev pub IsLine : ℕ → ℕ → List (ℕ × ℕ) → Type 0
IsLine x right row = (0 < length row) × (x + widths row ≡ right) × All (λ r. 0 < r.0) row

module _ (palette : List String) (bounds : DecodedBounds) (left right : ℕ) where
  step_on :
      (x y n c : ℕ) (rest : List (Option ℕ × Option ℕ))
      → bounds.right ≡ some right
      → x + n < right
      → draw_rects palette bounds (some x) (some y) ((some n, some c) ∷ rest)
        ≡ shown palette (some x) (some y) (some n, some c)
          ++ draw_rects palette bounds (some (x + n)) (some y) rest
  unfolding draw_rects number_eq
  step_on x y n c rest r h =
      let here = shown palette (some x) (some y) (some n, some c) in
      let on = draw_rects palette bounds (some (x + n)) (some y) rest in
      let down = draw_rects palette bounds bounds.left (some (y + 1)) rest in
      let goes_on : (x + n == right) ≡ false = ground arith in
      ap (λ o. here ++ (if number_eq (some (x + n)) o then down else on)) r
      ∙ ap (λ t. here ++ (if t then down else on)) goes_on

  step_down :
      (x y n c : ℕ) (rest : List (Option ℕ × Option ℕ))
      → bounds.left ≡ some left
      → bounds.right ≡ some right
      → x + n ≡ right
      → draw_rects palette bounds (some x) (some y) ((some n, some c) ∷ rest)
        ≡ shown palette (some x) (some y) (some n, some c)
          ++ draw_rects palette bounds (some left) (some (y + 1)) rest
  unfolding draw_rects number_eq
  step_down x y n c rest l r h =
      let here = shown palette (some x) (some y) (some n, some c) in
      let on = draw_rects palette bounds (some (x + n)) (some y) rest in
      let down : Option ℕ → List SvgRect = λ o. draw_rects palette bounds o (some (y + 1)) rest in
      let ends : (x + n == right) ≡ true = ground arith in
      ap (λ o. here ++ (if number_eq (some (x + n)) o then down bounds.left else on)) r
      ∙ ap (λ t. here ++ (if t then down bounds.left else on)) ends
      ∙ ap (λ o. here ++ down o) l

  draw_rects-line :
      (x y : ℕ) (row : List (ℕ × ℕ)) (rest : List (Option ℕ × Option ℕ))
      → bounds.left ≡ some left
      → bounds.right ≡ some right
      → IsLine x right row
      → draw_rects palette bounds (some x) (some y) (numbers row ++ rest)
        ≡ draw_line palette x y row ++ draw_rects palette bounds (some left) (some (y + 1)) rest
  unfolding draw_line widths
  draw_rects-line x y [] rest l r (full, reach, some_pixels) = absurd (omega arith)
  draw_rects-line x y ((n, c) ∷ []) rest l r (full, reach, some_pixels) =
      step_down x y n c rest l r (omega (arith, reach))
      ∙ ap (λ q. q ++ draw_rects palette bounds (some left) (some (y + 1)) rest)
          (sym (append-nil (shown palette (some x) (some y) (some n, some c))))
  draw_rects-line x y ((n, c) ∷ r' ∷ rs) rest l r (full, reach, some_pixels) =
      let (first_full, (next_full, others)) = some_pixels in
      step_on x y n c (numbers (r' ∷ rs) ++ rest) r (omega (arith, reach, next_full))
      ∙ ap (λ q. shown palette (some x) (some y) (some n, some c) ++ q)
          (draw_rects-line (x + n) y (r' ∷ rs) rest l r
            (omega arith, omega (arith, reach), (next_full, others)))
      ∙ sym (
          append_assoc (shown palette (some x) (some y) (some n, some c))
            (draw_line palette (x + n) y (r' ∷ rs))
            (draw_rects palette bounds (some left) (some (y + 1)) rest))

  nothing_drawn : (x y : ℕ) → draw_rects palette bounds (some x) (some y) [] ≡ []
  unfolding draw_rects
  nothing_drawn x y = refl

  -- Rows that fill the bounds are drawn as lines, one below the other.
  pub draw_rects-lines :
      (y : ℕ) (rows : List (List (ℕ × ℕ)))
      → bounds.left ≡ some left
      → bounds.right ≡ some right
      → All (IsLine left right) rows
      → draw_rects palette bounds (some left) (some y) (numbers (all_runs rows))
        ≡ draw_lines palette left y rows
  unfolding draw_lines all_runs
  draw_rects-lines y [] l r h = nothing_drawn left y
  draw_rects-lines y (row ∷ rows) l r (line, h) =
      ap (draw_rects palette bounds (some left) (some y)) (map-append row (all_runs rows))
      ∙ draw_rects-line left y row (numbers (all_runs rows)) l r line
      ∙ ap (λ q. draw_line palette left y row ++ q) (draw_rects-lines (y + 1) rows l r h)
