-- ===== src/Sdk/Types.antt =====
-- types.ts, and the rows of an image: an object with number keys, as a list of rows under their
-- keys in increasing order.
use web3_nft.Prelude.{ℕ, ◌+◌, Option, none, some, List, [], ◌∷◌, ◌==◌, if◌then◌else◌}
use web3_nft.Sdk.Hex.{Text}

pub record RgbaColor : Type 0 where
  pub r : ℕ
  pub g : ℕ
  pub b : ℕ
  pub a : ℕ

pub record Rect : Type 0 where
  pub length : ℕ
  pub color_index : ℕ

pub record LineBounds : Type 0 where
  pub left : ℕ
  pub right : ℕ

pub record ImageRow : Type 0 where
  pub rects : List Rect
  pub bounds : LineBounds

pub record ImageBounds : Type 0 where
  pub top : ℕ
  pub right : ℕ
  pub bottom : ℕ
  pub left : ℕ

abbrev pub ImageRows : Type 0
ImageRows = List (ℕ × ImageRow)

pub record Image : Type 0 where
  pub width : ℕ
  pub height : ℕ
  pub rows : ImageRows
  pub bounds : ImageBounds
  pub rle : Option Text

-- The constructor of the class.
abbrev pub new_image : ℕ → ℕ → Image
new_image width height = record {
  width = width;
  height = height;
  rows = [];
  bounds = record { top = 0; right = 0; bottom = 0; left = 0 };
  rle = none;
}

unfoldable pub row_at : ℕ → ImageRows → Option ImageRow
row_at y [] = none
row_at y ((k, row) ∷ rows) = if k == y then some row else row_at y rows

unfoldable pub put_row : ℕ → ImageRow → ImageRows → ImageRows
put_row y row [] = (y, row) ∷ []
put_row y row ((k, old) ∷ rows) = if k == y then (k, row) ∷ rows else (k, old) ∷ put_row y row rows

unfoldable pub delete_row : ℕ → ImageRows → ImageRows
delete_row y [] = []
delete_row y ((k, row) ∷ rows) =
    let rest = delete_row y rows in if k == y then rest else (k, row) ∷ rest

-- A pixel lengthens the last rect, if that has its color, or starts a rect.
unfoldable pub push_pixel : ℕ → List Rect → List Rect
push_pixel c [] = record { length = 1; color_index = c } ∷ []
push_pixel c (r ∷ []) =
    if r.color_index == c
    then record r { length = r.length + 1 } ∷ []
    else r ∷ record { length = 1; color_index = c } ∷ []
push_pixel c (r ∷ r' ∷ rs) = r ∷ push_pixel c (r' ∷ rs)
