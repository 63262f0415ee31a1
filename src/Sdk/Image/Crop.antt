-- ===== src/Sdk/Image/Crop.antt =====
-- What a row's encoding stands for: the pixels of the row between the image's side bounds.
use web3_nft.Prelude.{
  ℕ, suc, ◌+◌, ◌-◌, ◌≤◌, ◌<◌, ◌≡◌, sym, ap, ◌∙◌, inl, inr, List, [], ◌∷◌, ◌++◌, arith, ltb, lt→ltb,
  Bool-cases, length, length-append, take, drop, replicate, length-replicate, take-replicate,
  drop-replicate-append, take-replicate-append,
}
use mathlib.Core.List.{append-nil}
use web3_nft.Prelude.{
  length-replicate, take-replicate, drop-replicate-append, take-replicate-append,
}
use web3_nft.Sdk.Types.{Rect, ImageBounds}
use web3_nft.Sdk.Image.{encode_rect, encode_rects, byte_diff}
use web3_nft.Sdk.Image.Runs.{expand}

-- The color indices that pairs of a length and a color index stand for.
unfoldable pub expand_bytes : List ℕ → List ℕ
expand_bytes [] = []
expand_bytes (n ∷ []) = []
expand_bytes (n ∷ c ∷ ns) = replicate n c ++ expand_bytes ns

-- The length of the last rect.
unfoldable pub last_length : Rect → List Rect → ℕ
last_length r [] = r.length
last_length r (r' ∷ rs) = last_length r' rs

pub last_length-le : (r : Rect) (rs : List Rect) → last_length r rs ≤ length (expand (r ∷ rs))
unfolding last_length expand
last_length-le r [] = omega (
  arith,
  length-append (replicate r.length r.color_index) [],
  length-replicate r.length r.color_index,
)
last_length-le r (r' ∷ rs) = omega (
  arith,
  length-append (replicate r.length r.color_index) (expand (r' ∷ rs)),
  last_length-le r' rs,
)

cut_run :
    (n c cut : ℕ) → cut ≤ n → replicate (n - cut) c ++ [] ≡ take (n - cut) (replicate n c ++ [])
cut_run n c cut h =
    rw (append-nil (replicate (n - cut) c), append-nil (replicate n c))
      (sym (take-replicate (n - cut) n c (omega arith)))

module _ (width : ℕ) (b : ImageBounds) (r : Rect) (ns : List ℕ) where
  paint_inner :
      (i more : ℕ)
      → 0 < i
      → expand_bytes (encode_rect width b i (suc more) r ++ ns)
        ≡ replicate r.length r.color_index ++ expand_bytes ns
  unfolding expand_bytes encode_rect
  paint_inner i more h = ground arith

  paint_last :
      (i : ℕ)
      → 0 < i
      → width - b.right ≤ r.length
      → expand_bytes (encode_rect width b i 0 r ++ ns)
        ≡ replicate (r.length - (width - b.right)) r.color_index ++ expand_bytes ns
  unfolding expand_bytes encode_rect
  paint_last i h k = elim (Bool-cases (ltb (width - b.right) r.length)) [
    | inl e ↦ ground arith
    | inr e ↦
        let same : r.length ≡ width - b.right = ground (arith, lt→ltb (width - b.right) r.length) in
        let none_left : r.length - (width - b.right) ≡ 0 = omega arith in
        rw (none_left) (ground arith)
  ]

  paint_first :
      (more : ℕ)
      → b.left ≤ r.length
      → expand_bytes (encode_rect width b 0 (suc more) r ++ ns)
        ≡ replicate (r.length - b.left) r.color_index ++ expand_bytes ns
  unfolding expand_bytes encode_rect
  paint_first more h = ground arith

  paint_only :
      b.left ≤ b.right
      → b.right < 256
      → expand_bytes (encode_rect width b 0 0 r ++ ns)
        ≡ replicate (b.right - b.left) r.color_index ++ expand_bytes ns
  unfolding expand_bytes encode_rect
  paint_only h k =
      let whole : byte_diff b.right b.left ≡ b.right - b.left = omega arith in
      ap (λ n. replicate n r.color_index ++ expand_bytes ns) whole

-- The rects after the first.
pub encode_rects-tail :
    (width i : ℕ) (b : ImageBounds) (r : Rect) (rs : List Rect)
    → 0 < i
    → width - b.right ≤ last_length r rs
    → expand_bytes (encode_rects width b i (r ∷ rs))
      ≡ take (length (expand (r ∷ rs)) - (width - b.right)) (expand (r ∷ rs))
unfolding expand_bytes encode_rects encode_rect last_length expand
encode_rects-tail width i b r [] hi h = rw (paint_last width b r [] i hi h) (
    let whole : length (expand (r ∷ [])) ≡ r.length = omega (
      arith,
      length-append (replicate r.length r.color_index) [],
      length-replicate r.length r.color_index,
    ) in
    rw (whole) (cut_run r.length r.color_index (width - b.right) h))
encode_rects-tail width i b r (r' ∷ rs) hi h =
    rw
      (
        paint_inner width b r (encode_rects width b (i + 1) (r' ∷ rs)) i (length rs) hi,
        encode_rects-tail width (i + 1) b r' rs (omega arith) h,
      )
      (sym (
        take-replicate-append (length (expand (r' ∷ rs)) - (width - b.right)) r.length
          (length (expand (r ∷ r' ∷ rs)) - (width - b.right)) r.color_index (expand (r' ∷ rs))
          (omega (
            arith,
            length-append (replicate r.length r.color_index) (expand (r' ∷ rs)),
            length-replicate r.length r.color_index,
            last_length-le r' rs,
            h,
          ))))

-- The pixels of a row, of the image's width, that lie between the side bounds.
abbrev pub crop : ImageBounds → List ℕ → List ℕ
crop b pixels = take (b.right - b.left) (drop b.left pixels)

-- A row that fills the image's width, whose first rect reaches the left bound and whose last one
-- reaches back to the right bound, is encoded as its pixels between the two bounds.
pub encode_rects-crop :
    (width : ℕ) (b : ImageBounds) (r : Rect) (rs : List Rect)
    → length (expand (r ∷ rs)) ≡ width
    → b.left ≤ r.length
    → width - b.right ≤ last_length r rs
    → b.left ≤ b.right
    → b.right ≤ width
    → width < 256
    → expand_bytes (encode_rects width b 0 (r ∷ rs)) ≡ crop b (expand (r ∷ rs))
unfolding expand_bytes encode_rects last_length expand
encode_rects-crop width b r [] full h k order inside small =
    let left_cut =
      drop-replicate-append b.left r.length (r.length - b.left) r.color_index [] (omega arith) in
    let pixels : length (expand (r ∷ [])) ≡ r.length = omega (
      arith,
      length-append (replicate r.length r.color_index) [],
      length-replicate r.length r.color_index,
    ) in
    paint_only width b r [] order (omega arith)
    ∙ append-nil (replicate (b.right - b.left) r.color_index)
    ∙ sym (take-replicate (b.right - b.left) (r.length - b.left) r.color_index (omega arith))
    ∙ ap (take (b.right - b.left)) (sym (append-nil (replicate (r.length - b.left) r.color_index)))
    ∙ ap (take (b.right - b.left)) (sym left_cut)
encode_rects-crop width b r (r' ∷ rs) full h k order inside small =
    let rest = expand (r' ∷ rs) in
    let cut = width - b.right in
    let left_cut =
      drop-replicate-append b.left r.length (r.length - b.left) r.color_index rest (omega arith) in
    let right_cut =
      take-replicate-append (length rest - cut) (r.length - b.left) (b.right - b.left) r.color_index
        rest
        (omega (
          arith,
          length-append (replicate r.length r.color_index) rest,
          length-replicate r.length r.color_index,
          last_length-le r' rs,
        )) in
    paint_first width b r (encode_rects width b 1 (r' ∷ rs)) (length rs) h
    ∙ ap (λ l. replicate (r.length - b.left) r.color_index ++ l)
        (encode_rects-tail width 1 b r' rs (omega arith) k)
    ∙ sym right_cut
    ∙ ap (take (b.right - b.left)) (sym left_cut)
