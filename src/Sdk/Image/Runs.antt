-- ===== src/Sdk/Image/Runs.antt =====
-- Runs of equal pixels: what the rects of a row stand for.
use web3_nft.Prelude.{
  ℕ, zero, suc, ◌+◌, ◌<◌, ◌≡◌, refl, sym, ap, ◌∙◌, ◌≢◌, inl, inr, List, [], ◌∷◌, ◌++◌, arith, ◌==◌,
  ==_iff, Bool-cases, replicate,
}
use mathlib.Core.List.{append_assoc, append-nil}
use web3_nft.Sdk.Types.{Rect, push_pixel}

-- The color indices of the pixels that the rects cover, from left to right.
unfoldable pub expand : List Rect → List ℕ
expand [] = []
expand (r ∷ rs) = replicate r.length r.color_index ++ expand rs

pub replicate-snoc : (n c : ℕ) → replicate n c ++ c ∷ [] ≡ replicate (suc n) c
replicate-snoc zero c = refl
replicate-snoc (suc n) c = ap (λ l. c ∷ l) (replicate-snoc n c)

longer : (n c d : ℕ) → c ≡ d → replicate (suc n) c ++ [] ≡ (replicate n c ++ []) ++ d ∷ []
longer zero c d e = ap (λ x. x ∷ []) e
longer (suc n) c d e = ap (λ l. c ∷ l) (longer n c d e)

-- Pushing a pixel adds it at the right end, and to nothing else.
pub expand-push_pixel : (c : ℕ) (rs : List Rect) → expand (push_pixel c rs) ≡ expand rs ++ c ∷ []
unfolding expand push_pixel
expand-push_pixel c [] = refl
expand-push_pixel c (r ∷ []) = elim (Bool-cases (r.color_index == c)) [
  | inl e ↦
      rw (e, push_pixel)
        (let next : r.length + 1 ≡ suc r.length = omega arith in
          ap (λ n. replicate n r.color_index ++ []) next
          ∙ longer r.length r.color_index c ((==_iff r.color_index c).0 e))
  | inr e ↦
      rw (e, push_pixel)
        (ap (λ l. l ++ c ∷ []) (sym (append-nil (replicate r.length r.color_index))))
]
expand-push_pixel c (r ∷ r' ∷ rs) =
    rw (expand-push_pixel c (r' ∷ rs))
      (sym (append_assoc (replicate r.length r.color_index) (expand (r' ∷ rs)) (c ∷ [])))

-- Rects with pixels in them, where neighbours differ in color.
abbrev pub IsShortest : List Rect → Type 0
IsShortest [] = Unit
IsShortest (r ∷ []) = 0 < r.length
IsShortest (r ∷ r' ∷ rs) = (0 < r.length) × (r.color_index ≢ r'.color_index) × IsShortest (r' ∷ rs)

pub push_pixel-IsShortest : (c : ℕ) (rs : List Rect) → IsShortest rs → IsShortest (push_pixel c rs)
unfolding push_pixel
push_pixel-IsShortest c [] h = omega arith
push_pixel-IsShortest c (r ∷ []) h = ground arith
push_pixel-IsShortest c (r ∷ r' ∷ []) h = ground arith
push_pixel-IsShortest c (r ∷ r' ∷ r'' ∷ rs) h =
    (h.0, h.1, push_pixel-IsShortest c (r' ∷ r'' ∷ rs) h.2)
