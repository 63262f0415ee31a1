-- ===== src/Contracts/Chunks.antt =====
-- utils.ts: an array in chunks.
use web3_nft.Prelude.{
  ℕ, zero, suc, ◌≤◌, ◌<◌, ◌≡◌, refl, ap, ◌∙◌, Option, none, some, List, [], ◌∷◌, ◌++◌, arith,
  length, take, drop, All,
}
use mathlib.Core.Option

module _ {ℓ} {A : Type ℓ} where
  -- `array.slice(i, i + size)` for each `i` by steps of `size`, from the rest of the array at `i`.
  -- `none` is a loop that has not ended within the rounds given.
  unfoldable pub chunks_from : ℕ → List A → ℕ → Option (List (List A))
  chunks_from rounds [] size = some []
  chunks_from zero (x ∷ xs) size = none
  chunks_from (suc rounds) (x ∷ xs) size =
      Option.map (λ chunks. take size (x ∷ xs) ∷ chunks)
        (chunks_from rounds (drop size (x ∷ xs)) size)

  -- A step of one or more ends the loop within as many rounds as the array has entries.
  unfoldable pub chunk_array : List A → ℕ → Option (List (List A))
  unfolding chunks_from
  chunk_array array size = chunks_from (length array) array size

  unfoldable pub concat : List (List A) → List A
  concat [] = []
  concat (xs ∷ xss) = xs ++ concat xss

  -- A chunk has an entry, and no more than the size.
  abbrev pub IsChunk : ℕ → List A → Type 0
  IsChunk size chunk = (0 < length chunk) × (length chunk ≤ size)

  take-append-drop : (n : ℕ) (xs : List A) → take n xs ++ drop n xs ≡ xs
  take-append-drop zero xs = refl
  take-append-drop (suc n) [] = refl
  take-append-drop (suc n) (x ∷ xs) = ap (λ l. x ∷ l) (take-append-drop n xs)

  length-drop-le : (n : ℕ) (xs : List A) → length (drop n xs) ≤ length xs
  length-drop-le zero xs = omega arith
  length-drop-le (suc n) [] = omega arith
  length-drop-le (suc n) (x ∷ xs) = omega (arith, length-drop-le n xs)

  length-take-le : (n : ℕ) (xs : List A) → length (take n xs) ≤ n
  length-take-le zero xs = omega arith
  length-take-le (suc n) [] = omega arith
  length-take-le (suc n) (x ∷ xs) = omega (arith, length-take-le n xs)

  chunks_from-IsChunk :
      (rounds : ℕ) (xs : List A) (size : ℕ)
      → length xs ≤ rounds
      → (chunks : List (List A)) × ((chunks_from rounds xs (suc size) ≡ some chunks)
          × (concat chunks ≡ xs)
          × All (IsChunk (suc size)) chunks)
  unfolding chunks_from concat
  chunks_from-IsChunk rounds [] size h = ([], (refl, refl, tt))
  chunks_from-IsChunk zero (x ∷ xs) size h = absurd (omega arith)
  chunks_from-IsChunk (suc rounds) (x ∷ xs) size h =
      let fewer : length (drop size xs) ≤ rounds = omega (arith, length-drop-le size xs) in
      let (chunks, (returned, whole, sizes)) =
        chunks_from-IsChunk rounds (drop size xs) size fewer in
      (
        take (suc size) (x ∷ xs) ∷ chunks,
        (
          ap (Option.map (λ (l : List (List A)). take (suc size) (x ∷ xs) ∷ l)) returned,
          ap (λ l. x ∷ (take size xs ++ l)) whole ∙ ap (λ l. x ∷ l) (take-append-drop size xs),
          ((omega arith, omega (arith, length-take-le size xs)), sizes),
        ),
      )

-- With a size of one or more the loop ends; the chunks, one after the other, are the array, each with
-- one entry or more and no more than the size.
pub chunk_array-IsChunk :
    {A : Type 0} (array : List A) (size : ℕ)
    → 0 < size
    → (chunks : List (List A)) × ((chunk_array array size ≡ some chunks)
        × (concat chunks ≡ array)
        × All (IsChunk size) chunks)
unfolding chunk_array
chunk_array-IsChunk array zero h = absurd (omega arith)
chunk_array-IsChunk array (suc size) h = chunks_from-IsChunk (length array) array size (omega arith)
