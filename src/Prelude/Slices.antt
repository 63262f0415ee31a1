-- ===== src/Prelude/Slices.antt =====
-- Laws of `take`, `drop` and `replicate` on lists that are glued together.
use Prim.Native.Nat.{ℕ, zero, suc, ◌+◌, ◌≤◌}
use mathlib.Core.Path.{◌≡◌, refl, ap}
use mathlib.Core.List.{List, ◌∷◌, ◌++◌}
use native.Mathlib.Omega.{arith}
use web3_nft.Prelude.Lists.{length, take, drop, replicate}

module _ {ℓ} {A : Type ℓ} where
  pub length-replicate : (n : ℕ) (a : A) → length (replicate n a) ≡ n
  length-replicate zero a = refl
  length-replicate (suc n) a = ap suc (length-replicate n a)

  pub take-replicate : (k n : ℕ) (a : A) → k ≤ n → take k (replicate n a) ≡ replicate k a
  take-replicate zero n a h = refl
  take-replicate (suc k) zero a h = absurd (omega arith)
  take-replicate (suc k) (suc n) a h = ap (λ l. a ∷ l) (take-replicate k n a (omega arith))

  pub drop-replicate-append :
      (k n m : ℕ) (a : A) (xs : List A)
      → n ≡ k + m
      → drop k (replicate n a ++ xs) ≡ replicate m a ++ xs
  drop-replicate-append zero n m a xs e =
      let same : n ≡ m = omega arith in ap (λ i. replicate i a ++ xs) same
  drop-replicate-append (suc k) zero m a xs e = absurd (omega arith)
  drop-replicate-append (suc k) (suc n) m a xs e = drop-replicate-append k n m a xs (omega arith)

  pub take-replicate-append :
      (k n m : ℕ) (a : A) (xs : List A)
      → m ≡ n + k
      → take m (replicate n a ++ xs) ≡ replicate n a ++ take k xs
  take-replicate-append k zero m a xs e = let same : m ≡ k = omega arith in ap (λ i. take i xs) same
  take-replicate-append k (suc n) zero a xs e = absurd (omega arith)
  take-replicate-append k (suc n) (suc m) a xs e =
      ap (λ l. a ∷ l) (take-replicate-append k n m a xs (omega arith))
