-- ===== src/Prelude/Lists.antt =====
-- Lists measured by native numbers, under the library's names, and lists of texts.
use Prim.Native.Nat.{ℕ, zero, suc, ◌+◌}
use Prim.Native.String.{String}
use mathlib.Core.Path.{◌≡◌}
use mathlib.Core.Logic.{◌≢◌}
use mathlib.Core.Bool.{Bool, true, false, ◌||◌}
use mathlib.Core.Option.{Option, none, some}
use mathlib.Core.List.{List, [], ◌∷◌, ◌++◌}
use native.Mathlib.Omega.{arith}
use text.Mathlib.Text.{◌==◌}
use text.Mathlib.TextEquality.{eq_iff}

module _ {ℓ} {A : Type ℓ} where
  abbrev pub length : List A → ℕ
  length [] = 0
  length (x ∷ xs) = suc (length xs)

  pub length-append : (xs ys : List A) → length (xs ++ ys) ≡ length xs + length ys
  length-append [] ys = omega arith
  length-append (x ∷ xs) ys = omega (arith, length-append xs ys)

  abbrev pub take : ℕ → List A → List A
  take zero xs = []
  take (suc n) [] = []
  take (suc n) (x ∷ xs) = x ∷ take n xs

  abbrev pub drop : ℕ → List A → List A
  drop zero xs = xs
  drop (suc n) [] = []
  drop (suc n) (x ∷ xs) = drop n xs

  abbrev pub replicate : ℕ → A → List A
  replicate zero a = []
  replicate (suc n) a = a ∷ replicate n a

  abbrev pub get_elem? : List A → ℕ → Option A
  get_elem? [] i = none
  get_elem? (x ∷ xs) zero = some x
  get_elem? (x ∷ xs) (suc i) = get_elem? xs i

  abbrev pub or_else : Option A → A → A
  or_else none d = d
  or_else (some a) d = a

module _ {ℓ κ} {A : Type ℓ} (P : A → Type κ) where
  abbrev pub All : List A → Type κ
  All [] = Unit
  All (x ∷ xs) = P x × All xs

  pub All-append : (xs ys : List A) → All xs → All ys → All (xs ++ ys)
  All-append [] ys h k = k
  All-append (x ∷ xs) ys (p, h) k = (p, All-append xs ys h k)

-- `list.includes(text)`
unfoldable pub includes : String → List String → Bool
includes s [] = false
includes s (t ∷ ts) = s == t || includes s ts

pub str_eq-eq : (s t : String) → s ≡ t → (s == t) ≡ true
str_eq-eq s t = (eq_iff s t).1

pub str_eq-ne : (s t : String) → s ≢ t → (s == t) ≡ false
str_eq-ne s t h = ground (arith, eq_iff s t)
