-- ===== src/Assets/Nibbles.antt =====
-- The digits of a number in base 16, as numbers: their count and the value that they stand for.
use web3_nft.Prelude.{
  ℕ, zero, suc, ◌+◌, ◌*◌, ◌/◌, ◌%◌, ◌^◌, ◌≤◌, ◌<◌, ◌≡◌, refl, sym, ap, ◌∙◌, inl, inr, some, List,
  [], ◌∷◌, ◌++◌, map, arith, ltb, ◌==◌, if◌then◌else◌, ltb→lt, Bool-cases, length, length-append,
  drop, All, All-append,
}
use native.Mathlib.Nat.{pow-suc, mul-le-mul_right, one-le-pow}
use web3_nft.Sdk.Hex.{hex_digit, hex_digits}
use web3_nft.Sdk.Hex.Bytes.{digit_value-hex_digit}
use web3_nft.Assets.{read_from, even_digits}

-- The digits that `hex_digits` writes.
pub nibbles : ℕ → ℕ → List ℕ
nibbles zero c = c ∷ []
nibbles (suc fuel) c =
    let more = nibbles fuel (c / 16) ++ c % 16 ∷ [] in if ltb c 16 then c ∷ [] else more

pub even_nibbles : ℕ → List ℕ
even_nibbles n = if length (nibbles n n) % 2 == 1 then 0 ∷ nibbles n n else nibbles n n

module _ {ℓ κ} {A : Type ℓ} {B : Type κ} (f : A → B) where
  map-append : (xs ys : List A) → map f (xs ++ ys) ≡ map f xs ++ map f ys
  map-append [] ys = refl
  map-append (x ∷ xs) ys = ap (λ l. f x ∷ l) (map-append xs ys)

  pub length-map : (xs : List A) → length (map f xs) ≡ length xs
  length-map [] = refl
  length-map (x ∷ xs) = ap suc (length-map xs)

  pub drop-map : (n : ℕ) (xs : List A) → drop n (map f xs) ≡ map f (drop n xs)
  drop-map zero xs = refl
  drop-map (suc n) [] = refl
  drop-map (suc n) (x ∷ xs) = drop-map n xs

hex_digits-nibbles : (fuel c : ℕ) → hex_digits fuel c ≡ map hex_digit (nibbles fuel c)
unfolding hex_digits nibbles
hex_digits-nibbles zero c = refl
hex_digits-nibbles (suc fuel) c = elim (Bool-cases (ltb c 16)) [
  | inl e ↦ rw e refl
  | inr e ↦ rw e (
      ap (λ l. l ++ hex_digit (c % 16) ∷ []) (hex_digits-nibbles fuel (c / 16))
      ∙ sym (map-append hex_digit (nibbles fuel (c / 16)) (c % 16 ∷ [])))
]

pub even_digits-nibbles : (n : ℕ) → even_digits (hex_digits n n) ≡ map hex_digit (even_nibbles n)
unfolding even_digits even_nibbles hex_digit
even_digits-nibbles n =
    let same = hex_digits-nibbles n n in
    let long = ap length same ∙ length-map hex_digit (nibbles n n) in
    elim (Bool-cases (length (nibbles n n) % 2 == 1)) [
      | inl e ↦ rw (long, e, same) refl
      | inr e ↦ rw (long, e, same) refl
    ]

-- The number that digits stand for, after the ones that stand for `acc`.
pub value : ℕ → List ℕ → ℕ
value acc [] = acc
value acc (d ∷ ds) = value (acc * 16 + d) ds

abbrev pub AreDigits : List ℕ → Type 0
AreDigits = All (λ d. d < 16)

pub read_from-digits :
    (acc : ℕ) (ds : List ℕ) → AreDigits ds → read_from acc (map hex_digit ds) ≡ some (value acc ds)
unfolding read_from value
read_from-digits acc [] h = refl
read_from-digits acc (d ∷ ds) (p, h) =
    rw (digit_value-hex_digit d p, read_from) (read_from-digits (acc * 16 + d) ds h)

pub value-append : (acc : ℕ) (xs ys : List ℕ) → value acc (xs ++ ys) ≡ value (value acc xs) ys
unfolding value
value-append acc [] ys = refl
value-append acc (x ∷ xs) ys = value-append (acc * 16 + x) xs ys

front_lem : (a d p v : ℕ) → (a * 16 + d) * p + v ≡ a * (p * 16) + ((0 + d) * p + v)
front_lem a d p v = grind arith

bound_lem : (d p v : ℕ) → d < 16 → v < p → (0 + d) * p + v < p * 16
bound_lem d p v h k =
    let at_most : d * p ≤ 15 * p = mul-le-mul_right p (omega arith) in omega (arith, at_most)

-- What stands in front counts by the power of the length.
pub value_front : (acc : ℕ) (ds : List ℕ) → value acc ds ≡ acc * 16 ^ length ds + value 0 ds
unfolding value
value_front acc [] = omega arith
value_front acc (d ∷ ds) =
    let power = pow-suc 16 (length ds) in
    let rest = value_front (0 + d) ds in
    let here = value_front (acc * 16 + d) ds in
    rw (here, power, rest) (front_lem acc d (16 ^ length ds) (value 0 ds))

pub value-lt-pow : (ds : List ℕ) → AreDigits ds → value 0 ds < 16 ^ length ds
unfolding value
value-lt-pow [] h = omega arith
value-lt-pow (d ∷ ds) (p, h) =
    rw (value_front (0 + d) ds, pow-suc 16 (length ds))
      (bound_lem d (16 ^ length ds) (value 0 ds) p (value-lt-pow ds h))

value-nibbles : (fuel c : ℕ) → c ≤ fuel → value 0 (nibbles fuel c) ≡ c
unfolding value nibbles
value-nibbles zero c h = omega arith
value-nibbles (suc fuel) c h = elim (Bool-cases (ltb c 16)) [
  | inl e ↦ rw e (omega arith)
  | inr e ↦
      let rest = value-nibbles fuel (c / 16) (omega arith) in
      rw e (
        value-append 0 (nibbles fuel (c / 16)) (c % 16 ∷ [])
        ∙ ap (λ n. n * 16 + c % 16) rest
        ∙ omega arith)
]

nibbles-AreDigits : (fuel c : ℕ) → c ≤ fuel → AreDigits (nibbles fuel c)
unfolding nibbles
nibbles-AreDigits zero c h = (omega arith, tt)
nibbles-AreDigits (suc fuel) c h = elim (Bool-cases (ltb c 16)) [
  | inl e ↦ rw e (ltb→lt c 16 e, tt)
  | inr e ↦ rw e (
      All-append (λ d. d < 16) (nibbles fuel (c / 16)) (c % 16 ∷ [])
        (nibbles-AreDigits fuel (c / 16) (omega arith)) (omega arith, tt))
]

-- Digits enough for the number, and no more than it needs.
nibbles_short : (k fuel c : ℕ) → c < 16 ^ suc k → length (nibbles fuel c) ≤ suc k
unfolding nibbles
nibbles_short k zero c h = omega arith
nibbles_short zero (suc fuel) c h = elim (Bool-cases (ltb c 16)) [
  | inl e ↦ rw e (omega arith)
  | inr e ↦ absurd (ground arith)
]
nibbles_short (suc k) (suc fuel) c h = elim (Bool-cases (ltb c 16)) [
  | inl e ↦ rw e (omega arith)
  | inr e ↦
      let power = pow-suc 16 (suc k) in
      let rest = nibbles_short k fuel (c / 16) (omega (arith, power)) in
      rw e (omega (arith, rest, length-append (nibbles fuel (c / 16)) (c % 16 ∷ [])))
]

nibbles_long : (k fuel c : ℕ) → c ≤ fuel → 16 ^ k ≤ c → k < length (nibbles fuel c)
unfolding nibbles
nibbles_long zero zero c h p = omega arith
nibbles_long (suc k) zero c h p =
    absurd (omega (arith, pow-suc 16 k, one-le-pow k 16 (omega arith)))
nibbles_long zero (suc fuel) c h p = elim (Bool-cases (ltb c 16)) [
  | inl e ↦ rw e (omega arith)
  | inr e ↦ rw e (omega (arith, length-append (nibbles fuel (c / 16)) (c % 16 ∷ [])))
]
nibbles_long (suc k) (suc fuel) c h p = elim (Bool-cases (ltb c 16)) [
  | inl e ↦ absurd (omega (arith, ltb→lt c 16 e, pow-suc 16 k, one-le-pow k 16 (omega arith)))
  | inr e ↦
      let rest = nibbles_long k fuel (c / 16) (omega arith) (omega (arith, pow-suc 16 k)) in
      rw e (omega (arith, rest, length-append (nibbles fuel (c / 16)) (c % 16 ∷ [])))
]

pub even_nibbles-AreDigits : (n : ℕ) → AreDigits (even_nibbles n)
unfolding even_nibbles
even_nibbles-AreDigits n = elim (Bool-cases (length (nibbles n n) % 2 == 1)) [
  | inl e ↦ rw e (omega arith, nibbles-AreDigits n n (omega arith))
  | inr e ↦ rw e (nibbles-AreDigits n n (omega arith))
]

pub value-even_nibbles : (n : ℕ) → value 0 (even_nibbles n) ≡ n
unfolding even_nibbles value
value-even_nibbles n = elim (Bool-cases (length (nibbles n n) % 2 == 1)) [
  | inl e ↦ rw e (value-nibbles n n (omega arith))
  | inr e ↦ rw e (value-nibbles n n (omega arith))
]

-- A number below 2 ^ 40 takes ten digits at most, any other one takes twelve or more.
pub even_nibbles_short : (n : ℕ) → n < 16 ^ 10 → length (even_nibbles n) ≤ 10
unfolding even_nibbles
even_nibbles_short n h = ground (arith, nibbles_short 9 n n)

pub even_nibbles_long : (n : ℕ) → 16 ^ 10 ≤ n → 12 ≤ length (even_nibbles n)
unfolding even_nibbles
even_nibbles_long n h = ground (arith, nibbles_long 10 n n)
