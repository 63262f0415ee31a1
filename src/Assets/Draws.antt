-- ===== src/Assets/Draws.antt =====
-- One drawn part, where the shifted number has digits enough and where it has not.
use web3_nft.Prelude.{
  ℕ, zero, suc, ◌+◌, ◌-◌, ◌*◌, ◌/◌, ◌%◌, ◌^◌, ◌≤◌, ◌<◌, ◌≡◌, refl, sym, ap, ◌∙◌, inl, inr, Option,
  none, some, List, [], ◌∷◌, ◌++◌, map, arith, leb, ◌==◌, if◌then◌else◌, leb→le, Bool-cases, length,
  take, drop,
}
use web3_nft.Sdk.Hex.{Text, hex_digit, digit_value}
use web3_nft.Assets.{
  hex_prefix, read_from, read_hex, BigNumbers, ◌>>=◌, shift_right_and_cast, get_pseudorandom_part,
}
use web3_nft.Assets.Nibbles.{
  even_nibbles, even_digits-nibbles, length-map, drop-map, value, AreDigits, read_from-digits,
  value-append, value_front, value-lt-pow, even_nibbles-AreDigits, value-even_nibbles,
  even_nibbles_short, even_nibbles_long,
}

take-append-drop : (n : ℕ) (ds : List ℕ) → take n ds ++ drop n ds ≡ ds
take-append-drop zero ds = refl
take-append-drop (suc n) [] = refl
take-append-drop (suc n) (d ∷ ds) = ap (λ l. d ∷ l) (take-append-drop n ds)

drop-AreDigits : (n : ℕ) (ds : List ℕ) → AreDigits ds → AreDigits (drop n ds)
drop-AreDigits zero ds h = h
drop-AreDigits (suc n) [] h = tt
drop-AreDigits (suc n) (d ∷ ds) (p, h) = drop-AreDigits n ds h

length-drop : (n : ℕ) (ds : List ℕ) → length (drop n ds) ≡ length ds - n
length-drop zero ds = omega arith
length-drop (suc n) [] = omega arith
length-drop (suc n) (d ∷ ds) = omega (arith, length-drop n ds)

cast_lem : (q r n : ℕ) → n ≡ q * 2 ^ 48 + r → r < 2 ^ 48 → r ≡ n % 2 ^ 48
cast_lem q r n e h = omega arith

-- The last twelve digits of a number are those of the number modulo 2 ^ 48.
value_cast :
    (ds : List ℕ)
    → AreDigits ds
    → 12 ≤ length ds
    → value 0 (drop (length ds - 12) ds) ≡ value 0 ds % 2 ^ 48
value_cast ds h long =
    let front = take (length ds - 12) ds in
    let back = drop (length ds - 12) ds in
    let twelve : length back ≡ 12 = omega (arith, length-drop (length ds - 12) ds) in
    let whole : value 0 ds ≡ value (value 0 front) back =
      ap (value 0) (sym (take-append-drop (length ds - 12) ds)) ∙ value-append 0 front back in
    let power : 16 ^ length back ≡ 2 ^ 48 = ap (λ n. 16 ^ n) twelve in
    let split = value_front (value 0 front) back in
    let below = value-lt-pow back (drop-AreDigits (length ds - 12) ds h) in
    cast_lem (value 0 front) (value 0 back) (value 0 ds)
      (whole ∙ split ∙ ap (λ p. value 0 front * p + value 0 back) power) (rw (sym power) below)

read_hex_digits : (ds : List ℕ) → AreDigits ds → read_hex (map hex_digit ds) ≡ some (value 0 ds)
unfolding read_hex
read_hex_digits ds h = read_from-digits 0 ds h

-- "x" is no digit.
read_hex_prefix : (cs : Text) → read_hex (hex_prefix cs) ≡ none
unfolding read_hex read_from digit_value
read_hex_prefix cs = refl

bind_assoc :
    {A B C : Type 0} (m : Option A) (f : A → Option B) (g : B → Option C)
    → (m >>= λ a. (f a >>= g)) ≡ ((m >>= f) >>= g)
bind_assoc none f g = refl
bind_assoc (some a) f g = refl

module _ (big : BigNumbers) where
  to_hex : (n : ℕ) → big.to_hex_string n ≡ hex_prefix (map hex_digit (even_nibbles n))
  to_hex n = big.to_hex_string_lem n ∙ ap hex_prefix (even_digits-nibbles n)

  -- The text that is cast, from the digits of the shifted number.
  cast_text :
      (value_text : Text) (v shift : ℕ)
      → big.from value_text ≡ some v
      → shift_right_and_cast big value_text shift 48
        ≡ some (
            hex_prefix (
              drop
                (2 + length (even_nibbles (v / 2 ^ shift)) - 12)
                (hex_prefix (map hex_digit (even_nibbles (v / 2 ^ shift))))))
  unfolding shift_right_and_cast
  cast_text value_text v shift read =
      let ds = even_nibbles (v / 2 ^ shift) in
      let long : length (hex_prefix (map hex_digit ds)) ≡ 2 + length ds =
        omega (arith, length-map hex_digit ds) in
      rw (read, to_hex (v / 2 ^ shift), long) refl

  -- With twelve digits or more, the cast text is read as the number modulo 2 ^ 48.
  cast_read :
      (value_text : Text) (v shift : ℕ)
      → big.from value_text ≡ some v
      → 2 ^ 40 ≤ v / 2 ^ shift
      → (shift_right_and_cast big value_text shift 48 >>= big.from) ≡ some (v / 2 ^ shift % 2 ^ 48)
  cast_read value_text v shift read long =
      let n = v / 2 ^ shift in
      let ds = even_nibbles n in
      let enough = even_nibbles_long n long in
      let start : 2 + length ds - 12 ≡ suc (suc (length ds - 12)) = omega arith in
      let digits = drop (length ds - 12) ds in
      let are = drop-AreDigits (length ds - 12) ds (even_nibbles-AreDigits n) in
      ap (λ o. o >>= big.from) (cast_text value_text v shift read)
      ∙ ap (λ k. big.from (hex_prefix (drop k (hex_prefix (map hex_digit ds))))) start
      ∙ ap (λ t. big.from (hex_prefix t)) (drop-map hex_digit (length ds - 12) ds)
      ∙ big.from-hex_prefix (map hex_digit digits)
      ∙ read_hex_digits digits are
      ∙ ap some (value_cast ds (even_nibbles-AreDigits n) enough)
      ∙ ap (λ k. some (k % 2 ^ 48)) (value-even_nibbles n)

  -- With fewer, the whole text is kept behind a second prefix and refused.
  cast_refused :
      (value_text : Text) (v shift : ℕ)
      → big.from value_text ≡ some v
      → v / 2 ^ shift < 2 ^ 40
      → (shift_right_and_cast big value_text shift 48 >>= big.from) ≡ none
  cast_refused value_text v shift read short =
      let n = v / 2 ^ shift in
      let ds = even_nibbles n in
      let few = even_nibbles_short n short in
      let start : 2 + length ds - 12 ≡ 0 = omega arith in
      ap (λ o. o >>= big.from) (cast_text value_text v shift read)
      ∙ ap (λ k. big.from (hex_prefix (drop k (hex_prefix (map hex_digit ds))))) start
      ∙ big.from-hex_prefix (hex_prefix (map hex_digit ds))
      ∙ read_hex_prefix (map hex_digit ds)

  -- A part is drawn as the seeder contract draws it, the shifted number modulo 2 ^ 48 modulo the
  -- count, where the shifted number is 2 ^ 40 or more; where it is smaller, the draw throws.
  pub get_pseudorandom_part_lem :
      (value_text : Text) (v count shift : ℕ)
      → big.from value_text ≡ some v
      → 0 < count
      → get_pseudorandom_part big value_text count shift
        ≡ (if leb (2 ^ 40) (v / 2 ^ shift) then some (v / 2 ^ shift % 2 ^ 48 % count) else none)
  unfolding get_pseudorandom_part
  get_pseudorandom_part_lem value_text v count shift read some_parts =
      let draw : ℕ → Option ℕ = λ n. if count == 0 then none else some (n % count) in
      let cast = shift_right_and_cast big value_text shift 48 in
      let drawn : (n : ℕ) → draw n ≡ some (n % count) = λ n. ground arith in
      bind_assoc cast big.from draw ∙ elim (Bool-cases (leb (2 ^ 40) (v / 2 ^ shift))) [
        | inl e ↦
            rw (e, cast_read value_text v shift read (leb→le (2 ^ 40) (v / 2 ^ shift) e), ◌>>=◌)
              (drawn (v / 2 ^ shift % 2 ^ 48))
        | inr e ↦ rw (e, cast_refused value_text v shift read (ground arith), ◌>>=◌) refl
      ]
