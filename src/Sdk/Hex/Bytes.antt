-- ===== src/Sdk/Hex/Bytes.antt =====
-- Two digits of a byte and back.
use web3_nft.Prelude.{
  ℕ, zero, suc, ◌/◌, ◌%◌, ◌<◌, ◌≡◌, refl, ap, inl, inr, some, [], ◌∷◌, arith, ltb, ltb→lt,
  Bool-cases,
}
use web3_nft.Sdk.Hex.{
  Text, hex_digit, hex_digits, to_padded_hex, digit_value, parse_int16, parse_from,
}

pub digit_value-hex_digit : (d : ℕ) → d < 16 → digit_value (hex_digit d) ≡ some d
unfolding digit_value hex_digit
digit_value-hex_digit d h = ground arith

abbrev pub two_digits : ℕ → Text
two_digits n = hex_digit (n / 16) ∷ hex_digit (n % 16) ∷ []

pub hex_digits-one : (fuel c : ℕ) → c < 16 → hex_digits fuel c ≡ hex_digit c ∷ []
unfolding hex_digits
hex_digits-one zero c h = refl
hex_digits-one (suc fuel) c h = ground arith

-- A byte is padded to its two digits.
pub to_padded_hex-byte : (c : ℕ) → c < 256 → to_padded_hex c 2 ≡ two_digits c
unfolding to_padded_hex hex_digits hex_digit
to_padded_hex-byte zero h = refl
to_padded_hex-byte (suc c) h = elim (Bool-cases (ltb (suc c) 16)) [
  | inl e ↦
      let high : suc c / 16 ≡ 0 = omega (arith, ltb→lt (suc c) 16 e) in
      let low : suc c % 16 ≡ suc c = omega (arith, ltb→lt (suc c) 16 e) in rw (e, high, low) refl
  | inr e ↦ rw (e, hex_digits-one c (suc c / 16) (omega arith)) refl
]

pub parse_int16-two_digits : (n : ℕ) → n < 256 → parse_int16 (two_digits n) ≡ some n
unfolding parse_int16 parse_from
parse_int16-two_digits n h =
    let high = digit_value-hex_digit (n / 16) (omega arith) in
    let low = digit_value-hex_digit (n % 16) (omega arith) in
    rw (high, parse_int16, low, parse_from) (ap some (omega arith))
