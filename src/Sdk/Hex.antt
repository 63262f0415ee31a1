-- ===== src/Sdk/Hex.antt =====
-- utils.ts of the image package, and the text functions of the language that it uses. A text is the
-- list of its character codes.
pub mod Bytes
use web3_nft.Prelude.{
  ℕ, zero, suc, ◌+◌, ◌-◌, ◌*◌, ◌/◌, ◌%◌, ◌&&◌, Option, none, some, List, [], ◌∷◌, ◌++◌, ltb, leb,
  if◌then◌else◌, length, replicate,
}

abbrev pub Text : Type 0
Text = List ℕ

-- A digit from 0 to 15: "0" is 48 and "a" is 97.
unfoldable pub hex_digit : ℕ → ℕ
hex_digit d = if ltb d 10 then 48 + d else 87 + d

-- `c.toString(16)`. A number has no more digits than its value, so that the fuel is enough.
unfoldable pub hex_digits : ℕ → ℕ → Text
hex_digits zero c = hex_digit c ∷ []
hex_digits (suc fuel) c =
    let more = hex_digits fuel (c / 16) ++ hex_digit (c % 16) ∷ [] in
    if ltb c 16 then hex_digit c ∷ [] else more

unfoldable pub to_padded_hex : ℕ → ℕ → Text
unfolding hex_digits
to_padded_hex c pad = let digits = hex_digits c c in replicate (pad - length digits) 48 ++ digits

unfoldable pub rgb_to_hex : ℕ → ℕ → ℕ → Text
unfolding to_padded_hex
rgb_to_hex r g b = to_padded_hex r 2 ++ (to_padded_hex g 2 ++ to_padded_hex b 2)

-- `Buffer.from(numbers)` keeps each number modulo 256, and `toString('hex')` writes two digits each.
abbrev pub byte_of : ℕ → ℕ
byte_of n = n % 256

unfoldable pub buffer_hex : List ℕ → Text
buffer_hex [] = []
buffer_hex (n ∷ ns) = hex_digit (byte_of n / 16) ∷ hex_digit (byte_of n % 16) ∷ buffer_hex ns

unfoldable pub digit_value : ℕ → Option ℕ
digit_value c =
    if leb 48 c && leb c 57
    then some (c - 48)
    else if leb 97 c && leb c 102
    then some (c - 87)
    else if leb 65 c && leb c 70
    then some (c - 55)
    else none

-- The digits after the first, up to what is no digit.
unfoldable pub parse_from : ℕ → Text → ℕ
parse_from acc [] = acc
parse_from acc (c ∷ cs) = elim (digit_value c) [
  | none ↦ acc
  | some v ↦ parse_from (acc * 16 + v) cs
]

-- `parseInt(text, 16)` of a text with no sign, prefix or space in front; `none` is `NaN`.
unfoldable pub parse_int16 : Text → Option ℕ
unfolding parse_from
parse_int16 [] = none
parse_int16 (c ∷ cs) = elim (digit_value c) [ none ↦ none | some v ↦ some (parse_from v cs) ]
