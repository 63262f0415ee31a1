-- ===== src/Assets/Examples.antt =====
-- The theorems about seeds, applied to a package of big numbers that writes and reads hex texts.
use web3_nft.Prelude.{
  ℕ, ◌^◌, ◌≡◌, refl, ◌&&◌, Option, none, some, [], ◌∷◌, ◌++◌, arith, ◌==◌, if◌then◌else◌, replicate,
  All,
}
use web3_nft.Sdk.Hex.{Text, hex_digits, digit_value}
use web3_nft.Assets.{
  hex_prefix, read_hex, even_digits, BigNumbers, ImageData, get_word_data, EncodedImage,
  get_word_seed_from_block_hash,
}
use web3_nft.Assets.Seeds.{generate_seed, IsFilled, IsPresent, seed_from_hash, seed_refused}

abbrev from_text : Text → Option ℕ
from_text [] = none
from_text (c ∷ []) = none
from_text (c ∷ d ∷ digits) = if c == 48 && d == 120 then read_hex digits else none

abbrev big : BigNumbers
big = record {
  to_hex_string = λ n. hex_prefix (even_digits (hex_digits n n));
  from = from_text;
  to_hex_string_lem = λ n. refl;
  from-hex_prefix = λ digits. refl;
}

abbrev image : EncodedImage
image = record { filename = "body-a"; data_text = "0x00" }

abbrev images : ImageData
images = record {
  bgcolors = "d5d7e1" ∷ "e1d7d5" ∷ [];
  bodies = image ∷ image ∷ image ∷ [];
  accessories = image ∷ [];
  heads = image ∷ image ∷ [];
  glasses = image ∷ [];
}

abbrev images_filled : IsFilled images
images_filled = record {
  bgcolors = omega arith;
  bodies = omega arith;
  accessories = omega arith;
  heads = omega arith;
  glasses = omega arith;
}

-- A hash of 64 digits: the first one, and zeros.
abbrev high_hash : ℕ → Text → Text
high_hash word_id block_hash = hex_prefix (56 ∷ replicate 63 48)

abbrev low_hash : ℕ → Text → Text
low_hash word_id block_hash = hex_prefix (replicate 8 48 ++ 56 ∷ replicate 55 48)

high_hash_read : big.from (high_hash 1 []) ≡ some (2 ^ 255)
unfolding read_hex digit_value
high_hash_read = refl

low_hash_read : big.from (low_hash 1 []) ≡ some (2 ^ 223)
unfolding read_hex digit_value
low_hash_read = refl

seed_from_hash_example :
    (get_word_seed_from_block_hash big images high_hash 1 []
      ≡ some (generate_seed images (2 ^ 255)))
    × All IsPresent (get_word_data images (generate_seed images (2 ^ 255))).parts
    × IsPresent (get_word_data images (generate_seed images (2 ^ 255))).background
seed_from_hash_example =
    seed_from_hash big images images_filled high_hash 1 (2 ^ 255) [] high_hash_read (omega arith)

seed_refused_example : get_word_seed_from_block_hash big images low_hash 1 [] ≡ none
seed_refused_example =
    seed_refused big images images_filled low_hash 1 (2 ^ 223) [] low_hash_read (omega arith)
