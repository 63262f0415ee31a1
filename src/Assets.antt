-- ===== src/Assets.antt =====
-- packages/words-assets/src/utils.ts: the seed of a word from a block hash, as WordsSeeder.sol draws it,
-- and the parts and background that a seed names. A text is a list of character codes; a big number
-- is its value, and the package of big numbers reads and writes hex texts as its documents say.
pub mod Nibbles
mod Draws
pub mod Seeds
mod Examples
use web3_nft.Prelude.{
  ℕ, ◌+◌, ◌-◌, ◌*◌, ◌/◌, ◌%◌, ◌^◌, String, ◌≡◌, Option, none, some, List, [], ◌∷◌, ◌==◌,
  if◌then◌else◌, length, drop, get_elem?,
}
use web3_nft.Sdk.Hex.{Text, hex_digits, digit_value}

-- `shifted` and texts of its kind start by "0x".
abbrev pub hex_prefix : Text → Text
hex_prefix digits = 48 ∷ 120 ∷ digits

unfoldable pub read_from : ℕ → Text → Option ℕ
read_from acc [] = some acc
read_from acc (c ∷ cs) = elim (digit_value c) [ none ↦ none | some v ↦ read_from (acc * 16 + v) cs ]

-- All of the text as a number in base 16; `none` where a character is no digit.
unfoldable pub read_hex : Text → Option ℕ
unfolding read_from
read_hex cs = read_from 0 cs

-- A whole number of bytes: an odd number of digits gets a "0" in front.
unfoldable pub even_digits : Text → Text
even_digits digits = if length digits % 2 == 1 then 48 ∷ digits else digits

-- The package of big numbers: `toHexString` writes an even number of digits, `from` reads them and
-- throws at a character that is no digit.
pub record BigNumbers : Type 0 where
  pub to_hex_string : ℕ → Text
  pub from : Text → Option ℕ
  pub to_hex_string_lem : (n : ℕ) → to_hex_string n ≡ hex_prefix (even_digits (hex_digits n n))
  pub from-hex_prefix : (digits : Text) → from (hex_prefix digits) ≡ read_hex digits

infixl 5 ◌>>=◌
abbrev pub ◌>>=◌ {ℓ κ} : {A : Type ℓ} {B : Type κ} → Option A → (A → Option B) → Option B
none >>= f = none
some a >>= f = f a

pub record WordSeed : Type 0 where
  pub background : ℕ
  pub body : ℕ
  pub accessory : ℕ
  pub head : ℕ
  pub glasses : ℕ

pub record EncodedImage : Type 0 where
  pub filename : String
  pub data_text : String

-- image-data.json
pub record ImageData : Type 0 where
  pub bgcolors : List String
  pub bodies : List EncodedImage
  pub accessories : List EncodedImage
  pub heads : List EncodedImage
  pub glasses : List EncodedImage

-- An index past the end reads `undefined`.
pub record WordData : Type 0 where
  pub parts : List (Option EncodedImage)
  pub background : Option String

unfoldable pub get_word_data : ImageData → WordSeed → WordData
get_word_data images seed = record {
  parts =
      get_elem? images.bodies seed.body
      ∷ get_elem? images.accessories seed.accessory
      ∷ get_elem? images.heads seed.head
      ∷ get_elem? images.glasses seed.glasses
      ∷ [];
  background = get_elem? images.bgcolors seed.background;
}

module _ (big : BigNumbers) where
  -- `substring` starts at 0 where its start is negative, and drops a fraction.
  unfoldable pub shift_right_and_cast : Text → ℕ → ℕ → Option Text
  shift_right_and_cast value shift_amount uint_size = do
    n ← big.from value
    let shifted = big.to_hex_string (n / 2 ^ shift_amount)
    some (hex_prefix (drop (length shifted - (uint_size + 3) / 4) shifted))

  -- `mod` throws at a count of 0; the remainder of a count below 2 ^ 53 is a safe number.
  unfoldable pub get_pseudorandom_part : Text → ℕ → ℕ → Option ℕ
  unfolding shift_right_and_cast
  get_pseudorandom_part pseudorandomness part_count shift_amount = do
    hex ← shift_right_and_cast pseudorandomness shift_amount 48
    n ← big.from hex
    if part_count == 0 then none else some (n % part_count)

  -- The hash of the block's hash and the word's id is an argument.
  unfoldable pub get_word_seed_from_block_hash :
      ImageData → (ℕ → Text → Text) → ℕ → Text → Option WordSeed
  unfolding get_pseudorandom_part
  get_word_seed_from_block_hash images keccak256 word_id block_hash = do
    let pseudorandomness = keccak256 word_id block_hash
    background ← get_pseudorandom_part pseudorandomness (length images.bgcolors) 0
    body ← get_pseudorandom_part pseudorandomness (length images.bodies) 48
    accessory ← get_pseudorandom_part pseudorandomness (length images.accessories) 96
    head ← get_pseudorandom_part pseudorandomness (length images.heads) 144
    glasses ← get_pseudorandom_part pseudorandomness (length images.glasses) 192
    some (record {
      background = background;
      body = body;
      accessory = accessory;
      head = head;
      glasses = glasses;
    })
