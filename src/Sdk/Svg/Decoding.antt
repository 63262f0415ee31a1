-- ===== src/Sdk/Svg/Decoding.antt =====
-- Decoding what `encode` writes: the bounds, and the runs of the rows.
use web3_nft.Prelude.{
  ℕ, ◌/◌, ◌%◌, ◌<◌, ◌≡◌, refl, sym, ap, ◌∙◌, Option, none, some, List, [], ◌∷◌, ◌++◌, arith,
  replicate,
}
use mathlib.Core.List.{append_assoc}
use web3_nft.Sdk.Hex.{Text, hex_digit, buffer_hex, byte_of, parse_int16, parse_from, digit_value}
use web3_nft.Sdk.Hex.Bytes.{two_digits, to_padded_hex-byte, parse_int16-two_digits}
use web3_nft.Sdk.Types.{ImageBounds}
use web3_nft.Sdk.Image.{get_encoded_bounds}
use web3_nft.Sdk.Image.Crop.{expand_bytes}
use web3_nft.Sdk.Svg.{decode_rects, decode_image, DecodedImage}

-- Pairs of bytes.
unfoldable pub IsBytePairs : List ℕ → Type 0
IsBytePairs [] = Unit
IsBytePairs (n ∷ []) = ⊥
IsBytePairs (n ∷ c ∷ ns) = (n < 256) × (c < 256) × IsBytePairs ns

-- The color indices that decoded rects cover, from left to right.
unfoldable pub paint : List (Option ℕ × Option ℕ) → List ℕ
paint [] = []
paint ((some n, some c) ∷ rects) = replicate n c ++ paint rects
paint ((some n, none) ∷ rects) = paint rects
paint ((none, c) ∷ rects) = paint rects

abbrev digits_of : ℕ → Text
digits_of n = hex_digit (byte_of n / 16) ∷ hex_digit (byte_of n % 16) ∷ []

parse_int16-digits_of : (n : ℕ) → n < 256 → parse_int16 (digits_of n) ≡ some n
parse_int16-digits_of n h =
    let same : byte_of n ≡ n = omega arith in
    ap (λ m. parse_int16 (two_digits m)) same ∙ parse_int16-two_digits n h

-- The text of bytes is decoded as these bytes.
pub paint-buffer_hex :
    (ns : List ℕ) (text : Text)
    → IsBytePairs ns
    → paint (decode_rects (buffer_hex ns ++ text)) ≡ expand_bytes ns ++ paint (decode_rects text)
unfolding IsBytePairs decode_rects buffer_hex expand_bytes paint
paint-buffer_hex [] text h = refl
paint-buffer_hex (n ∷ []) text h = absurd h
paint-buffer_hex (n ∷ c ∷ ns) text (small_n, small_c, h) =
    let rest = decode_rects (buffer_hex ns ++ text) in
    ap (λ o. paint ((o, parse_int16 (digits_of c)) ∷ rest)) (parse_int16-digits_of n small_n)
    ∙ ap (λ o. paint ((some n, o) ∷ rest)) (parse_int16-digits_of c small_c)
    ∙ ap (λ l. replicate n c ++ l) (paint-buffer_hex ns text h)
    ∙ sym (append_assoc (replicate n c) (expand_bytes ns) (paint (decode_rects text)))

zero_palette : parse_int16 (48 ∷ 48 ∷ []) ≡ some 0
unfolding parse_int16 parse_from digit_value
zero_palette = refl

abbrev header_of :
    Option ℕ → Option ℕ → Option ℕ → Option ℕ → Option ℕ → List (Option ℕ × Option ℕ) → DecodedImage
header_of p t r o l rects = record {
  palette_index = p;
  bounds = record { top = t; right = r; bottom = o; left = l };
  rects = rects;
}

-- What the decoder reads back from an encoded header: the palette 0 and the four bounds.
pub decode_image-header :
    (b : ImageBounds) (text : Text)
    → b.top < 256
    → b.right < 256
    → b.bottom < 256
    → b.left < 256
    → decode_image (get_encoded_bounds b ++ text) ≡ record {
      palette_index = some 0;
      bounds = record {
        top = some b.top;
        right = some b.right;
        bottom = some b.bottom;
        left = some b.left;
      };
      rects = decode_rects text;
    }
unfolding decode_image get_encoded_bounds
decode_image-header b text t r o l =
    rw
      (
        to_padded_hex-byte b.top t,
        get_encoded_bounds,
        to_padded_hex-byte b.right r,
        to_padded_hex-byte b.bottom o,
        to_padded_hex-byte b.left l,
      )
      (let rects = decode_rects text in
        ap
          (λ n.
            header_of n (parse_int16 (two_digits b.top)) (parse_int16 (two_digits b.right))
              (parse_int16 (two_digits b.bottom)) (parse_int16 (two_digits b.left)) rects)
          zero_palette
        ∙ ap
            (λ n.
              header_of (some 0) n (parse_int16 (two_digits b.right))
                (parse_int16 (two_digits b.bottom)) (parse_int16 (two_digits b.left)) rects)
            (parse_int16-two_digits b.top t)
        ∙ ap
            (λ n.
              header_of (some 0) (some b.top) n (parse_int16 (two_digits b.bottom))
                (parse_int16 (two_digits b.left)) rects)
            (parse_int16-two_digits b.right r)
        ∙ ap
            (λ n.
              header_of (some 0) (some b.top) (some b.right) n (parse_int16 (two_digits b.left))
                rects)
            (parse_int16-two_digits b.bottom o)
        ∙ ap (λ n. header_of (some 0) (some b.top) (some b.right) (some b.bottom) n rects)
            (parse_int16-two_digits b.left l))
