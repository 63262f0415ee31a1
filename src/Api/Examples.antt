-- ===== src/Api/Examples.antt =====
-- The theorems about the API, applied to one token and a few sockets.
use web3_nft.Prelude.{
  String, ◌≡◌, refl, sym, ap, ◌∙◌, Bool, true, false, Option, none, some, [], str_eq, str_eq-ne,
  ◌==◌, if◌then◌else◌,
}
use Prim.Native.Char.{code}
use web3_nft.Table.{lookup}
use web3_nft.Api.Metadata.{TokenMetadata, Json, Services, ok_metadata, metadata_route}
use web3_nft.Api.Metadata.Caching.{metadata_route_again}

abbrev token : TokenMetadata
token = record { name = "Word 7"; description = "Word 7 is a member"; image = "ipfs://bafy" }

-- A text with a mark before each of its characters and another one at its end, before the rest.
abbrev encode : String → String → String
encode String.[] rest = String.◌∷◌ "0" rest
encode (String.◌∷◌ c s) rest = String.◌∷◌ "1" (String.◌∷◌ c (encode s rest))

abbrev decode : String → String × String
decode String.[] = ("", "")
decode (String.◌∷◌ b String.[]) = ("", "")
decode (String.◌∷◌ b (String.◌∷◌ c s)) =
    let more = decode s in
    if code b == 49 then (String.◌∷◌ c more.0, more.1) else ("", String.◌∷◌ c s)

decode-encode : (s rest : String) → decode (encode s rest) ≡ (s, rest)
decode-encode String.[] String.[] = refl
decode-encode String.[] (String.◌∷◌ c rest) = refl
decode-encode (String.◌∷◌ c s) rest =
    ap (λ (p : String × String). (String.◌∷◌ c p.0, p.1)) (decode-encode s rest)

abbrev parse : String → Option TokenMetadata
parse s =
    let (name, s₁) = decode s in
    let (description, s₂) = decode s₁ in
    let (image, s₃) = decode s₂ in
    some (record { name = name; description = description; image = image })

abbrev stringify : TokenMetadata → String
stringify m = encode m.name (encode m.description (encode m.image ""))

parse-stringify : (m : TokenMetadata) → parse (stringify m) ≡ some m
parse-stringify m =
    rw
      (
        decode-encode m.name (encode m.description (encode m.image "")),
        decode-encode m.description (encode m.image ""),
        decode-encode m.image "",
      )
      refl

abbrev blank : String → Bool
blank String.[] = true
blank (String.◌∷◌ c s) = false

encode_starts : (s rest : String) → blank (encode s rest) ≡ false
encode_starts String.[] rest = refl
encode_starts (String.◌∷◌ c s) rest = refl

encode_text : (s rest : String) → str_eq (encode s rest) "" ≡ false
encode_text s rest =
    str_eq-ne (encode s rest) "" (λ e. cc (sym (encode_starts s rest) ∙ ap blank e))

abbrev json : Json
json = record {
  stringify = stringify;
  parse = parse;
  parse-stringify = parse-stringify;
  stringify_text = λ m. encode_text m.name (encode m.description (encode m.image ""));
}

abbrev services : Services
services = record {
  data_uri = λ id. some "data:application/json;base64,e30=";
  decode = λ uri. some token;
  store_png = λ image. some "bafy";
}

abbrev down : Services
down = record { data_uri = λ id. none; decode = λ uri. none; store_png = λ image. none }

metadata_route_again_example :
    metadata_route json down (λ id. true) "7" (metadata_route json services (λ id. true) "7" []).1
    ≡ (
      some (ok_metadata (record token { image = "ipfs://bafy" })),
      (metadata_route json services (λ id. true) "7" []).1,
    )
unfolding metadata_route lookup
metadata_route_again_example =
    metadata_route_again json services down (λ id. true) "7" []
      (record token { image = "ipfs://bafy" }) refl
