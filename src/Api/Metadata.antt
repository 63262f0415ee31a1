-- ===== src/Api/Metadata.antt =====
-- utils.ts and api.ts: the metadata of a token, from the cache or else from the token contract, with
-- the image stored anew. The contract, the decoding of its answer, the conversion and the storage
-- are services; the texts of the cache are written and read by JSON.
pub mod Caching
use web3_nft.Prelude.{String, ◌≡◌, Bool, false, not, Option, none, some, str_eq, if◌then◌else◌}
use Prim.Native.String
use web3_nft.Table.{Table, lookup, insert}

pub record TokenMetadata : Type 0 where
  pub name : String
  pub description : String
  pub image : String

-- Reading back what was written gives the value, and no value is written as the empty text.
pub record Json : Type 0 where
  pub stringify : TokenMetadata → String
  pub parse : String → Option TokenMetadata
  pub parse-stringify : (m : TokenMetadata) → parse (stringify m) ≡ some m
  pub stringify_text : (m : TokenMetadata) → str_eq (stringify m) "" ≡ false

-- The services of one request; `none` is an error thrown.
pub record Services : Type 0 where
  pub data_uri : String → Option String
  pub decode : String → Option TokenMetadata
  pub store_png : String → Option String

-- `missing` is undefined, `thrown` an error.
pub data Fetched : Type 0 where
  found : TokenMetadata → Fetched
  missing : Fetched
  thrown : Fetched

abbrev pub Redis : Type 0
Redis = Table String

abbrev pub get_metadata_key : String → String
get_metadata_key token_id = String.◌++◌ "metadata_" token_id

-- The stored image's link in place of the image.
abbrev pub stored : TokenMetadata → String → TokenMetadata
stored m cid = record {
  name = m.name;
  description = m.description;
  image = String.◌++◌ "ipfs://" cid;
}

unfoldable pub fetch_metadata : Json → Services → String → Redis → Fetched × Redis
fetch_metadata json services token_id redis = elim (services.data_uri token_id) [
  | none ↦ (missing, redis)
  | some uri ↦ elim (services.decode uri) [
    | none ↦ (thrown, redis)
    | some m ↦ elim (services.store_png m.image) [
      | none ↦ (thrown, redis)
      | some cid ↦ (
        found (stored m cid),
        insert (get_metadata_key token_id) (json.stringify (stored m cid)) redis,
      )
    ]
  ]
]

abbrev pub parsed : Option TokenMetadata → Fetched
parsed none = thrown
parsed (some m) = found m

-- An empty text in the cache counts as missing.
unfoldable pub get_token_metadata : Json → Services → String → Redis → Fetched × Redis
unfolding fetch_metadata
get_token_metadata json services token_id redis = elim (lookup (get_metadata_key token_id) redis) [
  | none ↦ fetch_metadata json services token_id redis
  | some text ↦
      if str_eq text ""
      then fetch_metadata json services token_id redis
      else (parsed (json.parse text), redis)
]

pub data Response : Type 0 where
  ok_metadata : TokenMetadata → Response
  bad_request : Response
  server_error : Response

-- The handler of `/metadata/:tokenId`, after the validator's verdict on the id, an integer from 0 to
-- 1000. An error that is thrown sends no answer (`none`).
unfoldable pub metadata_route :
    Json → Services → (String → Bool) → String → Redis → Option Response × Redis
unfolding get_token_metadata
metadata_route json services is_int token_id redis =
    let (fetched, redis') = get_token_metadata json services token_id redis in
    if not (is_int token_id) then (some bad_request, redis) else elim fetched [
      | found m ↦ (some (ok_metadata m), redis')
      | missing ↦ (some server_error, redis')
      | thrown ↦ (none, redis')
    ]
