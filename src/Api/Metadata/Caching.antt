-- ===== src/Api/Metadata/Caching.antt =====
-- What the cache answers.
use web3_nft.Prelude.{
  String, ◌≡◌, refl, sym, ap, ◌∙◌, ◌⊎◌, inl, inr, Bool, true, false, Option, none, some, str_eq,
  Bool-cases, Option-cases,
}
use web3_nft.Table.{lookup, lookup-insert_self}
use web3_nft.Api.Metadata.{
  TokenMetadata, Json, Services, Fetched, found, missing, thrown, Redis, get_metadata_key, stored,
  fetch_metadata, parsed, get_token_metadata, Response, ok_metadata, bad_request, server_error,
  metadata_route,
}

abbrev metadata_in : Fetched → TokenMetadata → TokenMetadata
metadata_in (found x) other = x
metadata_in missing other = other
metadata_in thrown other = other

-- The answer that is sent for what was fetched.
abbrev answer_of : Fetched × Redis → Option Response × Redis
answer_of p = elim p.0 [
  | found m ↦ (some (ok_metadata m), p.1)
  | missing ↦ (some server_error, p.1)
  | thrown ↦ (none, p.1)
]

abbrev fetched_of : Option Response → TokenMetadata → Fetched
fetched_of (some (ok_metadata x)) other = found x
fetched_of _ other = found other

answer_found :
    (p : Fetched × Redis) (m : TokenMetadata)
    → (answer_of p).0 ≡ some (ok_metadata m)
    → (p.0 ≡ found m) × ((answer_of p).1 ≡ p.1)
answer_found (found x, r) m e = (ap (λ o. fetched_of o m) e, refl)
answer_found (missing, r) m e = cc e
answer_found (thrown, r) m e = cc e

module _ (json : Json) (services : Services) (is_int : String → Bool) (token_id : String)
    (redis : Redis) where
  route_valid :
      is_int token_id ≡ true
      → metadata_route json services is_int token_id redis
        ≡ answer_of (get_token_metadata json services token_id redis)
  unfolding metadata_route
  route_valid e = rw e refl

  route_refused :
      is_int token_id ≡ false
      → metadata_route json services is_int token_id redis ≡ (some bad_request, redis)
  unfolding metadata_route
  route_refused e = rw e refl

module _ (json : Json) (token_id : String) where
  -- The token's metadata are in the cache.
  abbrev pub Holds : Redis → TokenMetadata → Type 0
  Holds redis m = lookup (get_metadata_key token_id) redis ≡ some (json.stringify m)

  Holds-served :
      (services : Services) (redis : Redis) (m : TokenMetadata)
      → Holds redis m
      → get_token_metadata json services token_id redis ≡ (found m, redis)
  unfolding get_token_metadata
  Holds-served services redis m h =
      rw (h, get_token_metadata, json.stringify_text m)
        (ap (λ o. (parsed o, redis)) (json.parse-stringify m))

  fetched_held :
      (services : Services) (redis : Redis) (m : TokenMetadata)
      → (fetch_metadata json services token_id redis).0 ≡ found m
      → Holds (fetch_metadata json services token_id redis).1 m
  unfolding fetch_metadata
  fetched_held services redis m e = elim (Option-cases (services.data_uri token_id)) [
    | inl no_uri ↦ cc (rw (no_uri, fetch_metadata) at e)
    | inr (uri, at_uri) ↦ elim (Option-cases (services.decode uri)) [
      | inl no_data ↦ cc (rw (at_uri, fetch_metadata, no_data) at e)
      | inr (d, at_data) ↦ elim (Option-cases (services.store_png d.image)) [
        | inl no_cid ↦ cc (rw (at_uri, fetch_metadata, at_data, no_cid) at e)
        | inr (cid, at_cid) ↦
            let same : stored d cid ≡ m =
              ap (λ f. metadata_in f m) (rw (at_uri, fetch_metadata, at_data, at_cid) at e) in
            rw (at_uri, fetch_metadata, at_data, at_cid)
              (lookup-insert_self (get_metadata_key token_id) (json.stringify (stored d cid)) redis
                ∙ ap (λ x. some (json.stringify x)) same)
      ]
    ]
  ]

  served_again :
      (services later : Services) (redis : Redis) (m : TokenMetadata)
      → (get_token_metadata json services token_id redis).0 ≡ found m
      → get_token_metadata json later token_id (get_token_metadata json services token_id redis).1
        ≡ (found m, (get_token_metadata json services token_id redis).1)
  unfolding get_token_metadata
  served_again services later redis m e =
      elim (Option-cases (lookup (get_metadata_key token_id) redis)) [
        | inl empty ↦
            let whole : get_token_metadata json services token_id redis
                ≡ fetch_metadata json services token_id redis =
              rw (empty, get_token_metadata) refl in
            rw whole (
              Holds-served later _ m
                (fetched_held services redis m (ap (λ p. p.0) (sym whole) ∙ e)))
        | inr (text, cached) ↦ elim (Bool-cases (str_eq text "")) [
          | inl blank ↦
              let whole : get_token_metadata json services token_id redis
                  ≡ fetch_metadata json services token_id redis =
                rw (cached, get_token_metadata, blank) refl in
              rw whole (
                Holds-served later _ m
                  (fetched_held services redis m (ap (λ p. p.0) (sym whole) ∙ e)))
          | inr full ↦
              let first : get_token_metadata json services token_id redis
                  ≡ (parsed (json.parse text), redis) =
                rw (cached, get_token_metadata, full) refl in
              let second : get_token_metadata json later token_id redis
                  ≡ (parsed (json.parse text), redis) =
                rw (cached, get_token_metadata, full) refl in
              let value : parsed (json.parse text) ≡ found m = ap (λ p. p.0) (sym first) ∙ e in
              rw first (second ∙ ap (λ f. (f, redis)) value)
        ]
      ]

-- Once a request was answered with metadata, any later one for the token gets the same answer from the
-- cache and leaves it as it is, whatever the services do then.
pub metadata_route_again :
    (json : Json) (services later : Services) (is_int : String → Bool) (token_id : String)
    (redis : Redis) (m : TokenMetadata)
    → (metadata_route json services is_int token_id redis).0 ≡ some (ok_metadata m)
    → metadata_route json later is_int token_id
        (metadata_route json services is_int token_id redis).1
      ≡ (some (ok_metadata m), (metadata_route json services is_int token_id redis).1)
metadata_route_again json services later is_int token_id redis m answered =
    elim (Bool-cases (is_int token_id)) [
      | inr refused ↦ cc (
          ap (λ p. p.0) (sym (route_refused json services is_int token_id redis refused))
          ∙ answered)
      | inl valid ↦
          let first = route_valid json services is_int token_id redis valid in
          let (value, cache) =
            answer_found (get_token_metadata json services token_id redis) m
              (ap (λ p. p.0) (sym first) ∙ answered) in
          let kept : (metadata_route json services is_int token_id redis).1
              ≡ (get_token_metadata json services token_id redis).1 =
            ap (λ p. p.1) first ∙ cache in
          rw kept (
            route_valid json later is_int token_id _ valid
            ∙ ap answer_of (served_again json token_id services later redis m value))
    ]

fetch_kept :
    (json : Json) (services : Services) (token_id : String) (redis : Redis)
    → ((m : TokenMetadata) × ((fetch_metadata json services token_id redis).0 ≡ found m))
      ⊎ ((fetch_metadata json services token_id redis).1 ≡ redis)
unfolding fetch_metadata
fetch_kept json services token_id redis = elim (Option-cases (services.data_uri token_id)) [
  | inl no_uri ↦ rw (no_uri, fetch_metadata) (inr refl)
  | inr (uri, at_uri) ↦ elim (Option-cases (services.decode uri)) [
    | inl no_data ↦ rw (at_uri, fetch_metadata, no_data) (inr refl)
    | inr (d, at_data) ↦ elim (Option-cases (services.store_png d.image)) [
      | inl no_cid ↦ rw (at_uri, fetch_metadata, at_data, no_cid) (inr refl)
      | inr (cid, at_cid) ↦ rw (at_uri, fetch_metadata, at_data, at_cid) (inl (stored d cid, refl))
    ]
  ]
]

failed_kept :
    (json : Json) (services : Services) (token_id : String) (redis : Redis)
    → ((m : TokenMetadata) × ((get_token_metadata json services token_id redis).0 ≡ found m))
      ⊎ ((get_token_metadata json services token_id redis).1 ≡ redis)
unfolding get_token_metadata
failed_kept json services token_id redis =
    elim (Option-cases (lookup (get_metadata_key token_id) redis)) [
      | inl empty ↦ rw (empty, get_token_metadata) (fetch_kept json services token_id redis)
      | inr (text, cached) ↦ elim (Bool-cases (str_eq text "")) [
        | inl blank ↦
            rw (cached, get_token_metadata, blank) (fetch_kept json services token_id redis)
        | inr full ↦ rw (cached, get_token_metadata, full) (inr refl)
      ]
    ]

answered_or_kept :
    (p : Fetched × Redis) (redis : Redis)
    → ((m : TokenMetadata) × (p.0 ≡ found m)) ⊎ (p.1 ≡ redis)
    → ((m : TokenMetadata) × ((answer_of p).0 ≡ some (ok_metadata m))) ⊎ ((answer_of p).1 ≡ redis)
answered_or_kept (f, r) redis (inl (m, e)) = inl (m, ap (λ (g : Fetched). (answer_of (g, r)).0) e)
answered_or_kept (found m, r) redis (inr e) = inl (m, refl)
answered_or_kept (missing, r) redis (inr e) = inr e
answered_or_kept (thrown, r) redis (inr e) = inr e

-- A request is answered with metadata or it leaves the cache as it is: an id that is no integer from 0 to
-- 1000, a contract that fails, and an error thrown by a service or by the text in the cache write nothing.
pub metadata_route_failed :
    (json : Json) (services : Services) (is_int : String → Bool) (token_id : String) (redis : Redis)
    → ((m : TokenMetadata) × ((metadata_route json services is_int token_id redis).0
          ≡ some (ok_metadata m)))
      ⊎ ((metadata_route json services is_int token_id redis).1 ≡ redis)
metadata_route_failed json services is_int token_id redis = elim (Bool-cases (is_int token_id)) [
  | inr refused ↦ inr (ap (λ p. p.1) (route_refused json services is_int token_id redis refused))
  | inl valid ↦ rw (route_valid json services is_int token_id redis valid) (
      answered_or_kept (get_token_metadata json services token_id redis) redis
        (failed_kept json services token_id redis))
]
