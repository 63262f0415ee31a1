-- ===== src/Assets/Seeds.antt =====
-- The drawn parts against WordsSeeder.sol.
use web3_nft.Prelude.{
  ℕ, zero, suc, ◌/◌, ◌%◌, ◌^◌, ◌≤◌, ◌<◌, ◌≡◌, refl, ap, Option, none, some, List, [], ◌∷◌, arith,
  length, get_elem?, All,
}
use native.Mathlib.Nat.{mod-lt}
use web3_nft.Sdk.Hex.{Text}
use web3_nft.Assets.{
  BigNumbers, WordSeed, ImageData, get_word_data, ◌>>=◌, get_pseudorandom_part,
  get_word_seed_from_block_hash,
}
use web3_nft.Assets.Draws.{get_pseudorandom_part_lem}

-- `generateSeed` of WordsSeeder.sol, from the hash and the descriptor's counts.
pub generate_seed : ImageData → ℕ → WordSeed
generate_seed images hash = record {
  background = hash % 2 ^ 48 % length images.bgcolors;
  body = hash / 2 ^ 48 % 2 ^ 48 % length images.bodies;
  accessory = hash / 2 ^ 96 % 2 ^ 48 % length images.accessories;
  head = hash / 2 ^ 144 % 2 ^ 48 % length images.heads;
  glasses = hash / 2 ^ 192 % 2 ^ 48 % length images.glasses;
}

-- Every list of the images has an entry.
pub record IsFilled (images : ImageData) : Type 0 where
  pub bgcolors : 0 < length images.bgcolors
  pub bodies : 0 < length images.bodies
  pub accessories : 0 < length images.accessories
  pub heads : 0 < length images.heads
  pub glasses : 0 < length images.glasses

abbrev pub IsPresent : {A : Type 0} → Option A → Type 0
IsPresent o = (o ≡ none) → ⊥

get_elem?-IsPresent :
    {A : Type 0} (xs : List A) (n : ℕ) → n < length xs → IsPresent (get_elem? xs n)
get_elem?-IsPresent [] n h = absurd (omega arith)
get_elem?-IsPresent (x ∷ xs) zero h = λ e. cc
get_elem?-IsPresent (x ∷ xs) (suc n) h = get_elem?-IsPresent xs n (omega arith)

drawn-IsPresent :
    {A : Type 0} (xs : List A) (n : ℕ) → 0 < length xs → IsPresent (get_elem? xs (n % length xs))
drawn-IsPresent xs n h = get_elem?-IsPresent xs (n % length xs) (mod-lt n h)

none_after :
    (a b c d : Option ℕ) (make : ℕ → ℕ → ℕ → ℕ → ℕ → WordSeed)
    → (a >>= λ k. b >>= λ l.
        c >>= λ m. d >>= λ n. ((let o : Option ℕ = none in o) >>= λ o. some (make k l m n o)))
      ≡ none
none_after none b c d make = refl
none_after (some a) none c d make = refl
none_after (some a) (some b) none d make = refl
none_after (some a) (some b) (some c) none make = refl
none_after (some a) (some b) (some c) (some d) make = refl

module _ (big : BigNumbers) (images : ImageData) (filled : IsFilled images)
    (keccak256 : ℕ → Text → Text) (word_id hash : ℕ) (block_hash : Text)
    (read : big.from (keccak256 word_id block_hash) ≡ some hash) where
  part_lem :
      (count shift : ℕ)
      → 0 < count
      → 2 ^ 40 ≤ hash / 2 ^ shift
      → get_pseudorandom_part big (keccak256 word_id block_hash) count shift
        ≡ some (hash / 2 ^ shift % 2 ^ 48 % count)
  part_lem count shift some_parts long =
      let part =
        get_pseudorandom_part_lem big (keccak256 word_id block_hash) hash count shift read
          some_parts in
      ground (arith, part)

  -- Where the hash's topmost 64 bits are 2 ^ 40 or more, the seed is the one that the seeder contract
  -- draws from the same hash, and each of its parts and its background are in the data.
  pub seed_from_hash :
      2 ^ 40 ≤ hash / 2 ^ 192
      → (get_word_seed_from_block_hash big images keccak256 word_id block_hash
          ≡ some (generate_seed images hash))
        × All IsPresent (get_word_data images (generate_seed images hash)).parts
        × IsPresent (get_word_data images (generate_seed images hash)).background
  unfolding get_word_seed_from_block_hash generate_seed get_word_data
  seed_from_hash long =
      let first : hash / 2 ^ 0 ≡ hash = omega arith in
      (
        rw
            (
              part_lem (length images.bgcolors) 0 filled.bgcolors (omega arith),
              part_lem (length images.bodies) 48 filled.bodies (omega arith),
              part_lem (length images.accessories) 96 filled.accessories (omega arith),
              part_lem (length images.heads) 144 filled.heads (omega arith),
              part_lem (length images.glasses) 192 filled.glasses long,
            )
            (ap
              (λ n. some (record (generate_seed images hash) {
                background = n % 2 ^ 48 % length images.bgcolors;
              }))
              first),
        (
          drawn-IsPresent images.bodies _ filled.bodies,
          (
            drawn-IsPresent images.accessories _ filled.accessories,
            (
              drawn-IsPresent images.heads _ filled.heads,
              (drawn-IsPresent images.glasses _ filled.glasses, tt),
            ),
          ),
        ),
        drawn-IsPresent images.bgcolors _ filled.bgcolors,
      )

  -- Where the hash's topmost 64 bits are below 2 ^ 40, there is no seed: the draw of the glasses throws.
  pub seed_refused :
      hash / 2 ^ 192 < 2 ^ 40
      → get_word_seed_from_block_hash big images keccak256 word_id block_hash ≡ none
  unfolding get_word_seed_from_block_hash
  seed_refused short =
      let part = λ (count shift : ℕ) (p : 0 < count).
        get_pseudorandom_part_lem big (keccak256 word_id block_hash) hash count shift read p in
      let part_of = get_pseudorandom_part big (keccak256 word_id block_hash) in
      let refused : get_pseudorandom_part big (keccak256 word_id block_hash) (length images.glasses)
            192
          ≡ none =
        ground (arith, part (length images.glasses) 192 filled.glasses) in
      rw refused (
        none_after (part_of (length images.bgcolors) 0) (part_of (length images.bodies) 48)
          (part_of (length images.accessories) 96) (part_of (length images.heads) 144)
          (λ k l m n o. record { background = k; body = l; accessory = m; head = n; glasses = o }))
