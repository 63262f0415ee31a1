-- ===== src/Webapp/Order.antt =====
-- utils/compareBids.ts and utils/bidSorter.ts: the order of bids by block and transaction. `none` is the
-- error of toNumber on a number that is not safe.
pub mod Comparison
use web3_nft.Prelude.{
  ℕ, zero, suc, ◌+◌, ◌-◌, ◌*◌, ◌/◌, ◌%◌, ◌^◌, ◌≤◌, ◌<◌, String, ◌≡◌, refl, sym, ap, ◌∙◌, ◌≢◌, ◌↔◌,
  ◌⊎◌, inl, inr, Bool, true, false, not, ◌&&◌, ◌||◌, Option, none, some, List, [], ◌∷◌, ◌++◌, map,
  arith, str_eq, str_eq-eq, str_eq-ne, eq_iff, eq_refl, ltb, leb, ◌==◌, if◌then◌else◌, ltb→lt,
  lt→ltb, leb→le, ==_iff, tests, Bool-cases, Option-cases, length, length-append, take, drop,
  replicate, get_elem?, or_else, All, All-append, includes, ℤ, pos, negsuc, pos_part, neg_part,
  sub_ℕ, ◌+ℤ◌, ◌-ℤ◌, ◌≤ℤ◌, ◌<ℤ◌, ltb_ℤ, eqb_ℤ, +ℤ_parts, -ℤ_parts, eq_of_parts, parts_of_eq,
  int_laws, wrap_i32, wrap_i32_of_small, length-replicate, take-replicate, drop-replicate-append,
  take-replicate-append,
}

-- A bid of the subgraph: its block, its time and its place in the block.
pub record IBid : Type 0 where
  pub block_number : ℕ
  pub block_timestamp : ℕ
  pub tx_index : ℕ

abbrev pub max_safe : ℕ
max_safe = 9007199254740991

-- `a.sub(b).toNumber()`
unfoldable pub difference : ℕ → ℕ → Option ℤ
difference a b =
    if leb a b
    then (if leb (b - a) max_safe then some (pos a -ℤ pos b) else none)
    else (if leb (a - b) max_safe then some (pos a -ℤ pos b) else none)

abbrev pub generate_bid_score : IBid → ℕ
generate_bid_score bid = bid.block_number * 1000000 + bid.tx_index

unfoldable pub compare_bids : IBid → IBid → Option ℤ
unfolding difference
compare_bids a b = difference (generate_bid_score a) (generate_bid_score b)

abbrev pub adjusted_time : IBid → ℕ
adjusted_time bid = bid.block_timestamp * 1000000 + bid.tx_index

-- The latest first.
unfoldable pub compare_bids_chronologically : IBid → IBid → Option ℤ
unfolding difference
compare_bids_chronologically a b = difference (adjusted_time b) (adjusted_time a)
