-- ===== src/Webapp/Order/Comparison.antt =====
-- What the two comparisons say, for blocks and times that are small enough.
use web3_nft.Prelude.{
  ℕ, ◌+◌, ◌*◌, ◌≤◌, ◌<◌, ◌≡◌, ◌∙◌, Bool, ◌&&◌, ◌||◌, Option, some, arith, ltb, ◌==◌, ℤ, pos, ◌-ℤ◌,
  ltb_ℤ,
}
use web3_nft.Webapp.Order.{
  IBid, max_safe, difference, generate_bid_score, compare_bids, adjusted_time,
  compare_bids_chronologically,
}

-- The pair `(m, i)` comes before `(n, j)` in the lexicographic order.
abbrev pub comes_before : ℕ → ℕ → ℕ → ℕ → Bool
comes_before m i n j = ltb m n || (m == n && ltb i j)

-- The sign of what the comparison returns says whether it orders its arguments this way.
abbrev pub IsOrderedBy : Bool → Option ℤ → Type 0
IsOrderedBy t r = (d : ℤ) × ((r ≡ some d) × (ltb_ℤ d (pos 0) ≡ t))

negative-ltb : (a b : ℕ) → ltb_ℤ (pos a -ℤ pos b) (pos 0) ≡ ltb a b
unfolding ◌-ℤ◌
negative-ltb a b = ground arith

difference-safe : (a b : ℕ) → a ≤ max_safe → b ≤ max_safe → difference a b ≡ some (pos a -ℤ pos b)
unfolding difference
difference-safe a b h k = ground arith

lexicographic :
    (m i n j : ℕ)
    → i < 1000000
    → j < 1000000
    → ltb (m * 1000000 + i) (n * 1000000 + j) ≡ comes_before m i n j
lexicographic m i n j h k = ground arith

-- Bids compare by block and, in one block, by transaction: the result is negative where the first bid
-- comes first. Blocks are below 9,000,000,000 and transactions below 1,000,000.
pub compare_bids-IsOrderedBy :
    (a b : IBid)
    → a.block_number < 9000000000
    → b.block_number < 9000000000
    → a.tx_index < 1000000
    → b.tx_index < 1000000
    → IsOrderedBy
        (comes_before a.block_number a.tx_index b.block_number b.tx_index)
        (compare_bids a b)
unfolding compare_bids
compare_bids-IsOrderedBy a b ha hb ia ib = (
  pos (generate_bid_score a) -ℤ pos (generate_bid_score b),
  (
    difference-safe (generate_bid_score a) (generate_bid_score b) (omega arith) (omega arith),
    negative-ltb (generate_bid_score a) (generate_bid_score b)
        ∙ lexicographic a.block_number a.tx_index b.block_number b.tx_index ia ib,
  ),
)

-- In a list the later bid stands first: the result is negative where the second bid comes first, by
-- time and then by transaction, for times below 9,000,000,000 and transactions below 1,000,000.
pub compare_bids_chronologically-IsOrderedBy :
    (a b : IBid)
    → a.block_timestamp < 9000000000
    → b.block_timestamp < 9000000000
    → a.tx_index < 1000000
    → b.tx_index < 1000000
    → IsOrderedBy
        (comes_before b.block_timestamp b.tx_index a.block_timestamp a.tx_index)
        (compare_bids_chronologically a b)
unfolding compare_bids_chronologically
compare_bids_chronologically-IsOrderedBy a b ha hb ia ib = (
  pos (adjusted_time b) -ℤ pos (adjusted_time a),
  (
    difference-safe (adjusted_time b) (adjusted_time a) (omega arith) (omega arith),
    negative-ltb (adjusted_time b) (adjusted_time a)
        ∙ lexicographic b.block_timestamp b.tx_index a.block_timestamp a.tx_index ib ia,
  ),
)
