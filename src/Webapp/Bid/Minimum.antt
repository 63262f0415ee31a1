-- ===== src/Webapp/Bid/Minimum.antt =====
-- The least bid and what is sent.
use web3_nft.Prelude.{
  ℕ, ◌+◌, ◌*◌, ◌/◌, ◌≤◌, String, ◌≡◌, sym, ap, ◌∙◌, inl, inr, false, Option, some, arith, str_eq,
  ltb, Bool-cases, Option-cases, or_else,
}
use mathlib.Core.Path.{subst}
use web3_nft.Webapp.Auction.{IAuction}
use web3_nft.Webapp.Bid.{
  Numbers, compute_minimum_next_bid, min_bid_eth, BidOutcome, nothing, sent, place_bid_handler,
}

abbrev word_in : BidOutcome → ℕ
word_in (sent word value limit) = word
word_in _ = 0

abbrev value_in : BidOutcome → ℕ
value_in (sent word value limit) = value
value_in _ = 0

abbrev limit_in : BidOutcome → ℕ
limit_in (sent word value limit) = limit
limit_in _ = 0

enough : (a p v : ℕ) → ltb (v * 100) (a * (p + 100)) ≡ false → a + a * p / 100 ≤ v
enough a p v h =
    let least : a * (p + 100) ≤ v * 100 = ground arith in
    let parts : a * (p + 100) ≡ a * p + a * 100 = grind arith in omega arith

fields_of :
    (word value gas word' value' limit : ℕ)
    → some (sent word value (gas + 10000)) ≡ some (sent word' value' limit)
    → (word' ≡ word) × (value' ≡ value) × (limit ≡ gas + 10000)
fields_of word value gas word' value' limit out =
    let same_limit : gas + 10000 ≡ limit = ap (λ o. limit_in (or_else o nothing)) out in
    (
      sym (ap (λ o. word_in (or_else o nothing)) out),
      sym (ap (λ o. value_in (or_else o nothing)) out),
      sym same_limit,
    )

-- Once the auction house's percentage is known, a bid that is sent is of the auction's word and of the
-- amount in the input, with 10000 more than the estimate as the limit of gas, and it meets the auction
-- house's rule: no less than the amount and its percentage, rounded down.
pub place_bid_handler-sent :
    (numbers : Numbers) (estimate_gas : ℕ → ℕ → Option ℕ) (auction : IAuction) (percentage : ℕ)
    (input : String) (word value limit : ℕ)
    → place_bid_handler numbers estimate_gas (some auction) (some percentage) (some input)
      ≡ some (sent word value limit)
    → (gas : ℕ) × (word ≡ auction.word_id)
      × (numbers.parse_ether input ≡ some value)
      × (estimate_gas word value ≡ some gas)
      × (limit ≡ gas + 10000)
      × (auction.amount + auction.amount * percentage / 100 ≤ value)
unfolding place_bid_handler compute_minimum_next_bid
place_bid_handler-sent numbers estimate_gas auction percentage input word value limit e =
    let least = auction.amount * (percentage + 100) in
    elim (Bool-cases (str_eq input "")) [
      | inl empty ↦ cc (rw empty at e)
      | inr full ↦ elim (Option-cases (numbers.parse_ether input)) [
        | inl unread ↦ cc (rw (full, unread) at e)
        | inr (v, read) ↦ elim (Bool-cases (ltb (v * 100) least)) [
          | inl low ↦ elim (Option-cases (min_bid_eth numbers least)) [
            | inl thrown ↦ cc (rw (full, read, low, thrown) at e)
            | inr (cents, told) ↦ cc (rw (full, read, low, told) at e)
          ]
          | inr high ↦ elim (Option-cases (estimate_gas auction.word_id v)) [
            | inl thrown ↦ cc (rw (full, read, high, thrown) at e)
            | inr (gas, estimated) ↦
                let (w, x, g) =
                  fields_of auction.word_id v gas word value limit
                    (rw (full, read, high, estimated) at e) in
                (
                  gas,
                  w,
                  read ∙ ap some (sym x),
                  ap (λ u. estimate_gas u value) w
                      ∙ ap (estimate_gas auction.word_id) x
                      ∙ estimated,
                  g,
                  subst (λ u. auction.amount + auction.amount * percentage / 100 ≤ u) (sym x)
                      (enough auction.amount percentage v high),
                )
          ]
        ]
      ]
    ]
