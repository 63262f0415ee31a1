-- ===== src/Webapp/Bid/Examples.antt =====
-- The theorems about bids, applied to an auction and its least next bid.
use web3_nft.Prelude.{
  ℕ, ◌+◌, ◌*◌, ◌/◌, ◌%◌, ◌≤◌, ◌≡◌, refl, ap, inl, inr, false, Option, none, some, List, [], ◌∷◌,
  arith, ◌==◌, if◌then◌else◌, ==_iff, Bool-cases, or_else,
}
use web3_nft.Webapp.Auction.{IAuction}
use web3_nft.Webapp.Dao.Transactions.{mining, success, TransactionStatus}
use web3_nft.Webapp.Bid.{Numbers, place_bid_handler, BidButton, placing_effects, settling_effects}
use web3_nft.Webapp.Bid.Minimum.{place_bid_handler-sent}
use web3_nft.Webapp.Bid.Button.{spins_placing, spins_settling, effects-loading}

whole_lem : (h n : ℕ) → (if h % 100 == 0 then some (h / 100) else none) ≡ some n → n * 100 ≡ h
whole_lem h n e = elim (Bool-cases (h % 100 == 0)) [
  | inl t ↦
      let exact : h % 100 ≡ 0 = (==_iff (h % 100) 0).0 t in
      let value : h / 100 ≡ n = ap (λ (o : Option ℕ). or_else o 0) (rw t at e) in omega arith
  | inr t ↦ cc (rw t at e)
]

-- One text is read as a bid of 2 ETH.
abbrev numbers : Numbers
numbers = record {
  from_hundredths = λ h. if h % 100 == 0 then some (h / 100) else none;
  parse_ether = λ text. some 2000000000000000000;
  rounded_eth = λ wei. wei / 10000000000000000 + 1;
  from_hundredths_lem = whole_lem;
}

abbrev auction : IAuction
auction = record {
  amount = 1000000000000000000;
  bidder = "0xaa";
  start_time = 100;
  end_time = 200;
  word_id = 7;
  settled = false;
}

abbrev estimate : ℕ → ℕ → Option ℕ
estimate word value = some 90000

place_bid_handler-sent_example :
    (gas : ℕ) × (◌≡◌ {A = ℕ} 7 7)
    × (numbers.parse_ether "2" ≡ some 2000000000000000000)
    × (estimate 7 2000000000000000000 ≡ some gas)
    × (100000 ≡ gas + 10000)
    × (1000000000000000000 + 1000000000000000000 * 5 / 100 ≤ 2000000000000000000)
unfolding place_bid_handler
place_bid_handler-sent_example =
    place_bid_handler-sent numbers estimate auction 5 "2" 7 2000000000000000000 100000 refl

abbrev button : BidButton
button = record { loading = false; content = "Bid"; alerts = [] }

abbrev states : List TransactionStatus
states =
    record { status = mining; error_message = none }
    ∷ record { status = success; error_message = none }
    ∷ []

effects-loading_example :
    ((placing_effects states button).loading ≡ spins_placing false states)
    × ((settling_effects states button).loading ≡ spins_settling false states)
effects-loading_example = effects-loading states button
