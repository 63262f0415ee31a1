-- ===== src/Webapp/Subscriber/Examples.antt =====
-- The theorems about the chain's events on the page, applied to one auction.
use web3_nft.Prelude.{◌≡◌, refl, true, false, none, some, List, [], ◌∷◌, map, arith}
use web3_nft.Webapp.Auction.{IAuction, BidEvent, initial_state}
use web3_nft.Webapp.Subscriber.{PageState, bid, created, on_events, load_state}
use web3_nft.Webapp.Subscriber.InStep.{IsInStep, load_state-IsInStep}
use web3_nft.Webapp.Subscriber.House.{
  HouseEvent, house_bid, house_extended, house_settled, to_page, to_graph, knows_hash, AreOfHouse,
  Agrees,
}
use web3_nft.Webapp.Subscriber.Agreement.{agree_from_creation}
use web3_nft.Subgraph.Samples.{small_store, small_store-StoreIsKeyed, word-IsKnown}
use web3_nft.Subgraph.Auctions.Rows.{Bidding, bidding}
use web3_nft.Subgraph.Indexer.{auction_created, index}

abbrev empty_page : PageState
empty_page = record {
  auction = initial_state;
  display = record { last_auction_word_id = none; on_display_auction_word_id = none };
  paths = [];
}

abbrev current : IAuction
current = record {
  amount = 5;
  bidder = "0xaa";
  start_time = 100;
  end_time = 200;
  word_id = 7;
  settled = false;
}

abbrev late_bid : BidEvent
late_bid = record {
  word_id = 7;
  sender = "0xbb";
  value = 9;
  extended = true;
  transaction_hash = "0x01";
  timestamp = 190;
}

load_state-IsInStep_example : IsInStep (
    on_events
      (bid late_bid
        ∷ created (record { word_id = 8; start_time = 210; end_time = 310; settled = false })
        ∷ [])
      (load_state current (some late_bid ∷ none ∷ []) empty_page).0)
load_state-IsInStep_example =
    load_state-IsInStep current (some late_bid ∷ none ∷ [])
      (bid late_bid
        ∷ created (record { word_id = 8; start_time = 210; end_time = 310; settled = false })
        ∷ [])
      empty_page

abbrev house : List HouseEvent
house =
    house_bid "0xaa" 5 "0x01" false 0 50 150
    ∷ house_bid "0xbb" 9 "0x02" true 1 55 190
    ∷ house_extended 250
    ∷ house_settled "0xbb" 9
    ∷ []

house-AreOfHouse : AreOfHouse 0 none [] house
unfolding AreOfHouse knows_hash
house-AreOfHouse = (omega arith, refl, (omega arith, refl, (refl, refl, tt)))

agree_from_creation_example :
    (b : Bidding) × (a : IAuction) × ((bidding "7" (
          index
            (auction_created (record { word_id = "7"; start_time = 100; end_time = 200 })
              ∷ map (to_graph "7") house)
            small_store)
        ≡ some b)
      × ((on_events
            (created (record { word_id = 7; start_time = 100; end_time = 200; settled = false })
              ∷ map (to_page 7) house)
            empty_page).auction.active_auction
          ≡ some a)
      × Agrees 7 b a)
agree_from_creation_example =
    agree_from_creation 7 "7" 100 200 house small_store empty_page small_store-StoreIsKeyed
      word-IsKnown house-AreOfHouse
