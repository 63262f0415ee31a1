-- ===== src/Webapp/Display.antt =====
-- state/slices/onDisplayAuction.ts and pastAuctions.ts, utils/wordderWord.ts and
-- wrappers/onDisplayAuction.ts: which auction the page shows, and its bids.
pub mod Navigation
pub mod Choice
pub mod Sorting
use web3_nft.Prelude.{
  ℕ, ◌+◌, ◌-◌, ◌/◌, ◌%◌, String, Bool, true, false, not, ◌||◌, Option, none, some, List, [], ◌∷◌,
  map, ltb, ◌==◌, if◌then◌else◌, or_else,
}
use web3_nft.Webapp.Auction.{IAuction, BidEvent, AuctionState}

pub record OnDisplayAuctionState : Type 0 where
  pub last_auction_word_id : Option ℕ
  pub on_display_auction_word_id : Option ℕ

pub data DisplayAction : Type 0 where
  set_last_auction_word_id : ℕ → DisplayAction
  set_on_display_auction_word_id : ℕ → DisplayAction
  set_prev_on_display_auction_word_id : DisplayAction
  set_next_on_display_auction_word_id : DisplayAction

-- Equality of two word ids that may be undefined.
unfoldable pub same_id : Option ℕ → Option ℕ → Bool
same_id none none = true
same_id none (some n) = false
same_id (some m) none = false
same_id (some m) (some n) = m == n

unfoldable pub reduce_display : DisplayAction → OnDisplayAuctionState → OnDisplayAuctionState
unfolding same_id
reduce_display (set_last_auction_word_id id) state = record state { last_auction_word_id = some id }
reduce_display (set_on_display_auction_word_id id) state = record state {
  on_display_auction_word_id = some id;
}
reduce_display set_prev_on_display_auction_word_id state = elim state.on_display_auction_word_id [
  | none ↦ state
  | some id ↦ if id == 0 then state else record state { on_display_auction_word_id = some (id - 1) }
]
reduce_display set_next_on_display_auction_word_id state = elim state.on_display_auction_word_id [
  | none ↦ state
  | some id ↦
      if same_id state.last_auction_word_id (some id)
      then state
      else record state { on_display_auction_word_id = some (id + 1) }
]

-- The auctions of the subgraph, as its query returns them.
pub record PastBid : Type 0 where
  pub id : String
  pub bidder : String
  pub amount : ℕ
  pub block_timestamp : ℕ

pub record PastAuction : Type 0 where
  pub id : ℕ
  pub bidder : Option String
  pub amount : ℕ
  pub start_time : ℕ
  pub end_time : ℕ
  pub bids : List PastBid

abbrev pub past_bid : ℕ → PastBid → BidEvent
past_bid id bid = record {
  word_id = id;
  sender = bid.bidder;
  value = bid.amount;
  extended = false;
  transaction_hash = bid.id;
  timestamp = bid.block_timestamp;
}

abbrev pub redux_safe_past_auction : PastAuction → AuctionState
redux_safe_past_auction auction = record {
  active_auction = some (record {
    amount = auction.amount;
    bidder = or_else auction.bidder "";
    start_time = auction.start_time;
    end_time = auction.end_time;
    word_id = auction.id;
    settled = false;
  });
  bids = map (past_bid auction.id) auction.bids;
}

abbrev pub redux_safe_past_auctions : List PastAuction → List AuctionState
redux_safe_past_auctions auctions = map redux_safe_past_auction auctions

-- The reducer `addPastAuctions`, of the state's list.
abbrev pub add_past_auctions : List PastAuction → List AuctionState → List AuctionState
add_past_auctions auctions past = redux_safe_past_auctions auctions

pub is_wordder_word : ℕ → Bool
is_wordder_word word_id = word_id % 10 == 0 || word_id == 0

abbrev pub empty_wordder_auction : ℕ → IAuction
empty_wordder_auction id = record {
  amount = 0;
  bidder = "";
  start_time = 0;
  end_time = 0;
  word_id = id;
  settled = false;
}

-- The first state whose auction has the id. `none` is the error that a state with no auction makes
-- `BigNumber.from(undefined)` throw.
unfoldable pub find_auction : ℕ → List AuctionState → Option (Option IAuction)
find_auction id [] = some none
find_auction id (state ∷ states) =
    let rest = find_auction id states in
    elim state.active_auction [
      | none ↦ none
      | some auction ↦ if auction.word_id == id then some (some auction) else rest
    ]

pub generate_empty_wordder_auction : ℕ → List AuctionState → Option IAuction
unfolding find_auction
generate_empty_wordder_auction id past = elim (find_auction (id + 1) past) [
  | none ↦ none
  | some none ↦ some (empty_wordder_auction id)
  | some (some above) ↦ some (record (empty_wordder_auction id) { start_time = above.start_time })
]

-- The state that `pastAuctions.find(...)` gives: a state with no auction is passed over.
unfoldable pub find_state : ℕ → List AuctionState → Option AuctionState
find_state id [] = none
find_state id (state ∷ states) =
    let rest = find_state id states in
    elim state.active_auction [
      | none ↦ rest
      | some auction ↦ if auction.word_id == id then some state else rest
    ]

-- A copy that is not settled.
abbrev pub deserialize_auction : IAuction → IAuction
deserialize_auction auction = record auction { settled = false }

-- `useOnDisplayAuction`, of the states that it selects. The outer `none` is an error thrown.
pub use_on_display_auction :
    OnDisplayAuctionState → AuctionState → List AuctionState → Option (Option IAuction)
unfolding generate_empty_wordder_auction find_state
use_on_display_auction display current past = elim display.on_display_auction_word_id [
  | none ↦ some none
  | some id ↦ elim current.active_auction [
    | none ↦ some none
    | some auction ↦
        if id == auction.word_id
        then some (some (deserialize_auction auction))
        else if is_wordder_word id
        then elim (generate_empty_wordder_auction id past) [
          | none ↦ none
          | some empty ↦ some (some (deserialize_auction empty))
        ]
        else elim (find_state id past) [
          | none ↦ some none
          | some state ↦ elim state.active_auction [
            | none ↦ some none
            | some past_auction ↦ some (some (deserialize_auction past_auction))
          ]
        ]
  ]
]

-- A sort by time, the latest first, that keeps the order of bids of one time.
unfoldable pub place_bid : BidEvent → List BidEvent → List BidEvent
place_bid bid [] = bid ∷ []
place_bid bid (next ∷ bids) =
    let rest = place_bid bid bids in
    if ltb bid.timestamp next.timestamp then next ∷ rest else bid ∷ next ∷ bids

unfoldable pub deserialize_bids : List BidEvent → List BidEvent
unfolding place_bid
deserialize_bids [] = []
deserialize_bids (bid ∷ bids) = place_bid bid (deserialize_bids bids)

pub use_auction_bids :
    ℕ → OnDisplayAuctionState → AuctionState → List AuctionState → Option (List BidEvent)
unfolding find_state deserialize_bids
use_auction_bids id display current past =
    if same_id display.last_auction_word_id (some id)
    then some (deserialize_bids current.bids)
    else elim (find_state id past) [ none ↦ none | some state ↦ some (deserialize_bids state.bids) ]
