-- ===== src/Webapp/Auction.antt =====
-- state/slices/auction.ts: the running auction and its bids, newest first. A big number is a ℕ, and
-- its JSON form is taken as the number; logging is left out.
pub mod Bids
use web3_nft.Prelude.{
  ℕ, ◌-◌, ◌/◌, String, Bool, true, false, ◌||◌, Option, none, some, List, [], ◌∷◌, str_eq, ltb,
  ◌==◌, if◌then◌else◌,
}

pub record IAuction : Type 0 where
  pub amount : ℕ
  pub bidder : String
  pub start_time : ℕ
  pub end_time : ℕ
  pub word_id : ℕ
  pub settled : Bool

pub record BidEvent : Type 0 where
  pub word_id : ℕ
  pub sender : String
  pub value : ℕ
  pub extended : Bool
  pub transaction_hash : String
  pub timestamp : ℕ

pub record AuctionCreateEvent : Type 0 where
  pub word_id : ℕ
  pub start_time : ℕ
  pub end_time : ℕ
  pub settled : Bool

pub record AuctionSettledEvent : Type 0 where
  pub word_id : ℕ
  pub winner : String
  pub amount : ℕ

pub record AuctionExtendedEvent : Type 0 where
  pub word_id : ℕ
  pub end_time : ℕ

pub record AuctionState : Type 0 where
  pub active_auction : Option IAuction
  pub bids : List BidEvent

abbrev pub initial_state : AuctionState
initial_state = record { active_auction = none; bids = [] }

abbrev pub redux_safe_new_auction : AuctionCreateEvent → IAuction
redux_safe_new_auction auction = record {
  amount = 0;
  bidder = "";
  start_time = auction.start_time;
  end_time = auction.end_time;
  word_id = auction.word_id;
  settled = false;
}

abbrev pub redux_safe_auction : IAuction → IAuction
redux_safe_auction auction = record {
  amount = auction.amount;
  bidder = auction.bidder;
  start_time = auction.start_time;
  end_time = auction.end_time;
  word_id = auction.word_id;
  settled = auction.settled;
}

abbrev pub redux_safe_bid : BidEvent → BidEvent
redux_safe_bid bid = record {
  word_id = bid.word_id;
  sender = bid.sender;
  value = bid.value;
  extended = bid.extended;
  transaction_hash = bid.transaction_hash;
  timestamp = bid.timestamp;
}

-- `bids.reduce(...)` of the bids `prev`, then `bids`: of two bids of one value the later in the list.
unfoldable pub max_bid : BidEvent → List BidEvent → BidEvent
max_bid prev [] = prev
max_bid prev (current ∷ bids) =
    max_bid (if ltb current.value prev.value then prev else current) bids

unfoldable pub contains_bid : List BidEvent → BidEvent → Bool
contains_bid [] event = false
contains_bid (bid ∷ bids) event =
    str_eq bid.transaction_hash event.transaction_hash || contains_bid bids event

pub data AuctionAction : Type 0 where
  set_active_auction : AuctionCreateEvent → AuctionAction
  set_full_auction : IAuction → AuctionAction
  append_bid : BidEvent → AuctionAction
  set_auction_settled : AuctionSettledEvent → AuctionAction
  set_auction_extended : AuctionExtendedEvent → AuctionAction

-- `appendBid` for the active auction, of the same word.
unfoldable pub add_bid : BidEvent → IAuction → AuctionState → AuctionState
unfolding contains_bid max_bid
add_bid event auction state =
    let top = max_bid (redux_safe_bid event) state.bids in
    if contains_bid state.bids event then state else record {
      active_auction = some (record auction { amount = top.value; bidder = top.sender });
      bids = redux_safe_bid event ∷ state.bids;
    }

unfoldable pub reduce : AuctionAction → AuctionState → AuctionState
unfolding add_bid
reduce (set_active_auction event) state = record {
  active_auction = some (redux_safe_new_auction event);
  bids = [];
}
reduce (set_full_auction auction) state = record state {
  active_auction = some (redux_safe_auction auction);
}
reduce (append_bid event) state = elim state.active_auction [
  | none ↦ state
  | some auction ↦ if auction.word_id == event.word_id then add_bid event auction state else state
]
reduce (set_auction_settled event) state = elim state.active_auction [
  | none ↦ state
  | some auction ↦
      if auction.word_id == event.word_id
      then record state {
        active_auction =
            some (record auction { settled = true; bidder = event.winner; amount = event.amount });
      }
      else state
]
reduce (set_auction_extended event) state = elim state.active_auction [
  | none ↦ state
  | some auction ↦
      if auction.word_id == event.word_id
      then record state { active_auction = some (record auction { end_time = event.end_time }) }
      else state
]

unfoldable pub reduce_all : List AuctionAction → AuctionState → AuctionState
reduce_all [] state = state
reduce_all (action ∷ actions) state = reduce_all actions (reduce action state)
