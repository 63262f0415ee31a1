-- ===== src/Webapp/Subscriber.antt =====
-- index.tsx, ChainSubscriber: the auction state and the auction on display follow the events of the
-- auction house. The handlers of bids wait for their block, so that events are taken in the order in
-- which their dispatches come.
pub mod InStep
pub mod House
mod Steps
pub mod Agreement
mod Examples
use web3_nft.Prelude.{ℕ, Bool, true, false, Option, none, some, List, [], ◌∷◌, ◌++◌}
use web3_nft.Webapp.Auction.{
  IAuction, BidEvent, AuctionCreateEvent, AuctionSettledEvent, AuctionExtendedEvent, AuctionState,
  redux_safe_bid, set_active_auction, set_full_auction, append_bid, set_auction_settled,
  set_auction_extended, reduce,
}
use web3_nft.Webapp.Display.{
  OnDisplayAuctionState, set_last_auction_word_id, set_on_display_auction_word_id, reduce_display,
}

-- The states that are dispatched to, and the paths pushed to the router, by the word's id.
pub record PageState : Type 0 where
  pub auction : AuctionState
  pub display : OnDisplayAuctionState
  pub paths : List ℕ

pub data ChainEvent : Type 0 where
  bid : BidEvent → ChainEvent
  created : AuctionCreateEvent → ChainEvent
  extended : AuctionExtendedEvent → ChainEvent
  settled : AuctionSettledEvent → ChainEvent

unfoldable pub process_bid_filter : BidEvent → PageState → PageState
process_bid_filter event page = record page {
  auction = reduce (append_bid (redux_safe_bid event)) page.auction;
}

unfoldable pub process_auction_created : AuctionCreateEvent → PageState → PageState
process_auction_created event page = record {
  auction = reduce (set_active_auction event) page.auction;
  display =
      reduce_display (set_last_auction_word_id event.word_id)
        (reduce_display (set_on_display_auction_word_id event.word_id) page.display);
  paths = page.paths ++ event.word_id ∷ [];
}

unfoldable pub process_auction_extended : AuctionExtendedEvent → PageState → PageState
process_auction_extended event page = record page {
  auction = reduce (set_auction_extended event) page.auction;
}

unfoldable pub process_auction_settled : AuctionSettledEvent → PageState → PageState
process_auction_settled event page = record page {
  auction = reduce (set_auction_settled event) page.auction;
}

unfoldable pub on_event : ChainEvent → PageState → PageState
unfolding process_bid_filter process_auction_created process_auction_extended
    process_auction_settled
on_event (bid event) page = process_bid_filter event page
on_event (created event) page = process_auction_created event page
on_event (extended event) page = process_auction_extended event page
on_event (settled event) page = process_auction_settled event page

unfoldable pub on_events : List ChainEvent → PageState → PageState
on_events [] page = page
on_events (e ∷ es) page = on_events es (on_event e page)

-- The bids of the last day, up to the first whose arguments are missing: the loading ends there, and
-- no listener is attached (`false`).
unfoldable pub load_bids : List (Option BidEvent) → PageState → PageState × Bool
unfolding process_bid_filter
load_bids [] page = (page, true)
load_bids (none ∷ events) page = (page, false)
load_bids (some event ∷ events) page = load_bids events (process_bid_filter event page)

unfoldable pub load_state : IAuction → List (Option BidEvent) → PageState → PageState × Bool
unfolding load_bids
load_state current_auction previous_bids page = load_bids previous_bids (record page {
  auction = reduce (set_full_auction current_auction) page.auction;
  display = reduce_display (set_last_auction_word_id current_auction.word_id) page.display;
})
