-- ===== src/Webapp/Subscriber/InStep.antt =====
-- The last auction that the page knows is the running one.
use web3_nft.Prelude.{
  ℕ, ◌≡◌, refl, ap, ◌∙◌, inl, inr, Option, none, some, List, [], ◌∷◌, ◌==◌, Bool-cases,
  Option-cases,
}
use web3_nft.Webapp.Auction.{
  IAuction, BidEvent, AuctionSettledEvent, AuctionExtendedEvent, AuctionState, append_bid,
  set_auction_settled, set_auction_extended, reduce, add_bid, contains_bid, redux_safe_bid,
}
use web3_nft.Webapp.Display.{reduce_display}
use web3_nft.Webapp.Subscriber.{
  PageState, ChainEvent, bid, created, extended, settled, process_bid_filter, on_event, on_events,
  load_bids, load_state,
}

abbrev pub word_of : Option IAuction → Option ℕ
word_of none = none
word_of (some a) = some a.word_id

-- There is a running auction, and its word is the last one.
abbrev pub IsInStep : PageState → Type 0
IsInStep page =
    (n : ℕ) × ((word_of page.auction.active_auction ≡ some n)
      × (page.display.last_auction_word_id ≡ some n))

add_bid-word :
    (event : BidEvent) (a : IAuction) (state : AuctionState)
    → state.active_auction ≡ some a
    → word_of (add_bid event a state).active_auction ≡ some a.word_id
unfolding add_bid
add_bid-word event a state e = elim (Bool-cases (contains_bid state.bids event)) [
  | inl t ↦ rw t (ap word_of e)
  | inr t ↦ rw t refl
]

module _ (state : AuctionState) where
  abbrev word : Option ℕ
  word = word_of state.active_auction

  append_bid-word :
      (event : BidEvent) → word_of (reduce (append_bid event) state).active_auction ≡ word
  unfolding reduce
  append_bid-word event = elim (Option-cases state.active_auction) [
    | inl e ↦ rw (e, reduce) (ap word_of e)
    | inr (a, e) ↦ elim (Bool-cases (a.word_id == event.word_id)) [
      | inl t ↦ rw (e, reduce, t) (add_bid-word event a state e)
      | inr t ↦ rw (e, reduce, t) (ap word_of e)
    ]
  ]

  settled-word :
      (event : AuctionSettledEvent)
      → word_of (reduce (set_auction_settled event) state).active_auction ≡ word
  unfolding reduce
  settled-word event = elim (Option-cases state.active_auction) [
    | inl e ↦ rw (e, reduce) (ap word_of e)
    | inr (a, e) ↦ elim (Bool-cases (a.word_id == event.word_id)) [
      | inl t ↦ rw (e, reduce, t) refl
      | inr t ↦ rw (e, reduce, t) (ap word_of e)
    ]
  ]

  extended-word :
      (event : AuctionExtendedEvent)
      → word_of (reduce (set_auction_extended event) state).active_auction ≡ word
  unfolding reduce
  extended-word event = elim (Option-cases state.active_auction) [
    | inl e ↦ rw (e, reduce) (ap word_of e)
    | inr (a, e) ↦ elim (Bool-cases (a.word_id == event.word_id)) [
      | inl t ↦ rw (e, reduce, t) refl
      | inr t ↦ rw (e, reduce, t) (ap word_of e)
    ]
  ]

on_event-IsInStep : (e : ChainEvent) (page : PageState) → IsInStep page → IsInStep (on_event e page)
unfolding on_event reduce reduce_display
on_event-IsInStep (bid event) page (n, (a, b)) = (n, (append_bid-word page.auction event ∙ a, b))
on_event-IsInStep (created event) page h = (event.word_id, (refl, refl))
on_event-IsInStep (extended event) page (n, (a, b)) = (n, (extended-word page.auction event ∙ a, b))
on_event-IsInStep (settled event) page (n, (a, b)) = (n, (settled-word page.auction event ∙ a, b))

on_events-IsInStep :
    (es : List ChainEvent) (page : PageState) → IsInStep page → IsInStep (on_events es page)
unfolding on_events
on_events-IsInStep [] page h = h
on_events-IsInStep (e ∷ es) page h =
    on_events-IsInStep es (on_event e page) (on_event-IsInStep e page h)

load_bids-IsInStep :
    (bids : List (Option BidEvent)) (page : PageState)
    → IsInStep page
    → IsInStep (load_bids bids page).0
unfolding load_bids process_bid_filter
load_bids-IsInStep [] page h = h
load_bids-IsInStep (none ∷ bids) page h = h
load_bids-IsInStep (some event ∷ bids) page (n, (a, b)) =
    load_bids-IsInStep bids (process_bid_filter event page)
      (n, (append_bid-word page.auction (redux_safe_bid event) ∙ a, b))

-- After the loading of the state, whatever the page showed before and whatever bids are found, and
-- after any run of events in any order, there is a running auction and the last auction that the page
-- knows is the one of its word.
pub load_state-IsInStep :
    (current : IAuction) (bids : List (Option BidEvent)) (es : List ChainEvent) (page : PageState)
    → IsInStep (on_events es (load_state current bids page).0)
unfolding load_state reduce reduce_display
load_state-IsInStep current bids es page =
    on_events-IsInStep es _ (load_bids-IsInStep bids _ (current.word_id, (refl, refl)))
