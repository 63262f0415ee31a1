-- ===== src/Webapp/Auction/Bids.antt =====
-- The bids of the running auction: which one leads, and that none is listed twice.
use web3_nft.Prelude.{
  ◌≤◌, ◌≡◌, refl, sym, ap, ◌∙◌, ◌⊎◌, inl, inr, Bool, true, false, none, some, List, [], ◌∷◌, arith,
  eq_iff, ltb, ◌==◌, if◌then◌else◌, ==_iff, Bool-cases, Option-cases, or_else, All,
}
use web3_nft.Webapp.Auction.{
  IAuction, BidEvent, AuctionState, AuctionAction, set_active_auction, set_full_auction, append_bid,
  set_auction_settled, set_auction_extended, max_bid, contains_bid, add_bid, reduce, reduce_all,
}

-- `top` is one of the bids.
unfoldable pub IsAmong : BidEvent → List BidEvent → Type 0
IsAmong top [] = ⊥
IsAmong top (bid ∷ bids) = (top ≡ bid) ⊎ IsAmong top bids

max_bid-ge : (prev : BidEvent) (bids : List BidEvent) → prev.value ≤ (max_bid prev bids).value
unfolding max_bid
max_bid-ge prev [] = omega arith
max_bid-ge prev (current ∷ bids) =
    let rest = max_bid-ge (if ltb current.value prev.value then prev else current) bids in
    ground arith

max_bid-All :
    (prev : BidEvent) (bids : List BidEvent)
    → All (λ bid. bid.value ≤ (max_bid prev bids).value) bids
unfolding max_bid
max_bid-All prev [] = tt
max_bid-All prev (current ∷ bids) =
    let next = if ltb current.value prev.value then prev else current in
    let rest = max_bid-ge next bids in (ground arith, max_bid-All next bids)

max_bid-IsAmong :
    (prev : BidEvent) (bids : List BidEvent) → IsAmong (max_bid prev bids) (prev ∷ bids)
unfolding max_bid IsAmong
max_bid-IsAmong prev [] = inl refl
max_bid-IsAmong prev (current ∷ bids) =
    let pick : Bool → BidEvent = λ t. if t then prev else current in
    elim (max_bid-IsAmong (pick (ltb current.value prev.value)) bids) [
      | inr h ↦ inr (inr h)
      | inl h ↦ elim (Bool-cases (ltb current.value prev.value)) [
        | inl e ↦ inl (h ∙ ap pick e)
        | inr e ↦ inr (inl (h ∙ ap pick e))
      ]
    ]

module _ (event : BidEvent) (state : AuctionState) where
  append_idle : state.active_auction ≡ none → reduce (append_bid event) state ≡ state
  unfolding reduce
  append_idle e =
      ap
        (λ o. elim o [
          | none ↦ state
          | some a ↦ if a.word_id == event.word_id then add_bid event a state else state
        ])
        e

  module _ (auction : IAuction) (active : state.active_auction ≡ some auction) where
    append_active :
        reduce (append_bid event) state
        ≡ (if auction.word_id == event.word_id then add_bid event auction state else state)
    unfolding reduce
    append_active =
        ap
          (λ o. elim o [
            | none ↦ state
            | some a ↦ if a.word_id == event.word_id then add_bid event a state else state
          ])
          active

    append_other :
        (auction.word_id == event.word_id) ≡ false → reduce (append_bid event) state ≡ state
    append_other e = append_active ∙ ap (λ t. if t then add_bid event auction state else state) e

    append_listed : contains_bid state.bids event ≡ true → reduce (append_bid event) state ≡ state
    unfolding add_bid
    append_listed e = elim (Bool-cases (auction.word_id == event.word_id)) [
      | inl h ↦
          append_active
          ∙ ap (λ t. if t then add_bid event auction state else state) h
          ∙ ap
              (λ t. if t then state else record {
                active_auction = some (record auction {
                  amount = (max_bid event state.bids).value;
                  bidder = (max_bid event state.bids).sender;
                });
                bids = event ∷ state.bids;
              })
              e
      | inr h ↦ append_other h
    ]

    pub append_new :
        auction.word_id ≡ event.word_id
        → contains_bid state.bids event ≡ false
        → reduce (append_bid event) state ≡ record {
          active_auction = some (record auction {
            amount = (max_bid event state.bids).value;
            bidder = (max_bid event state.bids).sender;
          });
          bids = event ∷ state.bids;
        }
    unfolding add_bid
    append_new same new =
        let matching : (auction.word_id == event.word_id) ≡ true =
          (==_iff auction.word_id event.word_id).1 same in
        append_active
        ∙ ap (λ t. if t then add_bid event auction state else state) matching
        ∙ ap
            (λ t. if t then state else record {
              active_auction = some (record auction {
                amount = (max_bid event state.bids).value;
                bidder = (max_bid event state.bids).sender;
              });
              bids = event ∷ state.bids;
            })
            new

-- A new bid for the active auction heads the list, and the auction then shows the value and the
-- sender of one of the listed bids, which is at least the value of every one; its times and its
-- word stay.
pub append_bid-leads :
    (event : BidEvent) (auction : IAuction) (state : AuctionState)
    → state.active_auction ≡ some auction
    → auction.word_id ≡ event.word_id
    → contains_bid state.bids event ≡ false
    → (top : BidEvent) × ((reduce (append_bid event) state ≡ record {
      active_auction = some (record auction { amount = top.value; bidder = top.sender });
      bids = event ∷ state.bids;
    })
        × IsAmong top (event ∷ state.bids)
        × All (λ bid. bid.value ≤ top.value) (event ∷ state.bids))
append_bid-leads event auction state active same new = (
  max_bid event state.bids,
  (
    append_new event state auction active same new,
    max_bid-IsAmong event state.bids,
    (max_bid-ge event state.bids, max_bid-All event state.bids),
  ),
)

contains_first :
    (event : BidEvent) (bids : List BidEvent) → contains_bid (event ∷ bids) event ≡ true
unfolding contains_bid
contains_first event bids = ground (arith, eq_iff event.transaction_hash event.transaction_hash)

-- A bid that is delivered again changes nothing.
pub append_bid_twice :
    (event : BidEvent) (state : AuctionState)
    → reduce (append_bid event) (reduce (append_bid event) state) ≡ reduce (append_bid event) state
append_bid_twice event state = elim (Option-cases state.active_auction) [
  | inl e ↦ ap (reduce (append_bid event)) (append_idle event state e)
  | inr (auction, e) ↦ elim (Bool-cases (auction.word_id == event.word_id)) [
    | inr h ↦ ap (reduce (append_bid event)) (append_other event state auction e h)
    | inl h ↦ elim (Bool-cases (contains_bid state.bids event)) [
      | inl k ↦ ap (reduce (append_bid event)) (append_listed event state auction e k)
      | inr k ↦
          let added =
            append_new event state auction e ((==_iff auction.word_id event.word_id).0 h) k in
          let state' : AuctionState = record {
            active_auction = some (record auction {
              amount = (max_bid event state.bids).value;
              bidder = (max_bid event state.bids).sender;
            });
            bids = event ∷ state.bids;
          } in
          ap (reduce (append_bid event)) added
          ∙ append_listed event state' (or_else state'.active_auction auction) refl
              (contains_first event state.bids)
          ∙ sym added
    ]
  ]
]

-- No transaction is listed twice.
unfoldable pub IsDistinct : List BidEvent → Type 0
IsDistinct [] = Unit
IsDistinct (bid ∷ bids) = (contains_bid bids bid ≡ false) × IsDistinct bids

add_bid-IsDistinct :
    (event : BidEvent) (auction : IAuction) (state : AuctionState)
    → IsDistinct state.bids
    → IsDistinct (add_bid event auction state).bids
unfolding add_bid IsDistinct
add_bid-IsDistinct event auction state h = elim (Bool-cases (contains_bid state.bids event)) [
  | inl e ↦ rw (e) h
  | inr e ↦ rw (e) (e, h)
]

if-IsDistinct :
    (t : Bool) (s s' : AuctionState)
    → IsDistinct s.bids
    → IsDistinct s'.bids
    → IsDistinct (if t then s else s').bids
if-IsDistinct true s s' h k = h
if-IsDistinct false s s' h k = k

reduce-IsDistinct :
    (action : AuctionAction) (state : AuctionState)
    → IsDistinct state.bids
    → IsDistinct (reduce action state).bids
unfolding reduce IsDistinct
reduce-IsDistinct (set_active_auction event) state h = tt
reduce-IsDistinct (set_full_auction auction) state h = h
reduce-IsDistinct (append_bid event) state h = elim (Option-cases state.active_auction) [
  | inl e ↦ rw (e, reduce) h
  | inr (auction, e) ↦
      rw (e, reduce)
        (if-IsDistinct (auction.word_id == event.word_id) (add_bid event auction state) state
          (add_bid-IsDistinct event auction state h) h)
]
reduce-IsDistinct (set_auction_settled event) state h = elim (Option-cases state.active_auction) [
  | inl e ↦ rw (e, reduce) h
  | inr (auction, e) ↦ rw (e, reduce) (if-IsDistinct (auction.word_id == event.word_id) _ state h h)
]
reduce-IsDistinct (set_auction_extended event) state h = elim (Option-cases state.active_auction) [
  | inl e ↦ rw (e, reduce) h
  | inr (auction, e) ↦ rw (e, reduce) (if-IsDistinct (auction.word_id == event.word_id) _ state h h)
]

-- Whatever actions run, in whatever order, no transaction is listed twice.
pub reduce_all-IsDistinct :
    (actions : List AuctionAction) (state : AuctionState)
    → IsDistinct state.bids
    → IsDistinct (reduce_all actions state).bids
unfolding reduce_all
reduce_all-IsDistinct [] state h = h
reduce_all-IsDistinct (action ∷ actions) state h =
    reduce_all-IsDistinct actions (reduce action state) (reduce-IsDistinct action state h)
