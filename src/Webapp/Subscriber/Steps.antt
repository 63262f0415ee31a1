-- ===== src/Webapp/Subscriber/Steps.antt =====
-- One event of the auction house keeps the page in agreement with the subgraph's row.
use web3_nft.Prelude.{
  ℕ, ◌≤◌, ◌<◌, String, ◌≡◌, refl, sym, ap, ◌∙◌, Bool, true, false, ◌||◌, Option, none, some, List,
  [], ◌∷◌, arith, str_eq, ◌==◌, if◌then◌else◌, lt→ltb, ==_iff, or_else, All,
}
use mathlib.Core.Path.{subst}
use web3_nft.Webapp.Auction.{
  IAuction, BidEvent, AuctionSettledEvent, AuctionExtendedEvent, AuctionState, append_bid,
  set_auction_settled, set_auction_extended, reduce, contains_bid, max_bid,
}
use web3_nft.Webapp.Auction.Bids.{append_new}
use web3_nft.Webapp.Subscriber.{PageState, on_event}
use web3_nft.Subgraph.Auctions.Rows.{Bidding}
use web3_nft.Subgraph.Indexer.{index}
use web3_nft.Webapp.Subscriber.House.{
  house_bid, house_extended, house_settled, to_page, knows_hash, Agrees, hashes_of,
}

extended_lem :
    (event : AuctionExtendedEvent) (state : AuctionState) (a : IAuction)
    → state.active_auction ≡ some a
    → a.word_id ≡ event.word_id
    → reduce (set_auction_extended event) state
      ≡ record state { active_auction = some (record a { end_time = event.end_time }) }
unfolding reduce
extended_lem event state a active same =
    ap
      (λ (o : Option IAuction). elim o as (λ _. AuctionState) [
        | none ↦ state
        | some c ↦
            if c.word_id == event.word_id
            then record state { active_auction = some (record c { end_time = event.end_time }) }
            else state
      ])
      active
    ∙ ap
        (λ t.
          if t
          then record state { active_auction = some (record a { end_time = event.end_time }) }
          else state)
        ((==_iff a.word_id event.word_id).1 same)

settled_lem :
    (event : AuctionSettledEvent) (state : AuctionState) (a : IAuction)
    → state.active_auction ≡ some a
    → a.word_id ≡ event.word_id
    → reduce (set_auction_settled event) state ≡ record state {
      active_auction =
          some (record a { settled = true; bidder = event.winner; amount = event.amount });
    }
unfolding reduce
settled_lem event state a active same =
    ap
      (λ (o : Option IAuction). elim o as (λ _. AuctionState) [
        | none ↦ state
        | some c ↦
            if c.word_id == event.word_id
            then record state {
              active_auction =
                  some (record c { settled = true; bidder = event.winner; amount = event.amount });
            }
            else state
      ])
      active
    ∙ ap
        (λ t.
          if t
          then record state {
            active_auction =
                some (record a { settled = true; bidder = event.winner; amount = event.amount });
          }
          else state)
        ((==_iff a.word_id event.word_id).1 same)

knows-contains :
    (bids : List BidEvent) (event : BidEvent)
    → contains_bid bids event ≡ knows_hash (hashes_of bids) event.transaction_hash
unfolding contains_bid knows_hash
knows-contains [] event = refl
knows-contains (b ∷ bids) event =
    ap (λ t. str_eq b.transaction_hash event.transaction_hash || t) (knows-contains bids event)

max_bid-highest :
    (event : BidEvent) (bids : List BidEvent)
    → All (λ b. b.value < event.value) bids
    → max_bid event bids ≡ event
unfolding max_bid
max_bid-highest event [] h = refl
max_bid-highest event (b ∷ bids) (p, h) =
    rw (lt→ltb b.value event.value p) (max_bid-highest event bids h)

raise :
    (m n : ℕ) (bids : List BidEvent)
    → m < n
    → All (λ b. b.value ≤ m) bids
    → All (λ b. b.value < n) bids
raise m n [] l h = tt
raise m n (b ∷ bids) l (p, h) = (omega arith, raise m n bids l h)

at_most : (n : ℕ) (bids : List BidEvent) → All (λ b. b.value < n) bids → All (λ b. b.value ≤ n) bids
at_most n [] h = tt
at_most n (b ∷ bids) (p, h) = (omega arith, at_most n bids h)

le_self : (n : ℕ) → n ≤ n
le_self n = omega arith

-- The page shows the auction of the row, and knows its bids by their transactions.
pub record InAgreement (n : ℕ) (b : Bidding) (hashes : List String) (page : PageState)
    : Type 0 where
  pub shown : IAuction
  pub active : page.auction.active_auction ≡ some shown
  pub agrees : Agrees n b shown
  pub below : All (λ (x : BidEvent). x.value ≤ b.amount) page.auction.bids
  pub same_hashes : hashes_of page.auction.bids ≡ hashes

module _ (n : ℕ) (b : Bidding) (hashes : List String) (page : PageState)
    (h : InAgreement n b hashes page) where
  pub bid_step :
      (sender : String) (value : ℕ) (hash : String) (extends : Bool) (index block time : ℕ)
      → b.amount < value
      → knows_hash hashes hash ≡ false
      → InAgreement n
          (record b { amount = value; bidder = some sender })
          (hash ∷ hashes)
          (on_event (to_page n (house_bid sender value hash extends index block time)) page)
  unfolding on_event to_page
  bid_step sender value hash extends index block time more unknown =
      let event : BidEvent = record {
        word_id = n;
        sender = sender;
        value = value;
        extended = extends;
        transaction_hash = hash;
        timestamp = time;
      } in
      let bids = page.auction.bids in
      let under = raise b.amount value bids more h.below in
      let new = knows-contains bids event ∙ ap (λ hs. knows_hash hs hash) h.same_hashes ∙ unknown in
      let shows : reduce (append_bid event) page.auction ≡ record {
        active_auction = some (record (h.shown) { amount = value; bidder = sender });
        bids = event ∷ bids;
      } =
        append_new event page.auction h.shown h.active h.agrees.word new
        ∙ ap
            (λ (t : BidEvent). record {
              active_auction = some (record (h.shown) { amount = t.value; bidder = t.sender });
              bids = event ∷ bids;
            })
            (max_bid-highest event bids under) in
      record {
        shown = record (h.shown) { amount = value; bidder = sender };
        active = ap (λ (t : AuctionState). t.active_auction) shows;
        agrees = record {
          word = h.agrees.word;
          amount = refl;
          bidder = refl;
          start_time = h.agrees.start_time;
          end_time = h.agrees.end_time;
          settled = h.agrees.settled;
        };
        below =
            subst (λ (xs : List BidEvent). All (λ (x : BidEvent). x.value ≤ value) xs)
              (sym (ap (λ (t : AuctionState). t.bids) shows))
              (le_self value, at_most value bids under);
        same_hashes =
            ap (λ (t : AuctionState). hashes_of t.bids) shows ∙ ap (λ hs. hash ∷ hs) h.same_hashes;
      }

  pub extended_step :
      (end : ℕ)
      → InAgreement n
          (record b { end_time = end })
          hashes
          (on_event (to_page n (house_extended end)) page)
  unfolding on_event to_page
  extended_step end =
      let shows =
        extended_lem (record { word_id = n; end_time = end }) page.auction h.shown h.active
          h.agrees.word in
      record {
        shown = record (h.shown) { end_time = end };
        active = ap (λ (t : AuctionState). t.active_auction) shows;
        agrees = record {
          word = h.agrees.word;
          amount = h.agrees.amount;
          bidder = h.agrees.bidder;
          start_time = h.agrees.start_time;
          end_time = refl;
          settled = h.agrees.settled;
        };
        below =
            subst (λ (xs : List BidEvent). All (λ (x : BidEvent). x.value ≤ b.amount) xs)
              (sym (ap (λ (t : AuctionState). t.bids) shows)) h.below;
        same_hashes = ap (λ (t : AuctionState). hashes_of t.bids) shows ∙ h.same_hashes;
      }

  pub settled_step :
      (winner : String) (value : ℕ)
      → b.bidder ≡ some winner
      → value ≡ b.amount
      → InAgreement n
          (record b { settled = true })
          hashes
          (on_event (to_page n (house_settled winner value)) page)
  unfolding on_event to_page
  settled_step winner value won full =
      let shows =
        settled_lem (record { word_id = n; winner = winner; amount = value }) page.auction h.shown
          h.active h.agrees.word in
      record {
        shown = record (h.shown) { settled = true; bidder = winner; amount = value };
        active = ap (λ (t : AuctionState). t.active_auction) shows;
        agrees = record {
          word = h.agrees.word;
          amount = full;
          bidder = sym (ap (λ o. or_else o "") won);
          start_time = h.agrees.start_time;
          end_time = h.agrees.end_time;
          settled = refl;
        };
        below =
            subst (λ (xs : List BidEvent). All (λ (x : BidEvent). x.value ≤ b.amount) xs)
              (sym (ap (λ (t : AuctionState). t.bids) shows)) h.below;
        same_hashes = ap (λ (t : AuctionState). hashes_of t.bids) shows ∙ h.same_hashes;
      }
