-- ===== src/Webapp/Subscriber/House.antt =====
-- The events of the auction house about one auction, in its order, as the page and the subgraph get
-- them. One text stands for an address in both, while the page reads it with a checksum's capitals and
-- the subgraph writes it in lower case.
use web3_nft.Prelude.{
  ℕ, ◌<◌, String, ◌≡◌, Bool, false, ◌||◌, Option, some, List, [], ◌∷◌, map, str_eq, or_else,
}
use web3_nft.Webapp.Auction.{IAuction, BidEvent}
use web3_nft.Webapp.Subscriber.{ChainEvent, bid, extended, settled}
use web3_nft.Subgraph.Auctions.Rows.{Bidding}
use web3_nft.Subgraph.Indexer.{Event, auction_bid, auction_extended, auction_settled, index}

-- What the auction house reports of a running auction.
pub data HouseEvent : Type 0 where
  house_bid : String → ℕ → String → Bool → ℕ → ℕ → ℕ → HouseEvent
  house_extended : ℕ → HouseEvent
  house_settled : String → ℕ → HouseEvent

-- The event as the page gets it, for the word of the number `n`.
unfoldable pub to_page : ℕ → HouseEvent → ChainEvent
to_page n (house_bid sender value hash extends index block time) = bid (record {
  word_id = n;
  sender = sender;
  value = value;
  extended = extends;
  transaction_hash = hash;
  timestamp = time;
})
to_page n (house_extended end) = extended (record { word_id = n; end_time = end })
to_page n (house_settled winner amount) =
    settled (record { word_id = n; winner = winner; amount = amount })

-- The event as the subgraph gets it, for the word of the text `w`.
unfoldable pub to_graph : String → HouseEvent → Event
to_graph w (house_bid sender value hash extends index block time) = auction_bid (record {
  word_id = w;
  sender = sender;
  value = value;
  tx_hash = hash;
  tx_index = index;
  block_number = block;
  block_timestamp = time;
})
to_graph w (house_extended end) = auction_extended (record { word_id = w; end_time = end })
to_graph w (house_settled winner amount) = auction_settled (record { word_id = w })

unfoldable pub knows_hash : List String → String → Bool
knows_hash [] hash = false
knows_hash (h ∷ hs) hash = str_eq h hash || knows_hash hs hash

-- The order of the auction house: a bid is above the amount and in a transaction of its own, and the
-- auction is settled to its bidder for its amount.
unfoldable pub AreOfHouse : ℕ → Option String → List String → List HouseEvent → Type 0
AreOfHouse amount bidder hashes [] = Unit
AreOfHouse amount bidder hashes (house_bid sender value hash extends index block time ∷ es) =
    (amount < value)
    × (knows_hash hashes hash ≡ false)
    × AreOfHouse value (some sender) (hash ∷ hashes) es
AreOfHouse amount bidder hashes (house_extended end ∷ es) = AreOfHouse amount bidder hashes es
AreOfHouse amount bidder hashes (house_settled winner value ∷ es) =
    (bidder ≡ some winner) × (value ≡ amount) × AreOfHouse amount bidder hashes es

-- One auction, as the subgraph's row and as the page has it; no bidder is an empty text there.
pub record Agrees (n : ℕ) (b : Bidding) (a : IAuction) : Type 0 where
  pub word : a.word_id ≡ n
  pub amount : a.amount ≡ b.amount
  pub bidder : a.bidder ≡ or_else b.bidder ""
  pub start_time : a.start_time ≡ b.start_time
  pub end_time : a.end_time ≡ b.end_time
  pub settled : a.settled ≡ b.settled

abbrev pub hashes_of : List BidEvent → List String
hashes_of bids = map (λ (b : BidEvent). b.transaction_hash) bids
