-- ===== src/Subgraph/Auctions.antt =====
-- nouns-auction-house.ts, with each event given the hash, the index and the block that it reads.
pub mod Rows
pub mod Bids
pub mod Frames
pub mod Accounts
use web3_nft.Prelude.{ℕ, ◌-◌, String, true, false, none, some}
use web3_nft.Table.{lookup, insert}
use web3_nft.Subgraph.Schema.{Auction, Bid, Store, word_not_found, auction_not_found, log_error}
use web3_nft.Subgraph.Helpers.{get_or_create_account}

-- The event, with the hash, the index and the block of its transaction.
pub record AuctionCreated : Type 0 where
  pub word_id : String
  pub start_time : ℕ
  pub end_time : ℕ

pub record AuctionBid : Type 0 where
  pub word_id : String
  pub sender : String
  pub value : ℕ
  pub tx_hash : String
  pub tx_index : ℕ
  pub block_number : ℕ
  pub block_timestamp : ℕ

pub record AuctionExtended : Type 0 where
  pub word_id : String
  pub end_time : ℕ

pub record AuctionSettled : Type 0 where
  pub word_id : String

abbrev pub save_auction : Auction → Store → Store
save_auction a s = record s { auctions = insert a.id a s.auctions }

abbrev pub save_bid : Bid → Store → Store
save_bid b s = record s { bids = insert b.id b s.bids }

pub handle_auction_created : AuctionCreated → Store → Store
handle_auction_created event s = elim (lookup event.word_id s.words) [
  | none ↦ log_error (word_not_found event.word_id) s
  | some word ↦
      save_auction
        (record {
          id = event.word_id;
          word = word.id;
          amount = 0;
          start_time = event.start_time;
          end_time = event.end_time;
          bidder = none;
          settled = false;
        })
        s
]

-- The auction's new row and the bid's row, once the auction was found.
record_bid : AuctionBid → String → Auction → Store → Store
record_bid event bidder auction s =
    let auction' = record auction { amount = event.value; bidder = some bidder } in
    save_bid
      (record {
        id = event.tx_hash;
        word = auction'.word;
        amount = auction'.amount;
        bidder = some bidder;
        block_number = event.block_number;
        tx_index = event.tx_index;
        auction = auction'.id;
        block_timestamp = event.block_timestamp;
      })
      (save_auction auction' s)

pub handle_auction_bid : AuctionBid → Store → Store
unfolding record_bid
handle_auction_bid event s =
    let (bidder, s') = get_or_create_account event.sender s in
    elim (lookup event.word_id s'.auctions) [
      | none ↦ log_error (auction_not_found event.word_id) s'
      | some auction ↦ record_bid event bidder.id auction s'
    ]

pub handle_auction_extended : AuctionExtended → Store → Store
handle_auction_extended event s = elim (lookup event.word_id s.auctions) [
  | none ↦ log_error (auction_not_found event.word_id) s
  | some auction ↦ save_auction (record auction { end_time = event.end_time }) s
]

pub handle_auction_settled : AuctionSettled → Store → Store
handle_auction_settled event s = elim (lookup event.word_id s.auctions) [
  | none ↦ log_error (auction_not_found event.word_id) s
  | some auction ↦ save_auction (record auction { settled = true }) s
]
