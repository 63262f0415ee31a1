-- ===== src/Subgraph/Auctions/Accounts.antt =====
-- The accounts after the auction house's events: only a bid may add one, and it adds an empty one.
use web3_nft.Prelude.{String, ◌≡◌, arith}
use web3_nft.Subgraph.Schema.{Store}
use web3_nft.Subgraph.Helpers.{get_or_create_account}
use web3_nft.Subgraph.Helpers.Views.{account_at, get_or_create_account-view}
use web3_nft.Subgraph.Auctions.{
  AuctionCreated, AuctionBid, AuctionExtended, AuctionSettled, record_bid, handle_auction_created,
  handle_auction_bid, handle_auction_extended, handle_auction_settled,
}

pub created-accounts :
    (event : AuctionCreated) (s : Store) → (handle_auction_created event s).accounts ≡ s.accounts
unfolding handle_auction_created
created-accounts event s = ground arith

pub extended-accounts :
    (event : AuctionExtended) (s : Store) → (handle_auction_extended event s).accounts ≡ s.accounts
unfolding handle_auction_extended
extended-accounts event s = ground arith

pub settled-accounts :
    (event : AuctionSettled) (s : Store) → (handle_auction_settled event s).accounts ≡ s.accounts
unfolding handle_auction_settled
settled-accounts event s = ground arith

pub bid-account_at :
    (event : AuctionBid) (s : Store) (j : String)
    → account_at (handle_auction_bid event s) j ≡ account_at s j
unfolding handle_auction_bid record_bid
bid-account_at event s j = ground (arith, get_or_create_account-view event.sender s j)

pub bid-accounts :
    (event : AuctionBid) (s : Store)
    → (handle_auction_bid event s).accounts ≡ (get_or_create_account event.sender s).1.accounts
unfolding handle_auction_bid record_bid
bid-accounts event s = ground arith
