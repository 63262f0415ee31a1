-- ===== src/Subgraph/Auctions/Bids.antt =====
-- The rows of bids.
use web3_nft.Prelude.{◌≡◌, ap, ◌∙◌, none, some, [], ◌∷◌, ◌++◌, arith}
use web3_nft.Table.{lookup, lookup-insert_self}
use web3_nft.Table.Keys.{lookup-IsKeyed}
use web3_nft.Subgraph.Schema.{Auction, Account, Bid, Store, auction_not_found}
use web3_nft.Subgraph.Helpers.{get_or_create_account}
use web3_nft.Subgraph.Helpers.Views.{
  StoreIsKeyed, account_at-id, get_or_create_account-frame, get_or_create_account-value,
}
use web3_nft.Subgraph.Auctions.{AuctionBid, record_bid, handle_auction_bid}

-- A bid for an auction that has a row is recorded under the hash of its transaction, with the
-- auction's word and the amount, which is also the auction's new amount.
pub bid_recorded :
    (event : AuctionBid) (s : Store) (a : Auction)
    → StoreIsKeyed s
    → lookup event.word_id s.auctions ≡ some a
    → (lookup event.tx_hash (handle_auction_bid event s).bids
        ≡ some (record {
          id = event.tx_hash;
          word = a.word;
          amount = event.value;
          bidder = some event.sender;
          block_number = event.block_number;
          tx_index = event.tx_index;
          auction = event.word_id;
          block_timestamp = event.block_timestamp;
        }))
      × (lookup event.word_id (handle_auction_bid event s).auctions
          ≡ some (record a { amount = event.value; bidder = some event.sender }))
      × ((handle_auction_bid event s).errors ≡ s.errors)
unfolding handle_auction_bid record_bid
bid_recorded event s a h e =
    let (account, s') = get_or_create_account event.sender s in
    let f = get_or_create_account-frame event.sender s in
    let found : lookup event.word_id s'.auctions ≡ some a = rw (f.2) e in
    let sender : account.id ≡ event.sender =
      ap (λ (x : Account). x.id) (get_or_create_account-value event.sender s)
      ∙ account_at-id s.accounts event.sender h.accounts in
    let id = lookup-IsKeyed (λ (x : Auction). x.id) event.word_id s.auctions h.auctions e in
    let a' = record a { amount = event.value; bidder = some account.id } in
    let bid : Bid = record {
      id = event.tx_hash;
      word = a.word;
      amount = event.value;
      bidder = some account.id;
      block_number = event.block_number;
      tx_index = event.tx_index;
      auction = a.id;
      block_timestamp = event.block_timestamp;
    } in
    rw (found, handle_auction_bid, record_bid)
      (
        ground (arith, lookup-insert_self event.tx_hash bid s'.bids, sender, id),
        ground (arith, lookup-insert_self a'.id a' s'.auctions, sender, id),
        ground (arith, f),
      )

-- A bid for an auction that has no row is reported; no auction and no bid changes.
pub bid_unknown :
    (event : AuctionBid) (s : Store)
    → lookup event.word_id s.auctions ≡ none
    → ((handle_auction_bid event s).errors ≡ s.errors ++ auction_not_found event.word_id ∷ [])
      × ((handle_auction_bid event s).auctions ≡ s.auctions)
      × ((handle_auction_bid event s).bids ≡ s.bids)
unfolding handle_auction_bid
bid_unknown event s e = ground (arith, e, get_or_create_account-frame event.sender s)
