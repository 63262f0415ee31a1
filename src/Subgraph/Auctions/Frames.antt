-- ===== src/Subgraph/Auctions/Frames.antt =====
-- The tables that the auction handlers leave alone, and the keys that they keep.
use web3_nft.Prelude.{◌≡◌, inl, inr, true, false, none, some, arith, Option-cases}
use web3_nft.Table.{lookup}
use web3_nft.Table.Keys.{insert-IsKeyed}
use web3_nft.Subgraph.Schema.{Auction, Store}
use web3_nft.Subgraph.Helpers.{get_or_create_account}
use web3_nft.Subgraph.Helpers.Views.{
  StoreIsKeyed, get_or_create_account-frame, get_or_create_account-keyed,
}
use web3_nft.Subgraph.Auctions.{
  AuctionCreated, AuctionBid, AuctionExtended, AuctionSettled, record_bid, handle_auction_created,
  handle_auction_bid, handle_auction_extended, handle_auction_settled,
}

-- What an auction handler may change: the auctions, the bids, the error log, and the accounts.
pub record SameTokens (s t : Store) : Type 0 where
  pub words : t.words ≡ s.words
  pub delegates : t.delegates ≡ s.delegates
  pub proposals : t.proposals ≡ s.proposals
  pub governance : t.governance ≡ s.governance

pub created-SameTokens :
    (event : AuctionCreated) (s : Store) → SameTokens s (handle_auction_created event s)
unfolding handle_auction_created
created-SameTokens event s = ground arith

pub created-StoreIsKeyed :
    (event : AuctionCreated) (s : Store)
    → StoreIsKeyed s
    → StoreIsKeyed (handle_auction_created event s)
unfolding handle_auction_created
created-StoreIsKeyed event s h = elim (Option-cases (lookup event.word_id s.words)) [
  | inl e ↦
      rw (e, handle_auction_created)
        (ground (arith, h.accounts, h.delegates, h.auctions, h.proposals))
  | inr (w, e) ↦
      rw (e, handle_auction_created)
        (record {
          accounts = h.accounts;
          delegates = h.delegates;
          auctions =
              insert-IsKeyed (λ (x : Auction). x.id)
                (record {
                  id = event.word_id;
                  word = w.id;
                  amount = 0;
                  start_time = event.start_time;
                  end_time = event.end_time;
                  bidder = none;
                  settled = false;
                })
                s.auctions h.auctions;
          proposals = h.proposals;
        })
]

pub extended-SameTokens :
    (event : AuctionExtended) (s : Store) → SameTokens s (handle_auction_extended event s)
unfolding handle_auction_extended
extended-SameTokens event s = ground arith

pub extended-StoreIsKeyed :
    (event : AuctionExtended) (s : Store)
    → StoreIsKeyed s
    → StoreIsKeyed (handle_auction_extended event s)
unfolding handle_auction_extended
extended-StoreIsKeyed event s h = elim (Option-cases (lookup event.word_id s.auctions)) [
  | inl e ↦
      rw (e, handle_auction_extended)
        (ground (arith, h.accounts, h.delegates, h.auctions, h.proposals))
  | inr (a, e) ↦
      rw (e, handle_auction_extended)
        (record {
          accounts = h.accounts;
          delegates = h.delegates;
          auctions =
              insert-IsKeyed (λ (x : Auction). x.id) (record a { end_time = event.end_time })
                s.auctions h.auctions;
          proposals = h.proposals;
        })
]

pub settled-SameTokens :
    (event : AuctionSettled) (s : Store) → SameTokens s (handle_auction_settled event s)
unfolding handle_auction_settled
settled-SameTokens event s = ground arith

pub settled-StoreIsKeyed :
    (event : AuctionSettled) (s : Store)
    → StoreIsKeyed s
    → StoreIsKeyed (handle_auction_settled event s)
unfolding handle_auction_settled
settled-StoreIsKeyed event s h = elim (Option-cases (lookup event.word_id s.auctions)) [
  | inl e ↦
      rw (e, handle_auction_settled)
        (ground (arith, h.accounts, h.delegates, h.auctions, h.proposals))
  | inr (a, e) ↦
      rw (e, handle_auction_settled)
        (record {
          accounts = h.accounts;
          delegates = h.delegates;
          auctions =
              insert-IsKeyed (λ (x : Auction). x.id) (record a { settled = true }) s.auctions
                h.auctions;
          proposals = h.proposals;
        })
]

pub bid-SameTokens : (event : AuctionBid) (s : Store) → SameTokens s (handle_auction_bid event s)
unfolding handle_auction_bid record_bid
bid-SameTokens event s = ground (arith, get_or_create_account-frame event.sender s)

pub bid-StoreIsKeyed :
    (event : AuctionBid) (s : Store) → StoreIsKeyed s → StoreIsKeyed (handle_auction_bid event s)
unfolding handle_auction_bid record_bid
bid-StoreIsKeyed event s h =
    let (account, s') = get_or_create_account event.sender s in
    let f = get_or_create_account-frame event.sender s in
    let k = get_or_create_account-keyed event.sender s h.accounts in
    let same : s'.auctions ≡ s.auctions = f.2 in
    elim (Option-cases (lookup event.word_id s.auctions)) [
      | inl e ↦
          rw (same, e, handle_auction_bid)
            (ground (arith, f, k, h.delegates, h.auctions, h.proposals))
      | inr (a, e) ↦
          rw (same, e, handle_auction_bid)
            (record {
              accounts = k;
              delegates = ground (arith, f, h.delegates);
              auctions =
                  insert-IsKeyed (λ (x : Auction). x.id)
                    (record a { amount = event.value; bidder = some account.id }) s'.auctions
                    (ground (arith, f, h.auctions));
              proposals = ground (arith, f, h.proposals);
            })
    ]
