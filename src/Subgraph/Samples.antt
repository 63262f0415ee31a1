-- ===== src/Subgraph/Samples.antt =====
-- A small store with an auction, a holder and two proposals, and events that happen to it.
use web3_nft.Prelude.{
  String, ◌≡◌, refl, ◌≢◌, false, none, some, List, [], ◌∷◌, arith, str_eq, eq_iff, pos,
}
use web3_nft.Table.{lookup}
use web3_nft.Subgraph.Schema.{Auction, Account, Delegate, Proposal, Store, pending, queued}
use web3_nft.Subgraph.Helpers.{new_proposal}
use web3_nft.Subgraph.Helpers.Views.{StoreIsKeyed, IsKnown}
use web3_nft.Subgraph.Auctions.{AuctionBid}
use web3_nft.Subgraph.Tokens.{Transfer}
use web3_nft.Subgraph.Indexer.{Event, auction_bid, auction_extended, transfer}

pub differ : (s t : String) → str_eq s t ≡ false → s ≢ t
differ s t h = ground (arith, eq_iff s t, h)

abbrev pub holder : Account
holder = record {
  id = "0xaa";
  delegate = some "0xaa";
  token_balance_raw = pos 1;
  token_balance = pos 1;
  total_tokens_held_raw = pos 1;
  total_tokens_held = pos 1;
  words = "7" ∷ [];
}

abbrev pub lone_delegate : Delegate
lone_delegate = record {
  id = "0xaa";
  delegated_votes_raw = pos 1;
  delegated_votes = pos 1;
  token_holders_represented_amount = pos 1;
  words_represented = "7" ∷ [];
}

abbrev pub open_auction : Auction
open_auction = record {
  id = "7";
  word = "7";
  amount = 5;
  start_time = 100;
  end_time = 200;
  bidder = none;
  settled = false;
}

abbrev pub waiting : Proposal
waiting = record (new_proposal "1") { status = some pending }

abbrev pub in_queue : Proposal
in_queue = record (new_proposal "2") { status = some queued }

abbrev pub small_store : Store
small_store = record {
  seeds = [];
  words = ("7", record { id = "7"; seed = none; owner = some "0xaa" }) ∷ [];
  bids = [];
  auctions = ("7", open_auction) ∷ [];
  accounts = ("0xaa", holder) ∷ [];
  delegates = ("0xaa", lone_delegate) ∷ [];
  proposals = ("1", waiting) ∷ ("2", in_queue) ∷ [];
  votes = [];
  governance = some (record {
    proposals = pos 2;
    current_token_holders = pos 1;
    current_delegates = pos 1;
    total_token_holders = pos 1;
    total_delegates = pos 1;
    delegated_votes_raw = pos 1;
    delegated_votes = pos 1;
    proposals_queued = pos 1;
  });
  errors = [];
}

pub small_store-StoreIsKeyed : StoreIsKeyed small_store
small_store-StoreIsKeyed = record {
  accounts = (refl, tt);
  delegates = (refl, tt);
  auctions = (refl, tt);
  proposals = (refl, (refl, tt));
}

pub word-IsKnown : IsKnown "7" small_store
unfolding lookup
word-IsKnown e = cc

abbrev pub sale : Transfer
sale = record { source = "0xaa"; target = "0xbb"; token_id = "7" }

abbrev pub offer : AuctionBid
offer = record {
  word_id = "7";
  sender = "0xbb";
  value = 9;
  tx_hash = "0x01";
  tx_index = 0;
  block_number = 50;
  block_timestamp = 150;
}

abbrev pub events : List Event
events =
    auction_bid offer
    ∷ transfer sale
    ∷ auction_extended (record { word_id = "7"; end_time = 300 })
    ∷ []
