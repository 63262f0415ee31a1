-- ===== src/Subgraph/Schema.antt =====
-- schema.graphql: the entities, and the store that the host keeps for the indexer.
-- An address or a hash is the text that `toHex` gives, an id the text that `toString` gives. A
-- field that a new entity leaves unset, and a nullable field, is an `Option`.
use web3_nft.Prelude.{ℕ, String, Bool, Option, none, List, [], ◌∷◌, ◌++◌, ℤ}
use web3_nft.Table.{Table}

abbrev pub zero_address : String
zero_address = "0x0000000000000000000000000000000000000000"

pub record Seed : Type 0 where
  pub id : String
  pub background : ℕ
  pub body : ℕ
  pub accessory : ℕ
  pub head : ℕ
  pub glasses : ℕ

pub record Word : Type 0 where
  pub id : String
  pub seed : Option String
  pub owner : Option String

pub record Bid : Type 0 where
  pub id : String
  pub word : String
  pub amount : ℕ
  pub bidder : Option String
  pub block_number : ℕ
  pub tx_index : ℕ
  pub auction : String
  pub block_timestamp : ℕ

pub record Auction : Type 0 where
  pub id : String
  pub word : String
  pub amount : ℕ
  pub start_time : ℕ
  pub end_time : ℕ
  pub bidder : Option String
  pub settled : Bool

pub record Account : Type 0 where
  pub id : String
  pub delegate : Option String
  pub token_balance_raw : ℤ
  pub token_balance : ℤ
  pub total_tokens_held_raw : ℤ
  pub total_tokens_held : ℤ
  pub words : List String

-- `tokenHoldersRepresentedAmount` is an `Int`, a signed register of 32 bits.
pub record Delegate : Type 0 where
  pub id : String
  pub delegated_votes_raw : ℤ
  pub delegated_votes : ℤ
  pub token_holders_represented_amount : ℤ
  pub words_represented : List String

pub data ProposalStatus : Type 0 where
  pending active cancelled vetoed queued executed : ProposalStatus

pub record Proposal : Type 0 where
  pub id : String
  pub proposer : Option String
  pub targets : Option (List String)
  pub values : Option (List ℕ)
  pub signatures : Option (List String)
  pub calldatas : Option (List String)
  pub created_timestamp : Option ℕ
  pub start_block : Option ℕ
  pub end_block : Option ℕ
  pub proposal_threshold : Option ℕ
  pub quorum_votes : Option ℕ
  pub description : Option (List ℕ)
  pub status : Option ProposalStatus
  pub execution_eta : Option ℕ

pub record Vote : Type 0 where
  pub id : String
  pub support : Option Bool
  pub support_detailed : Option ℕ
  pub votes_raw : Option ℕ
  pub votes : Option ℕ
  pub voter : Option String
  pub words : Option (List String)
  pub proposal : Option String

pub record Governance : Type 0 where
  pub proposals : ℤ
  pub current_token_holders : ℤ
  pub current_delegates : ℤ
  pub total_token_holders : ℤ
  pub total_delegates : ℤ
  pub delegated_votes_raw : ℤ
  pub delegated_votes : ℤ
  pub proposals_queued : ℤ

-- What the handlers report by `log.error`.
pub data LogError : Type 0 where
  word_not_found : String → LogError
  auction_not_found : String → LogError
  delegate_not_found : String → LogError
  negative_balance : String → ℤ → LogError

-- The one governance entity has the id "GOVERNANCE"; `none` says that it was never saved.
pub record Store : Type 0 where
  pub seeds : Table Seed
  pub words : Table Word
  pub bids : Table Bid
  pub auctions : Table Auction
  pub accounts : Table Account
  pub delegates : Table Delegate
  pub proposals : Table Proposal
  pub votes : Table Vote
  pub governance : Option Governance
  pub errors : List LogError

abbrev pub empty_store : Store
empty_store = record {
  seeds = [];
  words = [];
  bids = [];
  auctions = [];
  accounts = [];
  delegates = [];
  proposals = [];
  votes = [];
  governance = none;
  errors = [];
}

abbrev pub log_error : LogError → Store → Store
log_error e s = record s { errors = s.errors ++ e ∷ [] }
