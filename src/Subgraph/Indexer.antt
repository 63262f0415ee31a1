-- ===== src/Subgraph/Indexer.antt =====
-- The indexer as a whole: the events of the three contracts in chain order, each given to its
-- handler (subgraph.yaml.mustache), and the run over a chain of events.
pub mod Keys
pub mod Biddings
pub mod Statuses
pub mod Queued
pub mod Ownership
pub mod Supplies
pub mod Holders
use web3_nft.Prelude.{◌-◌, String, List, [], ◌∷◌}
use web3_nft.Subgraph.Schema.{Store}
use web3_nft.Subgraph.Auctions.{
  AuctionCreated, AuctionBid, AuctionExtended, AuctionSettled, handle_auction_created,
  handle_auction_bid, handle_auction_extended, handle_auction_settled,
}
use web3_nft.Subgraph.Tokens.{
  WordCreated, DelegateChanged, DelegateVotesChanged, Transfer, handle_word_created,
  handle_delegate_changed, handle_delegate_votes_changed, handle_transfer,
}
use web3_nft.Subgraph.Dao.{
  ProposalCreated, ProposalQueued, VoteCast, handle_proposal_created, handle_proposal_canceled,
  handle_proposal_vetoed, handle_proposal_queued, handle_proposal_executed, handle_vote_cast,
}

pub data Event : Type 0 where
  auction_created : AuctionCreated → Event
  auction_bid : AuctionBid → Event
  auction_extended : AuctionExtended → Event
  auction_settled : AuctionSettled → Event
  word_created : WordCreated → Event
  delegate_changed : DelegateChanged → Event
  delegate_votes_changed : DelegateVotesChanged → Event
  transfer : Transfer → Event
  proposal_created : ProposalCreated → Event
  proposal_canceled : String → Event
  proposal_vetoed : String → Event
  proposal_queued : ProposalQueued → Event
  proposal_executed : String → Event
  vote_cast : VoteCast → Event

pub handle : Event → Store → Store
handle (auction_created e) = handle_auction_created e
handle (auction_bid e) = handle_auction_bid e
handle (auction_extended e) = handle_auction_extended e
handle (auction_settled e) = handle_auction_settled e
handle (word_created e) = handle_word_created e
handle (delegate_changed e) = handle_delegate_changed e
handle (delegate_votes_changed e) = handle_delegate_votes_changed e
handle (transfer e) = handle_transfer e
handle (proposal_created e) = handle_proposal_created e
handle (proposal_canceled id) = handle_proposal_canceled id
handle (proposal_vetoed id) = handle_proposal_vetoed id
handle (proposal_queued e) = handle_proposal_queued e
handle (proposal_executed id) = handle_proposal_executed id
handle (vote_cast e) = handle_vote_cast e

pub index : List Event → Store → Store
index [] s = s
index (e ∷ es) s = index es (handle e s)
