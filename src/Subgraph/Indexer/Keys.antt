-- ===== src/Subgraph/Indexer/Keys.antt =====
-- Every handler keeps the rows under their ids.
use web3_nft.Prelude.{List, [], ◌∷◌}
use web3_nft.Subgraph.Schema.{Store}
use web3_nft.Subgraph.Helpers.Views.{StoreIsKeyed}
use web3_nft.Subgraph.Auctions.Frames as AuctionFrames
use web3_nft.Subgraph.Tokens.Frames as TokenFrames
use web3_nft.Subgraph.Tokens.Keys as TokenKeys
use web3_nft.Subgraph.Dao.Frames as DaoFrames
use web3_nft.Subgraph.Indexer.{
  Event, auction_created, auction_bid, auction_extended, auction_settled, word_created,
  delegate_changed, delegate_votes_changed, transfer, proposal_created, proposal_canceled,
  proposal_vetoed, proposal_queued, proposal_executed, vote_cast, handle, index,
}

-- Whatever the event, the handler keeps each account, delegate, auction and proposal under its id.
pub handle-StoreIsKeyed : (e : Event) (s : Store) → StoreIsKeyed s → StoreIsKeyed (handle e s)
unfolding handle
handle-StoreIsKeyed (auction_created e) s h = AuctionFrames.created-StoreIsKeyed e s h
handle-StoreIsKeyed (auction_bid e) s h = AuctionFrames.bid-StoreIsKeyed e s h
handle-StoreIsKeyed (auction_extended e) s h = AuctionFrames.extended-StoreIsKeyed e s h
handle-StoreIsKeyed (auction_settled e) s h = AuctionFrames.settled-StoreIsKeyed e s h
handle-StoreIsKeyed (word_created e) s h = TokenKeys.word_created-StoreIsKeyed e s h
handle-StoreIsKeyed (delegate_changed e) s h = TokenKeys.delegate_changed-StoreIsKeyed e s h
handle-StoreIsKeyed (delegate_votes_changed e) s h = TokenKeys.votes_changed-StoreIsKeyed e s h
handle-StoreIsKeyed (transfer e) s h = TokenFrames.transfer-StoreIsKeyed e s h
handle-StoreIsKeyed (proposal_created e) s h = DaoFrames.created-StoreIsKeyed e s h
handle-StoreIsKeyed (proposal_canceled id) s h = DaoFrames.canceled-StoreIsKeyed id s h
handle-StoreIsKeyed (proposal_vetoed id) s h = DaoFrames.vetoed-StoreIsKeyed id s h
handle-StoreIsKeyed (proposal_queued e) s h = DaoFrames.queued-StoreIsKeyed e s h
handle-StoreIsKeyed (proposal_executed id) s h = DaoFrames.executed-StoreIsKeyed id s h
handle-StoreIsKeyed (vote_cast e) s h = DaoFrames.vote-StoreIsKeyed e s h

-- So does any run of events.
pub index-StoreIsKeyed : (es : List Event) (s : Store) → StoreIsKeyed s → StoreIsKeyed (index es s)
unfolding index
index-StoreIsKeyed [] s h = h
index-StoreIsKeyed (e ∷ es) s h = index-StoreIsKeyed es (handle e s) (handle-StoreIsKeyed e s h)
