-- ===== src/Subgraph/Indexer/Statuses.antt =====
-- The status of a proposal as a function of the DAO's events about it alone.
use web3_nft.Prelude.{
  String, ◌≡◌, refl, ap, ◌∙◌, ◌&&◌, Option, some, List, [], ◌∷◌, arith, str_eq, leb, if◌then◌else◌,
}
use web3_nft.Subgraph.Schema.{
  Store, ProposalStatus, pending, active, cancelled, vetoed, queued, executed,
}
use web3_nft.Subgraph.Helpers.Views.{StoreIsKeyed}
use web3_nft.Subgraph.Auctions.Frames as AuctionFrames
use web3_nft.Subgraph.Tokens.Frames as TokenFrames
use web3_nft.Subgraph.Tokens.Keys as TokenKeys
use web3_nft.Subgraph.Dao.{is_pending}
use web3_nft.Subgraph.Dao.Rows.{
  status_at, created_row, canceled-status, vetoed-status, executed-status, queued-status,
}
use web3_nft.Subgraph.Dao.Status.{vote-status}
use web3_nft.Subgraph.Indexer.{
  Event, auction_created, auction_bid, auction_extended, auction_settled, word_created,
  delegate_changed, delegate_votes_changed, transfer, proposal_created, proposal_canceled,
  proposal_vetoed, proposal_queued, proposal_executed, vote_cast, handle, index,
}
use web3_nft.Subgraph.Indexer.Keys.{handle-StoreIsKeyed}

-- The status that one event gives to a proposal: no other contract takes part.
unfoldable pub evolve : String → Event → Option ProposalStatus → Option ProposalStatus
evolve j (proposal_created e) b =
    if str_eq e.id j then some (if leb e.start_block e.block_number then active else pending) else b
evolve j (proposal_canceled id) b = if str_eq id j then some cancelled else b
evolve j (proposal_vetoed id) b = if str_eq id j then some vetoed else b
evolve j (proposal_queued e) b = if str_eq e.id j then some queued else b
evolve j (proposal_executed id) b = if str_eq id j then some executed else b
evolve j (vote_cast e) b = if str_eq e.proposal_id j && is_pending b then some active else b
evolve j _ b = b

unfoldable pub evolve_all : String → List Event → Option ProposalStatus → Option ProposalStatus
evolve_all j [] b = b
evolve_all j (e ∷ es) b = evolve_all j es (evolve j e b)

pub handle-evolve :
    (j : String) (e : Event) (s : Store)
    → StoreIsKeyed s
    → status_at (handle e s) j ≡ evolve j e (status_at s j)
unfolding handle evolve
handle-evolve j (auction_created e) s h = ground (arith, AuctionFrames.created-SameTokens e s)
handle-evolve j (auction_bid e) s h = ground (arith, AuctionFrames.bid-SameTokens e s)
handle-evolve j (auction_extended e) s h = ground (arith, AuctionFrames.extended-SameTokens e s)
handle-evolve j (auction_settled e) s h = ground (arith, AuctionFrames.settled-SameTokens e s)
handle-evolve j (word_created e) s h = ground (arith, TokenKeys.word_created-frame e s)
handle-evolve j (delegate_changed e) s h = ground (arith, TokenKeys.delegate_changed-frame e s)
handle-evolve j (delegate_votes_changed e) s h = ground (arith, TokenKeys.votes_changed-frame e s)
handle-evolve j (transfer e) s h = ground (arith, TokenFrames.transfer-frame e s)
handle-evolve j (proposal_created e) s h = created_row e j s h.proposals
handle-evolve j (proposal_canceled id) s h = canceled-status id j s h.proposals
handle-evolve j (proposal_vetoed id) s h = vetoed-status id j s h.proposals
handle-evolve j (proposal_queued e) s h = queued-status e j s h.proposals
handle-evolve j (proposal_executed id) s h = executed-status id j s h.proposals
handle-evolve j (vote_cast e) s h = vote-status e s h.proposals j

-- From a store whose rows stand under their ids, after any run of events of the three contracts the
-- status of a proposal is what the DAO's events about that proposal alone make of its status before.
pub index-evolve :
    (j : String) (es : List Event) (s : Store)
    → StoreIsKeyed s
    → status_at (index es s) j ≡ evolve_all j es (status_at s j)
unfolding index evolve_all
index-evolve j [] s h = refl
index-evolve j (e ∷ es) s h =
    index-evolve j es (handle e s) (handle-StoreIsKeyed e s h)
    ∙ ap (evolve_all j es) (handle-evolve j e s h)
