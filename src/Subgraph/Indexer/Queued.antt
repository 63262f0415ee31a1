-- ===== src/Subgraph/Indexer/Queued.antt =====
-- The counter of queued proposals over whole chains of events.
use web3_nft.Prelude.{String, ◌≡◌, sym, ap, ◌∙◌, ◌≢◌, Option, some, List, [], ◌∷◌, arith}
use mathlib.Core.Path.{subst, fun_ext}
use web3_nft.Table.{Table}
use web3_nft.Subgraph.Schema.{Proposal, Store, ProposalStatus, queued}
use web3_nft.Subgraph.Helpers.{get_governance_entity}
use web3_nft.Subgraph.Helpers.Views.{StoreIsKeyed}
use web3_nft.Subgraph.Auctions.Frames as AuctionFrames
use web3_nft.Subgraph.Tokens.Frames as TokenFrames
use web3_nft.Subgraph.Tokens.Keys as TokenKeys
use web3_nft.Subgraph.Tokens.Queue as TokenQueue
use web3_nft.Subgraph.Dao.Rows.{status_at}
use web3_nft.Subgraph.Dao.Status.{
  counter, queued_in, QueuedCounted, queued-QueuedCounted, executed-QueuedCounted,
}
use web3_nft.Subgraph.Dao.Queue.{
  created-QueuedCounted, vote-QueuedCounted, canceled-QueuedCounted, vetoed-QueuedCounted,
}
use web3_nft.Subgraph.Indexer.{
  Event, auction_created, auction_bid, auction_extended, auction_settled, word_created,
  delegate_changed, delegate_votes_changed, transfer, proposal_created, proposal_canceled,
  proposal_vetoed, proposal_queued, proposal_executed, vote_cast, handle, index,
}
use web3_nft.Subgraph.Indexer.Statuses.{evolve, handle-evolve}
use web3_nft.Subgraph.Indexer.Keys.{handle-StoreIsKeyed}

-- The statuses of all proposals.
abbrev pub Statuses : Type 0
Statuses = String → Option ProposalStatus

-- An event in the order of the DAO: only a proposal that is queued is executed, and one that is queued
-- is not queued, created, cancelled or vetoed.
unfoldable pub IsInOrder : Event → Statuses → Type 0
IsInOrder (proposal_created e) at = at e.id ≢ some queued
IsInOrder (proposal_canceled id) at = at id ≢ some queued
IsInOrder (proposal_vetoed id) at = at id ≢ some queued
IsInOrder (proposal_queued e) at = at e.id ≢ some queued
IsInOrder (proposal_executed id) at = at id ≡ some queued
IsInOrder _ at = Unit

-- Every event of the chain is in order, at the statuses that the ones before it make.
unfoldable pub AreInOrder : List Event → Statuses → Type 0
AreInOrder [] at = Unit
AreInOrder (e ∷ es) at = IsInOrder e at × AreInOrder es (λ j. evolve j e (at j))

-- Neither the proposals nor the counter change.
same-QueuedCounted :
    (s t : Store)
    → t.proposals ≡ s.proposals
    → counter t ≡ counter s
    → QueuedCounted s
    → QueuedCounted t
same-QueuedCounted s t rows same h =
    same ∙ h ∙ ap (λ (r : Table Proposal). queued_in (record s { proposals = r })) (sym rows)

counter_of_governance : (s t : Store) → t.governance ≡ s.governance → counter t ≡ counter s
unfolding get_governance_entity
counter_of_governance s t e = ground arith

module _ (s : Store) (k : StoreIsKeyed s) (h : QueuedCounted s) where
  elsewhere : {t : Store} → AuctionFrames.SameTokens s t → QueuedCounted t
  elsewhere {t} f = same-QueuedCounted s t f.proposals (counter_of_governance s t f.governance) h

  handle-QueuedCounted : (e : Event) → IsInOrder e (status_at s) → QueuedCounted (handle e s)
  unfolding handle IsInOrder
  handle-QueuedCounted (auction_created e) o = elsewhere (AuctionFrames.created-SameTokens e s)
  handle-QueuedCounted (auction_bid e) o = elsewhere (AuctionFrames.bid-SameTokens e s)
  handle-QueuedCounted (auction_extended e) o = elsewhere (AuctionFrames.extended-SameTokens e s)
  handle-QueuedCounted (auction_settled e) o = elsewhere (AuctionFrames.settled-SameTokens e s)
  handle-QueuedCounted (word_created e) o =
      same-QueuedCounted s _ (TokenKeys.word_created-frame e s).1
        (TokenQueue.word_created-counter e s) h
  handle-QueuedCounted (delegate_changed e) o =
      same-QueuedCounted s _ (TokenKeys.delegate_changed-frame e s).proposals
        (TokenQueue.delegate_changed-counter e s) h
  handle-QueuedCounted (delegate_votes_changed e) o =
      same-QueuedCounted s _ (TokenKeys.votes_changed-frame e s).proposals
        (TokenQueue.votes_changed-counter e s) h
  handle-QueuedCounted (transfer e) o =
      same-QueuedCounted s _ (TokenFrames.transfer-frame e s).1 (TokenQueue.transfer-counter e s) h
  handle-QueuedCounted (proposal_created e) o = created-QueuedCounted e s k.proposals o h
  handle-QueuedCounted (proposal_canceled id) o = canceled-QueuedCounted id s k.proposals o h
  handle-QueuedCounted (proposal_vetoed id) o = vetoed-QueuedCounted id s k.proposals o h
  handle-QueuedCounted (proposal_queued e) o = queued-QueuedCounted e s k.proposals o h
  handle-QueuedCounted (proposal_executed id) o = executed-QueuedCounted id s k.proposals o h
  handle-QueuedCounted (vote_cast e) o = vote-QueuedCounted e s k.proposals h

-- Over a chain of events of the three contracts in the order of the DAO, where only queued proposals
-- are executed and a queued one is not queued again, created again, cancelled or vetoed, the counter
-- stays the number of queued proposals.
pub index-QueuedCounted :
    (es : List Event) (s : Store)
    → StoreIsKeyed s
    → AreInOrder es (status_at s)
    → QueuedCounted s
    → QueuedCounted (index es s)
unfolding index AreInOrder
index-QueuedCounted [] s k o h = h
index-QueuedCounted (e ∷ es) s k (o, os) h =
    let later : (λ j. evolve j e (status_at s j)) ≡ status_at (handle e s) =
      fun_ext (λ j. sym (handle-evolve j e s k)) in
    index-QueuedCounted es (handle e s) (handle-StoreIsKeyed e s k) (subst (AreInOrder es) later os)
      (handle-QueuedCounted s k h e o)
