-- ===== src/Subgraph/Indexer/Holders.antt =====
-- The counter of token holders over whole chains of events.
use web3_nft.Prelude.{◌≡◌, refl, sym, ap, ◌∙◌, List, [], ◌∷◌, arith, if◌then◌else◌, All, pos, ltb_ℤ}
use web3_nft.Table.{Table}
use web3_nft.Table.Totals.{total}
use web3_nft.Subgraph.Schema.{Account, Store}
use web3_nft.Subgraph.Helpers.{get_governance_entity}
use web3_nft.Subgraph.Helpers.Views.{StoreIsKeyed, get_or_create_account-total}
use web3_nft.Subgraph.Auctions.Accounts as AuctionAccounts
use web3_nft.Subgraph.Auctions.Frames as AuctionFrames
use web3_nft.Subgraph.Dao.Frames as DaoFrames
use web3_nft.Subgraph.Dao.HolderFrames as DaoHolders
use web3_nft.Subgraph.Tokens.Keys as TokenKeys
use web3_nft.Subgraph.Tokens.HolderFrames as TokenHolders
use web3_nft.Subgraph.Tokens.Supply.{delegate_changed-total}
use web3_nft.Subgraph.Tokens.Holdings.{votes_changed-accounts}
use web3_nft.Subgraph.Tokens.Counters.{
  holders, holder_weight, holders_in, HoldersCounted, transfer-HoldersCounted,
}
use web3_nft.Subgraph.Indexer.{
  Event, auction_created, auction_bid, auction_extended, auction_settled, word_created,
  delegate_changed, delegate_votes_changed, transfer, proposal_created, proposal_canceled,
  proposal_vetoed, proposal_queued, proposal_executed, vote_cast, handle, index,
}
use web3_nft.Subgraph.Indexer.Keys.{handle-StoreIsKeyed}
use web3_nft.Subgraph.Indexer.Supplies.{IsApart}

holders_of_governance : (s t : Store) → t.governance ≡ s.governance → holders t ≡ holders s
unfolding get_governance_entity
holders_of_governance s t e = ground arith

module _ (s : Store) (k : StoreIsKeyed s) (counted : HoldersCounted s) where
  same_books : (t : Store) → holders t ≡ holders s → holders_in t ≡ holders_in s → HoldersCounted t
  same_books t h n = h ∙ counted ∙ sym n

  same_accounts : (t : Store) → holders t ≡ holders s → t.accounts ≡ s.accounts → HoldersCounted t
  unfolding holders_in
  same_accounts t h rows = same_books t h (ap (λ (u : Table Account). total holder_weight u) rows)

  of_auction :
      (t : Store) → AuctionFrames.SameTokens s t → t.accounts ≡ s.accounts → HoldersCounted t
  of_auction t f = same_accounts t (holders_of_governance s t f.governance)

  of_bid : (e : _) → HoldersCounted (handle (auction_bid e) s)
  unfolding handle holders_in
  of_bid e =
      same_books _ (holders_of_governance s _ ((AuctionFrames.bid-SameTokens e s).governance)) (
        ap (total holder_weight) (AuctionAccounts.bid-accounts e s)
        ∙ get_or_create_account-total e.sender s holder_weight refl)

  of_delegation : (e : _) → HoldersCounted (handle (delegate_changed e) s)
  unfolding handle holders_in
  of_delegation e =
      same_books _ (TokenHolders.delegate_changed-holders e s)
        (delegate_changed-total e s k.accounts (λ z. if ltb_ℤ (pos 0) z then pos 1 else pos 0) refl)

  handle-HoldersCounted : (e : Event) → IsApart e → HoldersCounted (handle e s)
  unfolding handle IsApart
  handle-HoldersCounted (auction_created e) o =
      of_auction _ (AuctionFrames.created-SameTokens e s) (AuctionAccounts.created-accounts e s)
  handle-HoldersCounted (auction_bid e) o = of_bid e
  handle-HoldersCounted (auction_extended e) o =
      of_auction _ (AuctionFrames.extended-SameTokens e s) (AuctionAccounts.extended-accounts e s)
  handle-HoldersCounted (auction_settled e) o =
      of_auction _ (AuctionFrames.settled-SameTokens e s) (AuctionAccounts.settled-accounts e s)
  handle-HoldersCounted (word_created e) o =
      same_accounts _ (TokenHolders.word_created-holders e s) (TokenKeys.word_created-frame e s).2
  handle-HoldersCounted (delegate_changed e) o = of_delegation e
  handle-HoldersCounted (delegate_votes_changed e) o =
      same_accounts _ (TokenHolders.votes_changed-holders e s) (votes_changed-accounts e s)
  handle-HoldersCounted (transfer e) o = transfer-HoldersCounted e s k.accounts o counted
  handle-HoldersCounted (proposal_created e) o =
      same_accounts _ (DaoHolders.created-holders e s) ((DaoFrames.created-SameWords e s).accounts)
  handle-HoldersCounted (proposal_canceled id) o =
      same_accounts _ (DaoHolders.canceled-holders id s)
        ((DaoFrames.canceled-SameWords id s).accounts)
  handle-HoldersCounted (proposal_vetoed id) o =
      same_accounts _ (DaoHolders.vetoed-holders id s) ((DaoFrames.vetoed-SameWords id s).accounts)
  handle-HoldersCounted (proposal_queued e) o =
      same_accounts _ (DaoHolders.queued-holders e s) ((DaoFrames.queued-SameWords e s).accounts)
  handle-HoldersCounted (proposal_executed id) o =
      same_accounts _ (DaoHolders.executed-holders id s)
        ((DaoFrames.executed-SameWords id s).accounts)
  handle-HoldersCounted (vote_cast e) o =
      same_accounts _ (DaoHolders.vote-holders e s) ((DaoFrames.vote-SameWords e s).accounts)

-- Over any chain of events of the three contracts whose transfers are between two addresses, from a
-- store whose rows stand under their ids, the counter of token holders stays the number of accounts
-- with a positive balance.
pub index-HoldersCounted :
    (es : List Event) (s : Store)
    → StoreIsKeyed s
    → All IsApart es
    → HoldersCounted s
    → HoldersCounted (index es s)
unfolding index
index-HoldersCounted [] s k o counted = counted
index-HoldersCounted (e ∷ es) s k (o, os) counted =
    index-HoldersCounted es (handle e s) (handle-StoreIsKeyed e s k) os
      (handle-HoldersCounted s k counted e o)
