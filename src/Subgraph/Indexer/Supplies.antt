-- ===== src/Subgraph/Indexer/Supplies.antt =====
-- The sum of all balances, over whole chains of events.
use web3_nft.Prelude.{
  ◌≡◌, refl, ap, ◌∙◌, ◌≢◌, inl, inr, List, [], ◌∷◌, str_eq, if◌then◌else◌, Bool-cases, All, ℤ, pos,
  ◌+ℤ◌, parts_of_eq, int_laws,
}
use web3_nft.Table.{Table}
use web3_nft.Table.Totals.{total}
use web3_nft.Subgraph.Schema.{zero_address, Account, Store}
use web3_nft.Subgraph.Helpers.Views.{StoreIsKeyed, get_or_create_account-total}
use web3_nft.Subgraph.Auctions.{AuctionBid, handle_auction_bid}
use web3_nft.Subgraph.Tokens.{DelegateChanged, Transfer, handle_delegate_changed, handle_transfer}
use web3_nft.Subgraph.Auctions.Accounts as AuctionAccounts
use web3_nft.Subgraph.Dao.Frames as DaoFrames
use web3_nft.Subgraph.Tokens.Keys as TokenKeys
use web3_nft.Subgraph.Tokens.Supply.{supply, supply-transfer, delegate_changed-total}
use web3_nft.Subgraph.Tokens.Holdings.{votes_changed-accounts}
use web3_nft.Subgraph.Indexer.{
  Event, auction_created, auction_bid, auction_extended, auction_settled, word_created,
  delegate_changed, delegate_votes_changed, transfer, proposal_created, proposal_canceled,
  proposal_vetoed, proposal_queued, proposal_executed, vote_cast, handle, index,
}
use web3_nft.Subgraph.Indexer.Keys.{handle-StoreIsKeyed}

-- How many words an event mints: a transfer from the zero address mints one.
unfoldable pub mints : Event → ℤ
mints (transfer e) = if str_eq e.source zero_address then pos 1 else pos 0
mints _ = pos 0

unfoldable pub all_mints : List Event → ℤ
unfolding mints
all_mints [] = pos 0
all_mints (e ∷ es) = mints e +ℤ all_mints es

-- A transfer is between two addresses.
unfoldable pub IsApart : Event → Type 0
IsApart (transfer e) = e.source ≢ e.target
IsApart _ = Unit

module _ (s : Store) (k : StoreIsKeyed s) where
  kept : (t : Store) → t.accounts ≡ s.accounts → supply t ≡ supply s +ℤ pos 0
  unfolding supply
  kept t e =
      let same : supply t ≡ supply s =
        ap (λ (rows : Table Account). total (λ a. a.token_balance_raw) rows) e in
      same ∙ omega int_laws

  bid_kept : (e : AuctionBid) → supply (handle_auction_bid e s) ≡ supply s +ℤ pos 0
  unfolding supply
  bid_kept e =
      let weight = λ (a : Account). a.token_balance_raw in
      ap (total weight) (AuctionAccounts.bid-accounts e s)
      ∙ get_or_create_account-total e.sender s weight refl
      ∙ omega int_laws

  changed_kept : (e : DelegateChanged) → supply (handle_delegate_changed e s) ≡ supply s +ℤ pos 0
  unfolding supply
  changed_kept e = delegate_changed-total e s k.accounts (λ z. z) refl ∙ omega int_laws

  transfer_supply :
      (e : Transfer)
      → e.source ≢ e.target
      → supply (handle_transfer e s)
        ≡ supply s +ℤ (if str_eq e.source zero_address then pos 1 else pos 0)
  transfer_supply e apart = elim (Bool-cases (str_eq e.source zero_address)) [
    | inl minted ↦ rw minted (supply-transfer e s k.accounts apart ∙ rw minted refl)
    | inr given ↦ rw given (supply-transfer e s k.accounts apart ∙ rw given (omega int_laws))
  ]

  handle-supply : (e : Event) → IsApart e → supply (handle e s) ≡ supply s +ℤ mints e
  unfolding handle mints IsApart
  handle-supply (auction_created e) o = kept _ (AuctionAccounts.created-accounts e s)
  handle-supply (auction_bid e) o = bid_kept e
  handle-supply (auction_extended e) o = kept _ (AuctionAccounts.extended-accounts e s)
  handle-supply (auction_settled e) o = kept _ (AuctionAccounts.settled-accounts e s)
  handle-supply (word_created e) o = kept _ (TokenKeys.word_created-frame e s).2
  handle-supply (delegate_changed e) o = changed_kept e
  handle-supply (delegate_votes_changed e) o = kept _ (votes_changed-accounts e s)
  handle-supply (transfer e) o = transfer_supply e o
  handle-supply (proposal_created e) o = kept _ ((DaoFrames.created-SameWords e s).accounts)
  handle-supply (proposal_canceled id) o = kept _ ((DaoFrames.canceled-SameWords id s).accounts)
  handle-supply (proposal_vetoed id) o = kept _ ((DaoFrames.vetoed-SameWords id s).accounts)
  handle-supply (proposal_queued e) o = kept _ ((DaoFrames.queued-SameWords e s).accounts)
  handle-supply (proposal_executed id) o = kept _ ((DaoFrames.executed-SameWords id s).accounts)
  handle-supply (vote_cast e) o = kept _ ((DaoFrames.vote-SameWords e s).accounts)

-- Over any chain of events of the three contracts whose transfers are between two addresses, from a
-- store whose rows stand under their ids, the sum of all balances grows by the words minted.
pub index-supply :
    (es : List Event) (s : Store)
    → StoreIsKeyed s
    → All IsApart es
    → supply (index es s) ≡ supply s +ℤ all_mints es
unfolding index all_mints
index-supply [] s k o = omega int_laws
index-supply (e ∷ es) s k (o, os) = omega (
  int_laws,
  parts_of_eq _ _ (index-supply es (handle e s) (handle-StoreIsKeyed e s k) os),
  parts_of_eq _ _ (handle-supply s k e o),
)
