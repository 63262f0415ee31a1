-- ===== src/Subgraph/Examples.antt =====
-- The theorems about the auctions, the token and the chains of events, applied to the sample store.
use web3_nft.Prelude.{
  String, ◌≡◌, refl, sym, ◌∙◌, inl, inr, some, List, [], ◌∷◌, ◌++◌, not, ◌&&◌, wrap_i32, arith,
  str_eq, if◌then◌else◌, includes, All, Bool-cases, pos, ◌+ℤ◌, ◌-ℤ◌,
}
use web3_nft.Table.{lookup}
use web3_nft.Table.Totals.{total}
use web3_nft.Subgraph.Schema.{zero_address, Delegate}
use web3_nft.Subgraph.Helpers.{get_governance_entity}
use web3_nft.Subgraph.Helpers.Views.{account_at, delegate_at}
use web3_nft.Subgraph.Auctions.Rows.{bidding}
use web3_nft.Subgraph.Tokens.{
  DelegateChanged, Transfer, handle_transfer, handle_delegate_changed,
  handle_delegate_votes_changed,
}
use web3_nft.Subgraph.Tokens.Balances.{balance, words_of, transfer_keeps_listed}
use web3_nft.Subgraph.Tokens.Supply.{supply}
use web3_nft.Subgraph.Indexer.Supplies.{IsApart, all_mints, index-supply}
use web3_nft.Subgraph.Tokens.Counters.{HoldersCounted, holders_in}
use web3_nft.Subgraph.Indexer.Holders.{index-HoldersCounted}
use web3_nft.Subgraph.Tokens.StaleCopies.{total_delegates, transfer_uncounted_delegate}
use web3_nft.Subgraph.Tokens.Delegation.{delegate_changed_moves}
use web3_nft.Subgraph.Tokens.Votes.{VotesCounted, votes_changed-VotesCounted}
use web3_nft.Subgraph.Indexer.{Event, auction_bid, transfer, index}
use web3_nft.Subgraph.Indexer.Biddings.{follow_all, index-follow}
use web3_nft.Subgraph.Tokens.Ownership.{owner_at, owned_by}
use web3_nft.Subgraph.Indexer.Ownership.{
  own, own_all, IsOfOwner, AreOfOwners, IsBalanced, index-IsBalanced,
}
use web3_nft.Subgraph.Samples.{
  differ, small_store, small_store-StoreIsKeyed, word-IsKnown, sale, offer, events,
}

index-follow_example :
    bidding "7" (index events small_store) ≡ follow_all "7" events (bidding "7" small_store)
index-follow_example = index-follow "7" events small_store small_store-StoreIsKeyed word-IsKnown

one_holder : HoldersCounted small_store
unfolding holders_in get_governance_entity total ◌+ℤ◌
one_holder = refl

one_vote : VotesCounted small_store
unfolding get_governance_entity total ◌+ℤ◌
one_vote = record { votes = refl; delegates = refl }

votes_changed-VotesCounted_example : VotesCounted (
    handle_delegate_votes_changed
      (record { delegate = "0xaa"; previous_balance = 1; new_balance = 0 })
      small_store)
unfolding lookup
votes_changed-VotesCounted_example =
    votes_changed-VotesCounted (record { delegate = "0xaa"; previous_balance = 1; new_balance = 0 })
      small_store (refl, tt) refl (omega arith) one_vote

abbrev handover : DelegateChanged
handover = record { delegator = "0xaa"; from_delegate = "0xaa"; to_delegate = "0xbb" }

transfer_uncounted_delegate_example :
    (total_delegates (handle_transfer sale small_store) ≡ total_delegates small_store)
    × ((d : Delegate) × (lookup "0xbb" (handle_transfer sale small_store).delegates ≡ some d))
unfolding lookup
transfer_uncounted_delegate_example =
    transfer_uncounted_delegate sale small_store (refl, tt) (refl, tt) refl

abbrev minting : Transfer
minting = record { source = zero_address; target = "0xbb"; token_id = "8" }

abbrev trades : List Event
trades = auction_bid offer ∷ transfer sale ∷ transfer minting ∷ []

trades-AreOfOwners : AreOfOwners trades (owner_at small_store)
unfolding AreOfOwners IsOfOwner own lookup
trades-AreOfOwners =
    (tt, ((differ "0xaa" "0xbb" refl, refl), ((differ zero_address "0xbb" refl, refl), tt)))

owned_aa : (j : String) → owned_by j small_store ≡ (if str_eq "0xaa" j then pos 1 else pos 0)
unfolding owned_by total ◌+ℤ◌
owned_aa j = elim (Bool-cases (str_eq "0xaa" j)) [ inl e ↦ rw e refl | inr e ↦ rw e refl ]

balance_aa : (j : String) → balance small_store j ≡ (if str_eq "0xaa" j then pos 1 else pos 0)
unfolding lookup
balance_aa j = ground arith

small_store-IsBalanced : IsBalanced small_store
small_store-IsBalanced = record {
  keyed = (refl, tt);
  balances = λ j. balance_aa j ∙ sym (owned_aa j);
}

index-IsBalanced_example :
    IsBalanced (index trades small_store)
    × ((w : String)
        → owner_at (index trades small_store) w ≡ own_all trades (owner_at small_store) w)
index-IsBalanced_example =
    index-IsBalanced trades small_store small_store-StoreIsKeyed trades-AreOfOwners
      small_store-IsBalanced

trades-IsApart : All IsApart trades
unfolding IsApart
trades-IsApart = (tt, (differ "0xaa" "0xbb" refl, (differ zero_address "0xbb" refl, tt)))

index-supply_example : supply (index trades small_store) ≡ supply small_store +ℤ all_mints trades
index-supply_example = index-supply trades small_store small_store-StoreIsKeyed trades-IsApart

index-HoldersCounted_example : HoldersCounted (index trades small_store)
index-HoldersCounted_example =
    index-HoldersCounted trades small_store small_store-StoreIsKeyed trades-IsApart one_holder

transfer_keeps_listed_example :
    (balance (handle_transfer sale small_store) "0xaa" ≡ balance small_store "0xaa" -ℤ pos 1)
    × (balance (handle_transfer sale small_store) "0xbb" ≡ balance small_store "0xbb" +ℤ pos 1)
    × (words_of (handle_transfer sale small_store) "0xaa" ≡ words_of small_store "0xaa")
    × (words_of (handle_transfer sale small_store) "0xbb" ≡ words_of small_store "0xbb" ++ "7" ∷ [])
    × (account_at (handle_transfer sale small_store) "0xcc" ≡ account_at small_store "0xcc")
transfer_keeps_listed_example =
    transfer_keeps_listed sale small_store (refl, tt) "0xcc" (differ "0xaa" zero_address refl)
      (differ "0xaa" "0xbb" refl) (differ "0xcc" "0xaa" refl) (differ "0xcc" "0xbb" refl)

abbrev handed : String → Delegate
handed id = delegate_at (handle_delegate_changed handover small_store) id

delegate_changed_moves_example :
    ((handed "0xaa").token_holders_represented_amount
      ≡ wrap_i32 ((delegate_at small_store "0xaa").token_holders_represented_amount -ℤ pos 1))
    × (includes "7" (handed "0xaa").words_represented ≡ (
        includes "7" (delegate_at small_store "0xaa").words_represented
        && not (includes "7" (account_at small_store "0xaa").words)))
    × ((handed "0xbb").token_holders_represented_amount
        ≡ wrap_i32 ((delegate_at small_store "0xbb").token_holders_represented_amount +ℤ pos 1))
    × ((handed "0xbb").words_represented
        ≡ (delegate_at small_store "0xbb").words_represented
          ++ (account_at small_store "0xaa").words)
    × (handed "0xcc" ≡ delegate_at small_store "0xcc")
delegate_changed_moves_example =
    delegate_changed_moves handover small_store (refl, tt) "0xcc" "7" (differ "0xaa" "0xbb" refl)
      (differ "0xcc" "0xaa" refl) (differ "0xcc" "0xbb" refl)
