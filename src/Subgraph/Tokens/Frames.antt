-- ===== src/Subgraph/Tokens/Frames.antt =====
-- The tables that the token's handlers leave alone, and the keys that they keep.
use web3_nft.Prelude.{String, ◌≡◌, refl, ◌≢◌, Option, none, some, [], ◌∷◌, ◌++◌, arith}
use web3_nft.Table.{Table, lookup, insert, lookup-insert}
use web3_nft.Table.Keys.{insert-IsKeyed}
use web3_nft.Subgraph.Schema.{Account, Delegate, Word, Store}
use web3_nft.Subgraph.Helpers.{get_or_create_account, get_or_create_delegate}
use web3_nft.Subgraph.Helpers.Views.{
  AccountsAreKeyed, DelegatesAreKeyed, StoreIsKeyed, IsKnown, get_or_create_account-frame,
  get_or_create_delegate-frame, get_or_create_delegate-keyed,
}
use web3_nft.Subgraph.Tokens.{
  Transfer, Run, unrepresent, debit, credit, give, receive, handle_transfer,
}
use web3_nft.Subgraph.Tokens.Accounts.{
  giver, receiver, start, before_receiver, loaded-keyed, give-accounts, debit-id,
}
use web3_nft.Subgraph.Tokens.StaleCopies.{before_receiver-keyed}

-- Two stores agree on the auctions, the proposals and the words.
pub record SameElsewhere (s t : Store) : Type 0 where
  pub auctions : t.auctions ≡ s.auctions
  pub proposals : t.proposals ≡ s.proposals
  pub words : t.words ≡ s.words

unrepresent-frame :
    (token : String) (o : Option String) (s : Store) → SameElsewhere s (unrepresent token o s)
unfolding unrepresent
unrepresent-frame token none s = record { auctions = refl; proposals = refl; words = refl }
unrepresent-frame token (some id) s =
    let f = get_or_create_delegate-frame id s in
    record { auctions = f.2; proposals = f.3; words = f.1 }

give-frame : (token : String) (a : Account) (r : Run) → SameElsewhere r.store (give token a r).store
unfolding give
give-frame token a r = ground (arith, unrepresent-frame token a.delegate r.store)

give-AccountsAreKeyed :
    (token : String) (a : Account) (r : Run)
    → AccountsAreKeyed r.store
    → AccountsAreKeyed (give token a r).store
give-AccountsAreKeyed token a r h = ground (
  arith,
  give-accounts token a r,
  debit-id token a,
  insert-IsKeyed (λ (x : Account). x.id) (debit token a) r.store.accounts,
)

-- A write keeps the rows that a table has.
pub known-insert :
    (k : String) (v : Word) (t : Table Word) (w : String)
    → lookup w t ≢ none
    → lookup w (insert k v t) ≢ none
known-insert k v t w h = ground (arith, lookup-insert k w v t)

module _ (event : Transfer) (s : Store) where
  pub before_receiver-frame : SameElsewhere s (before_receiver event s).store
  before_receiver-frame = ground (
    arith,
    give-frame event.token_id (giver event s) (start event s),
    get_or_create_account-frame event.source s,
    get_or_create_account-frame event.target (get_or_create_account event.source s).1,
  )

  receive-frame :
      (r : Run)
      → ((receive event.token_id (receiver event s) r).auctions ≡ r.store.auctions)
        × ((receive event.token_id (receiver event s) r).proposals ≡ r.store.proposals)
  unfolding receive
  receive-frame r = ground (arith, get_or_create_delegate-frame (receiver event s).id r.store)

  pub transfer-frame :
      ((handle_transfer event s).auctions ≡ s.auctions)
      × ((handle_transfer event s).proposals ≡ s.proposals)
  unfolding handle_transfer
  transfer-frame = ground (arith, before_receiver-frame, receive-frame (before_receiver event s))

  receive-AccountsAreKeyed :
      (r : Run)
      → AccountsAreKeyed r.store
      → AccountsAreKeyed (receive event.token_id (receiver event s) r)
  unfolding receive
  receive-AccountsAreKeyed r h = ground (
    arith,
    get_or_create_delegate-frame (receiver event s).id r.store,
    insert-IsKeyed (λ (a : Account). a.id) (credit event.token_id (receiver event s))
        r.store.accounts,
  )

  receive-DelegatesAreKeyed :
      (r : Run)
      → DelegatesAreKeyed r.store
      → DelegatesAreKeyed (receive event.token_id (receiver event s) r)
  unfolding receive
  receive-DelegatesAreKeyed r h =
      let (d, s₁) = get_or_create_delegate (receiver event s).id r.store in
      ground (
        arith,
        get_or_create_delegate-keyed (receiver event s).id r.store h,
        insert-IsKeyed (λ (x : Delegate). x.id)
            (record d { words_represented = d.words_represented ++ event.token_id ∷ [] })
            s₁.delegates,
      )

  before_receiver-AccountsAreKeyed :
      AccountsAreKeyed s → AccountsAreKeyed (before_receiver event s).store
  before_receiver-AccountsAreKeyed h = ground (
    arith,
    loaded-keyed event s h,
    give-AccountsAreKeyed event.token_id (giver event s) (start event s),
  )

  pub transfer-StoreIsKeyed : StoreIsKeyed s → StoreIsKeyed (handle_transfer event s)
  unfolding handle_transfer
  transfer-StoreIsKeyed h = record {
    accounts =
        receive-AccountsAreKeyed (before_receiver event s)
          (before_receiver-AccountsAreKeyed h.accounts);
    delegates =
        receive-DelegatesAreKeyed (before_receiver event s)
          (before_receiver-keyed event s h.delegates);
    auctions = ground (arith, h.auctions, transfer-frame);
    proposals = ground (arith, h.proposals, transfer-frame);
  }

  receive-IsKnown :
      (w : String) (r : Run)
      → IsKnown w r.store
      → IsKnown w (receive event.token_id (receiver event s) r)
  unfolding receive
  receive-IsKnown w r known =
      known-insert _ _ _ w
        (ground (arith, get_or_create_delegate-frame (receiver event s).id r.store))

  pub transfer-IsKnown : (w : String) → IsKnown w s → IsKnown w (handle_transfer event s)
  unfolding handle_transfer
  transfer-IsKnown w known =
      receive-IsKnown w (before_receiver event s) (ground (arith, before_receiver-frame))
