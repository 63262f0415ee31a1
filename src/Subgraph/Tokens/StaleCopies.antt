-- ===== src/Subgraph/Tokens/StaleCopies.antt =====
-- What a copy that is loaded early and saved late overwrites.
use web3_nft.Prelude.{
  String, ◌≡◌, refl, ap, ◌∙◌, Option, none, some, [], ◌∷◌, ◌++◌, arith, ℤ, pos, ◌+ℤ◌,
}
use web3_nft.Table.{lookup, lookup-insert_self}
use web3_nft.Table.Keys.{insert-IsKeyed}
use web3_nft.Subgraph.Schema.{Account, Delegate, Store}
use web3_nft.Subgraph.Helpers.{get_governance_entity, get_or_create_account, get_or_create_delegate}
use web3_nft.Subgraph.Helpers.Views.{
  account_at, AccountsAreKeyed, DelegatesAreKeyed, get_or_create_delegate-id,
  get_or_create_delegate-keyed, account_at-id, get_or_create_account-frame,
}
use web3_nft.Subgraph.Tokens.{Transfer, Run, give, receive, unrepresent, filtered, handle_transfer}
use web3_nft.Subgraph.Tokens.Accounts.{loaded_receiver, giver, receiver, start, before_receiver}

abbrev pub total_delegates : Store → ℤ
total_delegates s = (get_governance_entity s).total_delegates

give-total_delegates :
    (token : String) (a : Account) (r : Run)
    → (give token a r).governance.total_delegates ≡ r.governance.total_delegates
unfolding give
give-total_delegates token a r = ground arith

receive-total_delegates :
    (token : String) (a : Account) (r : Run)
    → a.token_balance_raw ≡ pos 0
    → total_delegates (receive token a r) ≡ r.governance.total_delegates
unfolding receive get_governance_entity ◌+ℤ◌
receive-total_delegates token a r e = rw e refl

receive-delegates :
    (token : String) (a : Account) (r : Run) (id : String)
    → a.id ≡ id
    → DelegatesAreKeyed r.store
    → (d : Delegate) × (lookup id (receive token a r).delegates ≡ some d)
unfolding receive
receive-delegates token a r id p h =
    let (d, s₁) = get_or_create_delegate a.id r.store in
    let d' = record d { words_represented = d.words_represented ++ token ∷ [] } in
    (
      d',
      rw (← p) (
          ground (
            arith,
            get_or_create_delegate-id a.id r.store h,
            lookup-insert_self a.id d' s₁.delegates,
          )),
    )

pub unrepresent-keyed :
    (token : String) (o : Option String) (s : Store)
    → DelegatesAreKeyed s
    → DelegatesAreKeyed (unrepresent token o s)
unfolding unrepresent
unrepresent-keyed token none s h = h
unrepresent-keyed token (some id) s h =
    let (d, s₁) = get_or_create_delegate id s in
    insert-IsKeyed (λ (x : Delegate). x.id)
      (record d { words_represented = filtered token d.words_represented }) s₁.delegates
      (get_or_create_delegate-keyed id s h)

pub give-keyed :
    (token : String) (a : Account) (r : Run)
    → DelegatesAreKeyed r.store
    → DelegatesAreKeyed (give token a r).store
unfolding give
give-keyed token a r h = ground (arith, unrepresent-keyed token a.delegate r.store h)

module _ (event : Transfer) (s : Store) where
  before_receiver-total_delegates :
      (before_receiver event s).governance.total_delegates ≡ total_delegates s
  unfolding get_governance_entity
  before_receiver-total_delegates = ground (
    arith,
    give-total_delegates event.token_id (giver event s) (start event s),
    get_or_create_account-frame event.source s,
    get_or_create_account-frame event.target (get_or_create_account event.source s).1,
  )

  pub before_receiver-keyed :
      DelegatesAreKeyed s → DelegatesAreKeyed (before_receiver event s).store
  before_receiver-keyed h = ground (
    arith,
    give-keyed event.token_id (giver event s) (start event s),
    get_or_create_account-frame event.source s,
    get_or_create_account-frame event.target (get_or_create_account event.source s).1,
  )

  -- A transfer to an address whose balance is 0 leaves it with a delegate row and does not count it:
  -- whether or not that row, or one of the giver's delegate, is created in the run, the number of
  -- delegates is what it was.
  pub transfer_uncounted_delegate :
      AccountsAreKeyed s
      → DelegatesAreKeyed s
      → (account_at s event.target).token_balance_raw ≡ pos 0
      → (total_delegates (handle_transfer event s) ≡ total_delegates s)
        × ((d : Delegate) × (lookup event.target (handle_transfer event s).delegates ≡ some d))
  unfolding handle_transfer
  transfer_uncounted_delegate h k empty =
      let same = loaded_receiver event s in
      let id : (receiver event s).id ≡ event.target =
        ap (λ (a : Account). a.id) same ∙ account_at-id s.accounts event.target h in
      (
        receive-total_delegates event.token_id (receiver event s) (before_receiver event s)
              (ap (λ (a : Account). a.token_balance_raw) same ∙ empty)
            ∙ before_receiver-total_delegates,
        receive-delegates event.token_id (receiver event s) (before_receiver event s) event.target
            id (before_receiver-keyed k),
      )
