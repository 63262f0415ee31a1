-- ===== src/Subgraph/Tokens/Accounts.antt =====
-- How `handleTransfer` changes the table of accounts.
use web3_nft.Prelude.{
  String, ◌≡◌, refl, ap, ◌∙◌, ◌≢◌, Option, none, some, arith, str_eq, eq_iff, if◌then◌else◌,
}
use web3_nft.Table.{insert, lookup-insert}
use web3_nft.Subgraph.Schema.{zero_address, Account, Store}
use web3_nft.Subgraph.Helpers.{get_governance_entity, get_or_create_account}
use web3_nft.Subgraph.Helpers.Views.{
  account_at, AccountsAreKeyed, account_at-id, get_or_create_account-value,
  get_or_create_account-view, get_or_create_account-keyed, get_or_create_delegate-frame,
}
use web3_nft.Subgraph.Tokens.{
  Transfer, Run, unrepresent, count_minted, count_burned, debit, credit, give, receive,
  handle_transfer,
}

pub debit-id : (token : String) (a : Account) → (debit token a).id ≡ a.id
unfolding debit
debit-id token a = refl

pub credit-id : (token : String) (a : Account) → (credit token a).id ≡ a.id
unfolding credit
credit-id token a = refl

unrepresent-accounts :
    (token : String) (o : Option String) (s : Store) → (unrepresent token o s).accounts ≡ s.accounts
unfolding unrepresent
unrepresent-accounts token none s = refl
unrepresent-accounts token (some id) s = (get_or_create_delegate-frame id s).0

pub give-accounts :
    (token : String) (a : Account) (r : Run)
    → (give token a r).store.accounts ≡ insert a.id (debit token a) r.store.accounts
unfolding give
give-accounts token a r =
    ground (arith, debit-id token a, unrepresent-accounts token a.delegate r.store)

receive-accounts :
    (token : String) (a : Account) (r : Run)
    → (receive token a r).accounts ≡ insert a.id (credit token a) r.store.accounts
unfolding receive
receive-accounts token a r =
    ground (arith, credit-id token a, get_or_create_delegate-frame a.id r.store)

module _ (event : Transfer) (s : Store) where
  -- The store once both accounts were loaded or created.
  abbrev pub loaded : Store
  loaded = (get_or_create_account event.target (get_or_create_account event.source s).1).1

  pub loaded-view : (j : String) → account_at loaded j ≡ account_at s j
  loaded-view j =
      get_or_create_account-view event.target (get_or_create_account event.source s).1 j
      ∙ get_or_create_account-view event.source s j

  pub loaded-keyed : AccountsAreKeyed s → AccountsAreKeyed loaded
  loaded-keyed h =
      get_or_create_account-keyed event.target _ (get_or_create_account-keyed event.source s h)

  pub loaded_receiver :
      (get_or_create_account event.target (get_or_create_account event.source s).1).0
      ≡ account_at s event.target
  loaded_receiver =
      get_or_create_account-value event.target (get_or_create_account event.source s).1
      ∙ get_or_create_account-view event.source s event.target

  abbrev pub giver : Account
  giver = (get_or_create_account event.source s).0

  abbrev pub receiver : Account
  receiver = (get_or_create_account event.target (get_or_create_account event.source s).1).0

  abbrev pub start : Run
  start = record { store = loaded; governance = get_governance_entity loaded }

  abbrev pub after_giver : Run
  after_giver =
      if str_eq event.source zero_address
      then count_minted start
      else give event.token_id giver start

  abbrev pub before_receiver : Run
  before_receiver =
      if str_eq event.target zero_address then count_burned after_giver else after_giver

  pub transfer_stages : handle_transfer event s ≡ receive event.token_id receiver before_receiver
  unfolding handle_transfer
  transfer_stages = refl

  module _ (h : AccountsAreKeyed s) where
    giver-id : giver.id ≡ event.source
    giver-id =
        ap (λ (a : Account). a.id) (get_or_create_account-value event.source s)
        ∙ account_at-id s.accounts event.source h

    receiver-id : receiver.id ≡ event.target
    receiver-id =
        ap (λ (a : Account). a.id) loaded_receiver ∙ account_at-id s.accounts event.target h

    pub transfer-accounts :
        event.source ≢ zero_address
        → (handle_transfer event s).accounts
          ≡ insert event.target (credit event.token_id (account_at s event.target)) (
              insert event.source
                (debit event.token_id (account_at s event.source))
                loaded.accounts)
    transfer-accounts ne = rw transfer_stages (
        ground (
          arith,
          eq_iff event.source zero_address,
          receive-accounts event.token_id receiver before_receiver,
          give-accounts event.token_id giver start,
          giver-id,
          receiver-id,
          get_or_create_account-value event.source s,
          loaded_receiver,
        ))

    pub mint-accounts :
        event.source ≡ zero_address
        → (handle_transfer event s).accounts
          ≡ insert event.target (credit event.token_id (account_at s event.target)) loaded.accounts
    mint-accounts e = rw transfer_stages (
        ground (
          arith,
          eq_iff event.source zero_address,
          receive-accounts event.token_id receiver before_receiver,
          receiver-id,
          loaded_receiver,
        ))

    pub account_at-transfer :
        event.source ≢ zero_address
        → (j : String)
        → account_at (handle_transfer event s) j ≡ (
            if str_eq event.target j
            then credit event.token_id (account_at s event.target)
            else if str_eq event.source j
            then debit event.token_id (account_at s event.source)
            else account_at s j)
    account_at-transfer ne j = rw (transfer-accounts ne) (
        ground (
          arith,
          lookup-insert event.target j (credit event.token_id (account_at s event.target)) (
              insert event.source (debit event.token_id (account_at s event.source))
                loaded.accounts),
          lookup-insert event.source j (debit event.token_id (account_at s event.source))
              loaded.accounts,
          loaded-view j,
        ))

    pub account_at-mint :
        event.source ≡ zero_address
        → (j : String)
        → account_at (handle_transfer event s) j ≡ (
            if str_eq event.target j
            then credit event.token_id (account_at s event.target)
            else account_at s j)
    account_at-mint e j = rw (mint-accounts e) (
        ground (
          arith,
          lookup-insert event.target j (credit event.token_id (account_at s event.target))
              loaded.accounts,
          loaded-view j,
        ))
