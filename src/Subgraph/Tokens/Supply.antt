-- ===== src/Subgraph/Tokens/Supply.antt =====
-- Sums over all accounts, before and after a transfer.
use web3_nft.Prelude.{
  String, ◌≡◌, refl, sym, ap, ◌∙◌, ◌≢◌, inl, inr, arith, str_eq, eq_iff, if◌then◌else◌, Bool-cases,
  Option-cases, some, ℤ, pos, ◌+ℤ◌, parts_of_eq, int_laws,
}
use web3_nft.Table.{Table, lookup, insert, lookup-insert_ne}
use web3_nft.Table.Totals.{total, weight_of, total-insert}
use web3_nft.Subgraph.Schema.{zero_address, Account, Store}
use web3_nft.Subgraph.Helpers.{new_account, get_or_create_account, get_or_create_delegate}
use web3_nft.Subgraph.Helpers.Views.{
  account_in, account_at, account_at-id, AccountsAreKeyed, get_or_create_account-total,
  get_or_create_account-value, get_or_create_account-view, get_or_create_delegate-frame,
}
use web3_nft.Subgraph.Tokens.{
  Transfer, DelegateChanged, debit, credit, handle_transfer, handle_delegate_changed,
}
use web3_nft.Subgraph.Tokens.Accounts.{loaded, loaded-view, transfer-accounts, mint-accounts}

-- A weight of accounts under which an account that was just created weighs nothing.
module _ (weight : Account → ℤ) (fresh : (id : String) → weight (new_account id) ≡ pos 0) where
  weight_of-lookup :
      (t : Table Account) (id : String) → weight_of weight (lookup id t) ≡ weight (account_in t id)
  weight_of-lookup t id = elim (Option-cases (lookup id t)) [
    | inl e ↦ rw e (sym (fresh id))
    | inr (a, e) ↦ rw e
  ]

  module _ (event : Transfer) (s : Store) (h : AccountsAreKeyed s) where
    abbrev sum : Store → ℤ
    sum t = total weight t.accounts

    loaded-total : sum (loaded event s) ≡ sum s
    loaded-total =
        get_or_create_account-total event.target (get_or_create_account event.source s).1 weight
          (fresh event.target)
        ∙ get_or_create_account-total event.source s weight (fresh event.source)

    loaded-weight :
        (id : String)
        → weight_of weight (lookup id (loaded event s).accounts) ≡ weight (account_at s id)
    loaded-weight id =
        weight_of-lookup (loaded event s).accounts id ∙ ap weight (loaded-view event s id)

    abbrev debited : Account
    debited = debit event.token_id (account_at s event.source)

    abbrev credited : Account
    credited = credit event.token_id (account_at s event.target)

    pub total-transfer :
        event.source ≢ zero_address
        → event.source ≢ event.target
        → sum (handle_transfer event s)
            +ℤ weight (account_at s event.source)
            +ℤ weight (account_at s event.target)
          ≡ sum s +ℤ weight debited +ℤ weight credited
    total-transfer ne other =
        let t = (loaded event s).accounts in
        let t₁ = insert event.source debited t in
        rw (transfer-accounts event s h ne) (
          omega (
            int_laws,
            parts_of_eq _ _ (total-insert weight event.target credited t₁),
            parts_of_eq _ _ (total-insert weight event.source debited t),
            parts_of_eq _ _ (
                ap (weight_of weight) (lookup-insert_ne event.source event.target debited t other)),
            parts_of_eq _ _ (loaded-weight event.source),
            parts_of_eq _ _ (loaded-weight event.target),
            parts_of_eq _ _ loaded-total,
          ))

    pub total-mint :
        event.source ≡ zero_address
        → sum (handle_transfer event s) +ℤ weight (account_at s event.target)
          ≡ sum s +ℤ weight credited
    total-mint e = rw (mint-accounts event s h e) (
        omega (
          int_laws,
          parts_of_eq _ _ (total-insert weight event.target credited (loaded event s).accounts),
          parts_of_eq _ _ (loaded-weight event.target),
          parts_of_eq _ _ loaded-total,
        ))

unfoldable pub supply : Store → ℤ
supply s = total (λ a. a.token_balance_raw) s.accounts

-- Between two different addresses, a mint (a transfer from the zero address) adds one to the sum of
-- all balances, and any other transfer leaves the sum as it is.
pub supply-transfer :
    (event : Transfer) (s : Store)
    → AccountsAreKeyed s
    → event.source ≢ event.target
    → supply (handle_transfer event s)
      ≡ (if str_eq event.source zero_address then supply s +ℤ pos 1 else supply s)
unfolding supply debit credit
supply-transfer event s h other = elim (Bool-cases (str_eq event.source zero_address)) [
  | inl e ↦ rw e (
      omega (
        int_laws,
        parts_of_eq _ _
            (total-mint (λ a. a.token_balance_raw) (λ _. refl) event s h ((eq_iff _ _).0 e)),
      ))
  | inr e ↦ rw e (
      omega (
        int_laws,
        parts_of_eq _ _ (
            total-transfer (λ a. a.token_balance_raw) (λ _. refl) event s h
              (ground (arith, eq_iff event.source zero_address)) other),
      ))
]

-- A change of delegate writes one account with the balance that it has.
module _ (event : DelegateChanged) (s : Store) (h : AccountsAreKeyed s) (f : ℤ → ℤ)
    (none_held : f (pos 0) ≡ pos 0) where
  abbrev of_balance : Account → ℤ
  of_balance a = f a.token_balance_raw

  pub delegate_changed-total :
      total of_balance (handle_delegate_changed event s).accounts ≡ total of_balance s.accounts
  unfolding handle_delegate_changed
  delegate_changed-total =
      let (holder, s₁) = get_or_create_account event.delegator s in
      let (previous, s₂) = get_or_create_delegate event.from_delegate s₁ in
      let (next, s₃) = get_or_create_delegate event.to_delegate s₂ in
      let same : s₃.accounts ≡ s₁.accounts =
        (get_or_create_delegate-frame event.to_delegate s₂).0
        ∙ (get_or_create_delegate-frame event.from_delegate s₁).0 in
      let held : holder ≡ account_at s event.delegator =
        get_or_create_account-value event.delegator s in
      let named : holder.id ≡ event.delegator =
        ap (λ (a : Account). a.id) held ∙ account_at-id s.accounts event.delegator h in
      let before : weight_of of_balance (lookup holder.id s₃.accounts) ≡ of_balance holder =
        ap (λ (t : Table Account). weight_of of_balance (lookup holder.id t)) same
        ∙ weight_of-lookup of_balance (λ _. none_held) s₁.accounts holder.id
        ∙ ap (λ id. of_balance (account_at s₁ id)) named
        ∙ ap of_balance (get_or_create_account-view event.delegator s event.delegator)
        ∙ sym (ap of_balance held) in
      omega (
        int_laws,
        parts_of_eq _ _ (
            total-insert of_balance holder.id (record holder { delegate = some next.id })
              s₃.accounts),
        parts_of_eq _ _ before,
        parts_of_eq _ _ (ap (total of_balance) same),
        parts_of_eq _ _ (get_or_create_account-total event.delegator s of_balance none_held),
      )
