-- ===== src/Subgraph/Tokens/Counters.antt =====
-- The counter of token holders, and the counters that a stale copy overwrites.
use web3_nft.Prelude.{
  String, ◌≡◌, refl, sym, ◌∙◌, ◌≢◌, inl, inr, Bool, true, false, Option, none, some, arith, str_eq,
  str_eq-eq, str_eq-ne, eq_iff, if◌then◌else◌, Bool-cases, ℤ, pos, ◌+ℤ◌, ◌-ℤ◌, ltb_ℤ, parts_of_eq,
  int_laws,
}
use web3_nft.Table.Totals.{total}
use web3_nft.Subgraph.Schema.{zero_address, Account, Store}
use web3_nft.Subgraph.Helpers.{get_governance_entity, get_or_create_account, get_or_create_delegate}
use web3_nft.Subgraph.Helpers.Views.{
  account_at, AccountsAreKeyed, get_or_create_account-value, get_or_create_account-frame,
}
use web3_nft.Subgraph.Tokens.{
  Transfer, Run, check_balance, count_minted, count_burned, represent, count_holder, unrepresent,
  debit, credit, give, receive, handle_transfer,
}
use web3_nft.Subgraph.Tokens.Accounts.{
  loaded, loaded_receiver, giver, receiver, start, before_receiver,
}
use web3_nft.Subgraph.Tokens.Supply.{total-transfer, total-mint}

abbrev pub holders : Store → ℤ
holders s = (get_governance_entity s).current_token_holders

pub holders-get_or_create_delegate :
    (id : String) (s : Store) → holders (get_or_create_delegate id s).1 ≡ holders s
unfolding get_governance_entity get_or_create_delegate
holders-get_or_create_delegate id s = ground arith

holders-unrepresent :
    (token : String) (o : Option String) (s : Store) → holders (unrepresent token o s) ≡ holders s
unfolding get_governance_entity unrepresent
holders-unrepresent token none s = refl
holders-unrepresent token (some id) s = holders-get_or_create_delegate id s

-- The copy of the governance entity agrees with the store on the holders.
abbrev IsFresh : Run → Type 0
IsFresh r = holders r.store ≡ r.governance.current_token_holders

-- The change that a balance going from one value to another makes to the number of holders.
abbrev pub holder_weight : Account → ℤ
holder_weight a = if ltb_ℤ (pos 0) a.token_balance_raw then pos 1 else pos 0

count_holder_up :
    (b : ℤ) (r : Run)
    → IsFresh r
    → IsFresh (count_holder b (b +ℤ pos 1) r)
      × (holders (count_holder b (b +ℤ pos 1) r).store +ℤ (if ltb_ℤ (pos 0) b then pos 1 else pos 0)
          ≡ holders r.store +ℤ (if ltb_ℤ (pos 0) (b +ℤ pos 1) then pos 1 else pos 0))
unfolding get_governance_entity ◌+ℤ◌
count_holder_up b r h = ground arith

count_holder_down :
    (b : ℤ) (r : Run)
    → IsFresh r
    → IsFresh (count_holder b (b -ℤ pos 1) r)
      × (holders (count_holder b (b -ℤ pos 1) r).store +ℤ (if ltb_ℤ (pos 0) b then pos 1 else pos 0)
          ≡ holders r.store +ℤ (if ltb_ℤ (pos 0) (b -ℤ pos 1) then pos 1 else pos 0))
unfolding get_governance_entity ◌+ℤ◌ ◌-ℤ◌
count_holder_down b r h = ground arith

give-holders :
    (token : String) (a : Account) (r : Run)
    → IsFresh r
    → IsFresh (give token a r)
      × (holders (give token a r).store +ℤ holder_weight a
          ≡ holders r.store +ℤ holder_weight (debit token a))
unfolding give get_governance_entity
give-holders token a r h =
    let r₁ : Run = record {
      store = check_balance (debit token a) (unrepresent token a.delegate r.store);
      governance = r.governance;
    } in
    let fresh : IsFresh r₁ = ground (arith, holders-unrepresent token a.delegate r.store) in
    let down = count_holder_down a.token_balance_raw r₁ fresh in
    let same : holders r₁.store ≡ holders r.store =
      ground (arith, holders-unrepresent token a.delegate r.store) in
    (down.0, rw same at (down.1))

receive-holders :
    (token : String) (a : Account) (r : Run)
    → IsFresh r
    → holders (receive token a r) +ℤ holder_weight a
      ≡ holders r.store +ℤ holder_weight (credit token a)
unfolding receive get_governance_entity
receive-holders token a r h =
    let (d, s₁) = get_or_create_delegate a.id r.store in
    let r₁ : Run = record { store = represent token d s₁; governance = r.governance } in
    let same = holders-get_or_create_delegate a.id r.store in
    let up = count_holder_up a.token_balance_raw r₁ (same ∙ h) in rw same at (up.1)

count_minted-holders :
    (r : Run)
    → IsFresh r
    → IsFresh (count_minted r) × (holders (count_minted r).store ≡ holders r.store)
unfolding get_governance_entity
count_minted-holders r h = (refl, sym h)

burn-holders :
    (b : Bool) (r : Run)
    → IsFresh r
    → IsFresh (if b then count_burned r else r)
      × (holders (if b then count_burned r else r).store ≡ holders r.store)
unfolding get_governance_entity
burn-holders true r h = (refl, sym h)
burn-holders false r h = (h, refl)

unfoldable pub holders_in : Store → ℤ
holders_in s = total holder_weight s.accounts

-- The holder counter equals the number of accounts with a positive balance.
abbrev pub HoldersCounted : Store → Type 0
HoldersCounted s = holders s ≡ holders_in s

-- `h` counts and `s` sums; each goes from its old value by the same weights.
books_of_mint :
    (h h₁ h₂ s s₂ a₀ a₁ : ℤ) → h₂ +ℤ a₀ ≡ h₁ +ℤ a₁ → h₁ ≡ h → s₂ +ℤ a₀ ≡ s +ℤ a₁ → h ≡ s → h₂ ≡ s₂
books_of_mint h h₁ h₂ s s₂ a₀ a₁ p q r e =
    omega (int_laws, parts_of_eq _ _ p, parts_of_eq _ _ q, parts_of_eq _ _ r, parts_of_eq _ _ e)

books_of_transfer :
    (h h₁ h₂ s s₂ a₀ a₁ g₀ g₁ : ℤ)
    → h₂ +ℤ a₀ ≡ h₁ +ℤ a₁
    → h₁ +ℤ g₀ ≡ h +ℤ g₁
    → s₂ +ℤ g₀ +ℤ a₀ ≡ s +ℤ g₁ +ℤ a₁
    → h ≡ s
    → h₂ ≡ s₂
books_of_transfer h h₁ h₂ s s₂ a₀ a₁ g₀ g₁ p q r e =
    omega (int_laws, parts_of_eq _ _ p, parts_of_eq _ _ q, parts_of_eq _ _ r, parts_of_eq _ _ e)

module _ (event : Transfer) (s : Store) where
  holders-loaded : holders (loaded event s) ≡ holders s
  unfolding get_governance_entity
  holders-loaded = ground (
    arith,
    get_or_create_account-frame event.source s,
    get_or_create_account-frame event.target (get_or_create_account event.source s).1,
  )

  start-IsFresh : IsFresh (start event s)
  unfolding get_governance_entity
  start-IsFresh = refl

  -- The stages before the receiver's, for a giver and for a mint.
  giver-holders :
      event.source ≢ zero_address
      → IsFresh (before_receiver event s)
        × (holders (before_receiver event s).store +ℤ holder_weight (account_at s event.source)
            ≡ holders s +ℤ holder_weight (debit event.token_id (account_at s event.source)))
  unfolding get_governance_entity
  giver-holders ne =
      let given = give-holders event.token_id (giver event s) (start event s) start-IsFresh in
      rw (str_eq-ne event.source zero_address ne) (
        let burned =
          burn-holders (str_eq event.target zero_address)
            (give event.token_id (giver event s) (start event s)) given.0 in
        (
          burned.0,
          rw (burned.1, ← get_or_create_account-value event.source s)
              (rw holders-loaded at (given.1)),
        ))

  mint-holders :
      event.source ≡ zero_address
      → IsFresh (before_receiver event s) × (holders (before_receiver event s).store ≡ holders s)
  unfolding get_governance_entity
  mint-holders e =
      let minted = count_minted-holders (start event s) start-IsFresh in
      rw (str_eq-eq event.source zero_address e) (
        let burned =
          burn-holders (str_eq event.target zero_address) (count_minted (start event s)) minted.0 in
        (burned.0, burned.1 ∙ minted.1 ∙ holders-loaded))

  receiver-holders :
      IsFresh (before_receiver event s)
      → holders (handle_transfer event s) +ℤ holder_weight (account_at s event.target)
        ≡ holders (before_receiver event s).store
          +ℤ holder_weight (credit event.token_id (account_at s event.target))
  unfolding handle_transfer receive
  receiver-holders fresh =
      rw (← loaded_receiver event s)
        (receive-holders event.token_id (receiver event s) (before_receiver event s) fresh)

  -- Whether a mint, a burn or a transfer between two addresses: where the counter of token holders
  -- was the number of accounts with a positive balance, it is so after the transfer.
  pub transfer-HoldersCounted :
      AccountsAreKeyed s
      → event.source ≢ event.target
      → HoldersCounted s
      → HoldersCounted (handle_transfer event s)
  unfolding holders_in
  transfer-HoldersCounted h other counted = elim (Bool-cases (str_eq event.source zero_address)) [
    | inl e ↦
        let zero_source = (eq_iff _ _).0 e in
        let (fresh, kept) = mint-holders zero_source in
        books_of_mint _ _ _ _ _ _ _ (receiver-holders fresh) kept
          (total-mint holder_weight (λ _. refl) event s h zero_source) counted
    | inr e ↦
        let ne : event.source ≢ zero_address = ground (arith, eq_iff event.source zero_address) in
        let (fresh, kept) = giver-holders ne in
        books_of_transfer _ _ _ _ _ _ _ _ _ (receiver-holders fresh) kept
          (total-transfer holder_weight (λ _. refl) event s h ne other) counted
  ]
