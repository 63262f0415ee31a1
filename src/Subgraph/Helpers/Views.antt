-- ===== src/Subgraph/Helpers/Views.antt =====
-- What the store says of an id, a missing row being a new entity, and how the load-or-create
-- functions leave that view as it is.
use web3_nft.Prelude.{
  String, ◌≡◌, ap, ◌≢◌, inl, inr, none, arith, str_eq, eq_iff, if◌then◌else◌, Option-cases, or_else,
  ℤ, pos, parts_of_eq, int_laws,
}
use web3_nft.Table.{Table, lookup, insert, lookup-insert}
use web3_nft.Table.Keys.{IsKeyed, lookup-IsKeyed, insert-IsKeyed}
use web3_nft.Table.Totals.{total, weight_of, total-insert}
use web3_nft.Subgraph.Schema.{Auction, Account, Delegate, Proposal, Store}
use web3_nft.Subgraph.Helpers.{
  new_account, new_delegate, get_or_create_account, get_or_create_delegate, get_or_create_proposal,
}

abbrev pub account_in : Table Account → String → Account
account_in t id = or_else (lookup id t) (new_account id)

abbrev pub account_at : Store → String → Account
account_at s id = account_in s.accounts id

abbrev pub delegate_in : Table Delegate → String → Delegate
delegate_in t id = or_else (lookup id t) (new_delegate id)

abbrev pub delegate_at : Store → String → Delegate
delegate_at s id = delegate_in s.delegates id

pub delegate_in-insert :
    (t : Table Delegate) (d : Delegate) (j : String)
    → d.id ≡ j
    → delegate_in (insert d.id d t) j ≡ d
delegate_in-insert t d j e = ground (arith, lookup-insert d.id j d t, eq_iff d.id j)

abbrev pub AccountsAreKeyed : Store → Type 0
AccountsAreKeyed s = IsKeyed (λ (a : Account). a.id) s.accounts

pub account_in-insert :
    (t : Table Account) (a : Account) (j : String)
    → account_in (insert a.id a t) j ≡ (if str_eq a.id j then a else account_in t j)
account_in-insert t a j = ground (arith, lookup-insert a.id j a t)

pub account_at-id :
    (t : Table Account) (id : String)
    → IsKeyed (λ (a : Account). a.id) t
    → (account_in t id).id ≡ id
account_at-id t id h = elim (Option-cases (lookup id t)) [
  | inl e ↦ rw e
  | inr (a, e) ↦ rw e (lookup-IsKeyed (λ (b : Account). b.id) id t h e)
]

module _ (id : String) (s : Store) where
  pub get_or_create_account-value : (get_or_create_account id s).0 ≡ account_at s id
  unfolding get_or_create_account
  get_or_create_account-value = ground arith

  -- Creating an account does not change what the store says of any id.
  pub get_or_create_account-view :
      (j : String) → account_at (get_or_create_account id s).1 j ≡ account_at s j
  unfolding get_or_create_account
  get_or_create_account-view j =
      ground (arith, eq_iff id j, lookup-insert id j (new_account id) s.accounts)

  pub get_or_create_account-keyed :
      AccountsAreKeyed s → AccountsAreKeyed (get_or_create_account id s).1
  unfolding get_or_create_account
  get_or_create_account-keyed h =
      ground (arith, insert-IsKeyed (λ (a : Account). a.id) (new_account id) s.accounts)

  -- A new account weighs nothing where an empty account does.
  pub get_or_create_account-total :
      (weight : Account → ℤ)
      → weight (new_account id) ≡ pos 0
      → total weight (get_or_create_account id s).1.accounts ≡ total weight s.accounts
  unfolding get_or_create_account
  get_or_create_account-total weight h = elim (Option-cases (lookup id s.accounts)) [
    | inl e ↦
        rw (e, get_or_create_account)
          (omega (
            int_laws,
            parts_of_eq _ _ (total-insert weight id (new_account id) s.accounts),
            parts_of_eq _ _ (ap (weight_of weight) e),
            parts_of_eq _ _ h,
          ))
    | inr (a, e) ↦ rw (e, get_or_create_account)
  ]

  pub get_or_create_account-frame :
      ((get_or_create_account id s).1.governance ≡ s.governance)
      × ((get_or_create_account id s).1.delegates ≡ s.delegates)
      × ((get_or_create_account id s).1.auctions ≡ s.auctions)
      × ((get_or_create_account id s).1.words ≡ s.words)
      × ((get_or_create_account id s).1.proposals ≡ s.proposals)
      × ((get_or_create_account id s).1.bids ≡ s.bids)
      × ((get_or_create_account id s).1.errors ≡ s.errors)
  unfolding get_or_create_account
  get_or_create_account-frame = ground arith

  pub get_or_create_delegate-value : (get_or_create_delegate id s).0 ≡ delegate_at s id
  unfolding get_or_create_delegate
  get_or_create_delegate-value = ground arith

  -- Creating a delegate touches the delegates and the governance entity alone.
  pub get_or_create_delegate-frame :
      ((get_or_create_delegate id s).1.accounts ≡ s.accounts)
      × ((get_or_create_delegate id s).1.words ≡ s.words)
      × ((get_or_create_delegate id s).1.auctions ≡ s.auctions)
      × ((get_or_create_delegate id s).1.proposals ≡ s.proposals)
  unfolding get_or_create_delegate
  get_or_create_delegate-frame = ground arith

abbrev pub DelegatesAreKeyed : Store → Type 0
DelegatesAreKeyed s = IsKeyed (λ (d : Delegate). d.id) s.delegates

abbrev pub AuctionsAreKeyed : Store → Type 0
AuctionsAreKeyed s = IsKeyed (λ (a : Auction). a.id) s.auctions

abbrev pub ProposalsAreKeyed : Store → Type 0
ProposalsAreKeyed s = IsKeyed (λ (p : Proposal). p.id) s.proposals

module _ (id : String) (s : Store) where
  pub get_or_create_delegate-keyed :
      DelegatesAreKeyed s → DelegatesAreKeyed (get_or_create_delegate id s).1
  unfolding get_or_create_delegate
  get_or_create_delegate-keyed h =
      ground (arith, insert-IsKeyed (λ (d : Delegate). d.id) (new_delegate id) s.delegates)

  pub get_or_create_delegate-total :
      (weight : Delegate → ℤ)
      → weight (new_delegate id) ≡ pos 0
      → total weight (get_or_create_delegate id s).1.delegates ≡ total weight s.delegates
  unfolding get_or_create_delegate
  get_or_create_delegate-total weight h = elim (Option-cases (lookup id s.delegates)) [
    | inl e ↦
        rw (e, get_or_create_delegate)
          (omega (
            int_laws,
            parts_of_eq _ _ (total-insert weight id (new_delegate id) s.delegates),
            parts_of_eq _ _ (ap (weight_of weight) e),
            parts_of_eq _ _ h,
          ))
    | inr (a, e) ↦ rw (e, get_or_create_delegate)
  ]

  pub get_or_create_delegate-view :
      (j : String) → delegate_at (get_or_create_delegate id s).1 j ≡ delegate_at s j
  unfolding get_or_create_delegate
  get_or_create_delegate-view j =
      ground (arith, eq_iff id j, lookup-insert id j (new_delegate id) s.delegates)

  pub get_or_create_delegate-id : DelegatesAreKeyed s → (get_or_create_delegate id s).0.id ≡ id
  unfolding get_or_create_delegate
  get_or_create_delegate-id h = elim (Option-cases (lookup id s.delegates)) [
    | inl e ↦ rw (e, get_or_create_delegate)
    | inr (d, e) ↦
        rw (e, get_or_create_delegate) (lookup-IsKeyed (λ (b : Delegate). b.id) id s.delegates h e)
  ]

  pub get_or_create_proposal-id : ProposalsAreKeyed s → (get_or_create_proposal id s).0.id ≡ id
  unfolding get_or_create_proposal
  get_or_create_proposal-id h = elim (Option-cases (lookup id s.proposals)) [
    | inl e ↦ rw (e, get_or_create_proposal)
    | inr (p, e) ↦
        rw (e, get_or_create_proposal) (lookup-IsKeyed (λ (q : Proposal). q.id) id s.proposals h e)
  ]

  pub get_or_create_proposal-frame :
      ((get_or_create_proposal id s).1.accounts ≡ s.accounts)
      × ((get_or_create_proposal id s).1.delegates ≡ s.delegates)
      × ((get_or_create_proposal id s).1.proposals ≡ s.proposals)
      × ((get_or_create_proposal id s).1.auctions ≡ s.auctions)
      × ((get_or_create_proposal id s).1.words ≡ s.words)
  unfolding get_or_create_proposal
  get_or_create_proposal-frame = ground arith

-- The rows of the store that handlers load and save again stand under their ids.
pub record StoreIsKeyed (s : Store) : Type 0 where
  pub accounts : AccountsAreKeyed s
  pub delegates : DelegatesAreKeyed s
  pub auctions : AuctionsAreKeyed s
  pub proposals : ProposalsAreKeyed s

-- The word has a row.
abbrev pub IsKnown : String → Store → Type 0
IsKnown word s = lookup word s.words ≢ none
