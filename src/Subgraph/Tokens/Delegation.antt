-- ===== src/Subgraph/Tokens/Delegation.antt =====
-- How `handleDelegateChanged` changes the delegates.
use web3_nft.Prelude.{
  String, ◌≡◌, refl, sym, ap, ◌∙◌, ◌≢◌, inl, inr, not, ◌&&◌, List, [], ◌∷◌, ◌++◌, arith, str_eq,
  eq_iff, Bool-cases, includes, or_else, pos, ◌+ℤ◌, ◌-ℤ◌, wrap_i32,
}
use mathlib.Core.Path.{ap₂}
use web3_nft.Table.{Table, insert, lookup-insert_ne}
use web3_nft.Subgraph.Schema.{Account, Delegate, Store}
use web3_nft.Subgraph.Helpers.{get_or_create_account, get_or_create_delegate, new_delegate}
use web3_nft.Subgraph.Helpers.Views.{
  account_at, delegate_at, DelegatesAreKeyed, get_or_create_delegate-id,
  get_or_create_delegate-keyed, get_or_create_account-value, get_or_create_account-frame,
  get_or_create_delegate-value, get_or_create_delegate-view, delegate_in, delegate_in-insert,
}
use web3_nft.Subgraph.Tokens.{
  without_all, represent_holder, unrepresent_holder, DelegateChanged, handle_delegate_changed,
}

-- The event of a holder that delegates to the delegate that it has.
abbrev pub redelegate : String → String → Store → Store
redelegate delegator delegate s =
    handle_delegate_changed
      (record { delegator = delegator; from_delegate = delegate; to_delegate = delegate }) s

lookup_other :
    (t : Table Delegate) (d : Delegate) (j : String)
    → d.id ≢ j
    → delegate_in (insert d.id d t) j ≡ delegate_in t j
lookup_other t d j n = ap (λ o. or_else o (new_delegate j)) (lookup-insert_ne d.id j d t n)

-- A word is left by the filter where it was listed and is none of the removed ones.
includes-without_all :
    (w : String) (removed ns : List String)
    → includes w (without_all removed ns) ≡ (includes w ns && not (includes w removed))
unfolding includes without_all
includes-without_all w removed [] = refl
includes-without_all w removed (n ∷ ns) =
    let rest = includes-without_all w removed ns in
    elim (Bool-cases (str_eq w n)) [
      | inl e ↦
          let same : includes n removed ≡ includes w removed =
            ap (λ t. includes t removed) (sym ((eq_iff w n).0 e)) in
          ground (arith, same, e, rest)
      | inr e ↦ ground (arith, e, rest)
    ]

module _ (event : DelegateChanged) (s : Store) (h : DelegatesAreKeyed s) where
  abbrev holder : Account
  holder = (get_or_create_account event.delegator s).0

  abbrev with_holder : Store
  with_holder = (get_or_create_account event.delegator s).1

  abbrev with_previous : Store
  with_previous = (get_or_create_delegate event.from_delegate with_holder).1

  abbrev next : Delegate
  next = (get_or_create_delegate event.to_delegate with_previous).0

  next-value : next ≡ delegate_at s event.to_delegate
  next-value =
      get_or_create_delegate-value event.to_delegate with_previous
      ∙ get_or_create_delegate-view event.from_delegate with_holder event.to_delegate
      ∙ ap (λ (t : Table Delegate). delegate_in t event.to_delegate)
          (get_or_create_account-frame event.delegator s).1

  with_holder-keyed : DelegatesAreKeyed with_holder
  with_holder-keyed = ground (arith, get_or_create_account-frame event.delegator s)

  next-id : next.id ≡ event.to_delegate
  next-id =
      get_or_create_delegate-id event.to_delegate with_previous
        (get_or_create_delegate-keyed event.from_delegate with_holder with_holder-keyed)

  -- The new delegate gains the holder and its words, whoever the previous one is.
  pub to_delegate-changed :
      delegate_at (handle_delegate_changed event s) event.to_delegate
      ≡ represent_holder (account_at s event.delegator).words (delegate_at s event.to_delegate)
  unfolding handle_delegate_changed
  to_delegate-changed =
      delegate_in-insert _ (represent_holder holder.words next) event.to_delegate next-id
      ∙ ap₂ (λ (a : Account) (d : Delegate). represent_holder a.words d)
          (get_or_create_account-value event.delegator s) next-value

  abbrev previous : Delegate
  previous = (get_or_create_delegate event.from_delegate with_holder).0

  previous-value : previous ≡ delegate_at s event.from_delegate
  previous-value =
      get_or_create_delegate-value event.from_delegate with_holder
      ∙ ap (λ (t : Table Delegate). delegate_in t event.from_delegate)
          (get_or_create_account-frame event.delegator s).1

  previous-id : previous.id ≡ event.from_delegate
  previous-id = get_or_create_delegate-id event.from_delegate with_holder with_holder-keyed

  -- The rows as they stand before the two delegates are saved.
  loaded_delegates-view :
      (j : String)
      → delegate_at (get_or_create_delegate event.to_delegate with_previous).1 j ≡ delegate_at s j
  loaded_delegates-view j =
      get_or_create_delegate-view event.to_delegate with_previous j
      ∙ get_or_create_delegate-view event.from_delegate with_holder j
      ∙ ap (λ (t : Table Delegate). delegate_in t j)
          (get_or_create_account-frame event.delegator s).1

  -- The rows of the old delegate, of the new one and of any other one `j`.
  changed_rows :
      (j : String)
      → event.from_delegate ≢ event.to_delegate
      → j ≢ event.from_delegate
      → j ≢ event.to_delegate
      → (delegate_at (handle_delegate_changed event s) event.from_delegate
          ≡ unrepresent_holder
              (account_at s event.delegator).words
              (delegate_at s event.from_delegate))
        × (delegate_at (handle_delegate_changed event s) j ≡ delegate_at s j)
  unfolding handle_delegate_changed
  changed_rows j other n m =
      let words = holder.words in
      let t = (get_or_create_delegate event.to_delegate with_previous).1.delegates in
      let t₁ = insert previous.id (unrepresent_holder words previous) t in
      let lost : Delegate = unrepresent_holder words previous in
      let won : Delegate = represent_holder words next in
      (
        lookup_other t₁ won event.from_delegate (λ e. other (sym e ∙ next-id))
            ∙ delegate_in-insert t lost event.from_delegate previous-id
            ∙ ap₂ (λ (a : Account) (d : Delegate). unrepresent_holder a.words d)
                (get_or_create_account-value event.delegator s) previous-value,
        lookup_other t₁ won j (λ e. m (sym e ∙ next-id))
            ∙ lookup_other t lost j (λ e. n (sym e ∙ previous-id))
            ∙ loaded_delegates-view j,
      )

  abbrev after : String → Delegate
  after id = delegate_at (handle_delegate_changed event s) id

  -- Where the two delegates differ, the old one represents one holder less and the new one one more,
  -- in registers of 32 bits. Of the old one's words those that the holder lists are gone and every
  -- other word `w` is left; the holder's list is added at the end of the new one's. Any other delegate
  -- `j` is unchanged.
  pub delegate_changed_moves :
      (j w : String)
      → event.from_delegate ≢ event.to_delegate
      → j ≢ event.from_delegate
      → j ≢ event.to_delegate
      → ((after event.from_delegate).token_holders_represented_amount
          ≡ wrap_i32
              ((delegate_at s event.from_delegate).token_holders_represented_amount -ℤ pos 1))
        × (includes w (after event.from_delegate).words_represented ≡ (
            includes w (delegate_at s event.from_delegate).words_represented
            && not (includes w (account_at s event.delegator).words)))
        × ((after event.to_delegate).token_holders_represented_amount
            ≡ wrap_i32
                ((delegate_at s event.to_delegate).token_holders_represented_amount +ℤ pos 1))
        × ((after event.to_delegate).words_represented
            ≡ (delegate_at s event.to_delegate).words_represented
              ++ (account_at s event.delegator).words)
        × (after j ≡ delegate_at s j)
  unfolding represent_holder unrepresent_holder
  delegate_changed_moves j w other n m =
      let (lost, same) = changed_rows j other n m in
      let words = (account_at s event.delegator).words in
      (
        ap (λ (d : Delegate). d.token_holders_represented_amount) lost,
        ap (λ (d : Delegate). includes w d.words_represented) lost
            ∙ includes-without_all w words (delegate_at s event.from_delegate).words_represented,
        ap (λ (d : Delegate). d.token_holders_represented_amount) to_delegate-changed,
        ap (λ (d : Delegate). d.words_represented) to_delegate-changed,
        same,
      )

-- Delegating again to the delegate that one has counts the holder once more, and lists the holder's
-- words once more.
pub redelegation_inflates :
    (delegator delegate : String) (s : Store)
    → DelegatesAreKeyed s
    → ((delegate_at (redelegate delegator delegate s) delegate).token_holders_represented_amount
        ≡ wrap_i32 ((delegate_at s delegate).token_holders_represented_amount +ℤ pos 1))
      × ((delegate_at (redelegate delegator delegate s) delegate).words_represented
          ≡ (delegate_at s delegate).words_represented ++ (account_at s delegator).words)
unfolding represent_holder
redelegation_inflates delegator delegate s h =
    let e =
      to_delegate-changed
        (record { delegator = delegator; from_delegate = delegate; to_delegate = delegate }) s h in
    (
      ap (λ (d : Delegate). d.token_holders_represented_amount) e,
      ap (λ (d : Delegate). d.words_represented) e,
    )
