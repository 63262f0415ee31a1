-- ===== src/Subgraph/Tokens/Holdings.antt =====
-- The events of the token that move no word: owners, balances and the words under their ids stay.
use web3_nft.Prelude.{
  String, ◌≡◌, refl, sym, ap, ◌∙◌, inl, inr, some, arith, eq_iff, Option-cases, parts_of_eq,
  int_laws,
}
use mathlib.Core.Path.{subst}
use web3_nft.Table.{Table, lookup, insert, lookup-insert}
use web3_nft.Table.Keys.{IsKeyed, lookup-IsKeyed, insert-IsKeyed}
use web3_nft.Table.Totals.{total, weight_of, total-insert}
use web3_nft.Subgraph.Schema.{Word, Account, Store}
use web3_nft.Subgraph.Helpers.{get_or_create_account, get_or_create_delegate}
use web3_nft.Subgraph.Helpers.Views.{
  account_at, account_in, account_in-insert, account_at-id, AccountsAreKeyed,
  get_or_create_account-value, get_or_create_account-view, get_or_create_delegate-frame,
}
use web3_nft.Subgraph.Tokens.{
  WordCreated, DelegateChanged, DelegateVotesChanged, handle_word_created, handle_delegate_changed,
  handle_delegate_votes_changed,
}
use web3_nft.Subgraph.Tokens.Keys as TokenKeys
use web3_nft.Subgraph.Tokens.Balances.{balance}
use web3_nft.Subgraph.Tokens.Ownership.{WordsAreKeyed, owner_in, owner_at, counts, owned_by}

pub record SameOwners (s t : Store) : Type 0 where
  pub keyed : WordsAreKeyed t
  pub owners : (w : String) → owner_at t w ≡ owner_at s w
  pub owned : (j : String) → owned_by j t ≡ owned_by j s
  pub balances : (j : String) → balance t j ≡ balance s j

pub votes_changed-accounts :
    (event : DelegateVotesChanged) (s : Store)
    → (handle_delegate_votes_changed event s).accounts ≡ s.accounts
unfolding handle_delegate_votes_changed
votes_changed-accounts event s = ground (arith, get_or_create_delegate-frame event.delegate s)

module _ (s : Store) (words : WordsAreKeyed s) where
  pub same_words :
      {t : Store} → t.words ≡ s.words → ((j : String) → balance t j ≡ balance s j) → SameOwners s t
  unfolding owned_by
  same_words {t} e balances = record {
    keyed = subst (IsKeyed (λ (w : Word). w.id)) (sym e) words;
    owners = λ w. ap (λ (ws : Table Word). owner_in (lookup w ws)) e;
    owned = λ j. ap (total (λ (w : Word). counts j w.owner)) e;
    balances = balances;
  }

  pub same_accounts : {t : Store} → t.words ≡ s.words → t.accounts ≡ s.accounts → SameOwners s t
  same_accounts e a =
      same_words e (λ j. ap (λ (t : Table Account). (account_in t j).token_balance_raw) a)

  pub votes_changed-SameOwners :
      (event : DelegateVotesChanged) → SameOwners s (handle_delegate_votes_changed event s)
  votes_changed-SameOwners event =
      same_accounts ((TokenKeys.votes_changed-frame event s).words) (votes_changed-accounts event s)

  delegate_changed-balance :
      (event : DelegateChanged) (j : String)
      → AccountsAreKeyed s
      → balance (handle_delegate_changed event s) j ≡ balance s j
  unfolding handle_delegate_changed
  delegate_changed-balance event j h =
      let (holder, s₁) = get_or_create_account event.delegator s in
      let (previous, s₂) = get_or_create_delegate event.from_delegate s₁ in
      let (next, s₃) = get_or_create_delegate event.to_delegate s₂ in
      let f₂ = get_or_create_delegate-frame event.from_delegate s₁ in
      let f₃ = get_or_create_delegate-frame event.to_delegate s₂ in
      let held : holder ≡ account_at s event.delegator =
        get_or_create_account-value event.delegator s in
      let named = account_at-id s.accounts event.delegator h in
      ground (
        arith,
        f₂,
        f₃,
        held,
        named,
        eq_iff event.delegator j,
        account_in-insert s₃.accounts (record holder { delegate = some next.id }) j,
        get_or_create_account-view event.delegator s j,
      )

  pub delegate_changed-SameOwners :
      (event : DelegateChanged)
      → AccountsAreKeyed s
      → SameOwners s (handle_delegate_changed event s)
  delegate_changed-SameOwners event h =
      same_words ((TokenKeys.delegate_changed-frame event s).words)
        (λ j. delegate_changed-balance event j h)

  -- A seed is noted in the word's row, under the same owner.
  seeded-SameOwners :
      (w : Word) (token : String) (t : Store)
      → lookup token s.words ≡ some w
      → t.accounts ≡ s.accounts
      → t.words ≡ insert w.id (record w { seed = some token }) s.words
      → SameOwners s t
  unfolding owned_by
  seeded-SameOwners w token t found rows e =
      let w' = record w { seed = some token } in
      let named : w.id ≡ token = lookup-IsKeyed (λ (x : Word). x.id) token s.words words found in
      let weight = λ (j : String) (x : Word). counts j x.owner in
      let at : lookup w.id s.words ≡ some w = ap (λ id. lookup id s.words) named ∙ found in
      record {
        keyed =
            subst (IsKeyed (λ (x : Word). x.id)) (sym e)
              (insert-IsKeyed (λ (x : Word). x.id) w' s.words words);
        owners = λ v. ground (arith, e, at, lookup-insert w.id v w' s.words, eq_iff w.id v);
        owned = λ j. omega (
          int_laws,
          parts_of_eq _ _ (ap (total (weight j)) e),
          parts_of_eq _ _ (total-insert (weight j) w.id w' s.words),
          parts_of_eq _ _ (ap (weight_of (weight j)) at),
        );
        balances = λ j. ap (λ (u : Table Account). (account_in u j).token_balance_raw) rows;
      }

  pub word_created-SameOwners : (event : WordCreated) → SameOwners s (handle_word_created event s)
  unfolding handle_word_created
  word_created-SameOwners event = elim (Option-cases (lookup event.token_id s.words)) [
    | inl e ↦ rw (e, handle_word_created) (same_accounts refl refl)
    | inr (w, e) ↦ rw (e, handle_word_created) (seeded-SameOwners w event.token_id _ e refl refl)
  ]
