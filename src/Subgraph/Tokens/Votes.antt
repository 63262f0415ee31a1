-- ===== src/Subgraph/Tokens/Votes.antt =====
-- The votes that the governance entity counts.
use web3_nft.Prelude.{
  ℕ, String, ◌≡◌, refl, sym, ap, ◌∙◌, ◌≢◌, inl, inr, ◌&&◌, arith, ltb, ◌==◌, if◌then◌else◌,
  Option-cases, ℤ, pos, ◌+ℤ◌, ◌-ℤ◌, ltb_ℤ, parts_of_eq, int_laws,
}
use web3_nft.Table.{Table, lookup}
use web3_nft.Table.Totals.{total, weight_of, total-insert}
use web3_nft.Subgraph.Schema.{Delegate, Store}
use web3_nft.Subgraph.Helpers.{get_governance_entity, get_or_create_delegate, new_delegate}
use web3_nft.Subgraph.Helpers.Views.{
  delegate_at, delegate_in, DelegatesAreKeyed, get_or_create_delegate-id,
  get_or_create_delegate-total, get_or_create_delegate-view,
}
use web3_nft.Subgraph.Tokens.{DelegateVotesChanged, votes_counted, handle_delegate_votes_changed}

abbrev vote_weight : Delegate → ℤ
vote_weight d = d.delegated_votes_raw

abbrev delegate_weight : Delegate → ℤ
delegate_weight d = if ltb_ℤ (pos 0) d.delegated_votes_raw then pos 1 else pos 0

-- The governance entity counts the votes of all delegates, and the delegates that have votes.
pub record VotesCounted (s : Store) : Type 0 where
  pub votes : (get_governance_entity s).delegated_votes_raw ≡ total vote_weight s.delegates
  pub delegates : (get_governance_entity s).current_delegates ≡ total delegate_weight s.delegates

weight_of-lookup :
    (weight : Delegate → ℤ) {id : String}
    → weight (new_delegate id) ≡ pos 0
    → (t : Table Delegate) → weight_of weight (lookup id t) ≡ weight (delegate_in t id)
weight_of-lookup weight {id} fresh t = elim (Option-cases (lookup id t)) [
  | inl e ↦ rw e (sym fresh)
  | inr (a, e) ↦ rw e
]

-- A sum follows the difference between the old and the new value of one row.
sum_change : (p q : ℕ) (n t t' : ℤ) → n ≡ t → t' +ℤ pos p ≡ t +ℤ pos q → n +ℤ (pos q -ℤ pos p) ≡ t'
sum_change p q n t t' e h = omega (int_laws, parts_of_eq _ _ e, parts_of_eq _ _ h)

-- A count follows a row that gets its first vote or loses its last one.
count_change :
    (p q : ℕ) (n t t' : ℤ)
    → p ≢ q
    → n ≡ t
    → t' +ℤ (if ltb_ℤ (pos 0) (pos p) then pos 1 else pos 0)
      ≡ t +ℤ (if ltb_ℤ (pos 0) (pos q) then pos 1 else pos 0)
    → (if q == 0
        then (if p == 0 && ltb 0 q then n +ℤ pos 1 else n) -ℤ pos 1
        else if p == 0 && ltb 0 q
        then n +ℤ pos 1
        else n)
      ≡ t'
unfolding ◌+ℤ◌ ◌-ℤ◌
count_change p q n t t' ne e h = ground arith

module _ (event : DelegateVotesChanged) (s : Store) (h : DelegatesAreKeyed s) where
  abbrev delegate : Delegate
  delegate = (get_or_create_delegate event.delegate s).0

  abbrev rows : Table Delegate
  rows = (get_or_create_delegate event.delegate s).1.delegates

  abbrev changed : Delegate
  changed = record delegate {
    delegated_votes_raw = pos event.new_balance;
    delegated_votes = pos event.new_balance;
  }

  row-weight :
      (weight : Delegate → ℤ)
      → weight (new_delegate event.delegate) ≡ pos 0
      → weight_of weight (lookup delegate.id rows) ≡ weight (delegate_at s event.delegate)
  row-weight weight fresh =
      ap (λ k. weight_of weight (lookup k rows)) (get_or_create_delegate-id event.delegate s h)
      ∙ weight_of-lookup weight fresh rows
      ∙ ap weight (get_or_create_delegate-view event.delegate s event.delegate)

  changed-weight :
      (weight : Delegate → ℤ)
      → weight (new_delegate event.delegate) ≡ pos 0
      → total weight (handle_delegate_votes_changed event s).delegates
          +ℤ weight (delegate_at s event.delegate)
        ≡ total weight s.delegates +ℤ weight changed
  unfolding handle_delegate_votes_changed
  changed-weight weight fresh = omega (
    int_laws,
    parts_of_eq _ _ (total-insert weight delegate.id changed rows),
    parts_of_eq _ _ (row-weight weight fresh),
    parts_of_eq _ _ (get_or_create_delegate-total event.delegate s weight fresh),
  )

  -- Where the event's previous balance is the one that the row holds and differs from the new one,
  -- the counts of the governance entity stay right.
  pub votes_changed-VotesCounted :
      (delegate_at s event.delegate).delegated_votes_raw ≡ pos event.previous_balance
      → event.previous_balance ≢ event.new_balance
      → VotesCounted s
      → VotesCounted (handle_delegate_votes_changed event s)
  unfolding handle_delegate_votes_changed get_governance_entity votes_counted
  votes_changed-VotesCounted old ne counted = record {
    votes = sum_change _ _ _ _ _ (counted.votes) (rw old at (changed-weight vote_weight refl));
    delegates =
        count_change _ _ _ _ _ ne (counted.delegates)
          (rw old at (changed-weight delegate_weight refl));
  }
