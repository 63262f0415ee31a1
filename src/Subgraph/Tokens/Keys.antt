-- ===== src/Subgraph/Tokens/Keys.antt =====
-- The tables that the other handlers of the token leave alone, and the keys that they keep.
use web3_nft.Prelude.{String, ◌≡◌, inl, inr, some, arith, Option-cases, pos}
use web3_nft.Table.{lookup, insert}
use web3_nft.Table.Keys.{insert-IsKeyed}
use web3_nft.Subgraph.Schema.{Account, Delegate, Store}
use web3_nft.Subgraph.Helpers.{get_or_create_account, get_or_create_delegate}
use web3_nft.Subgraph.Helpers.Views.{
  StoreIsKeyed, IsKnown, get_or_create_account-frame, get_or_create_account-keyed,
  get_or_create_delegate-frame, get_or_create_delegate-keyed,
}
use web3_nft.Subgraph.Tokens.{
  WordCreated, DelegateChanged, DelegateVotesChanged, represent_holder, unrepresent_holder,
  handle_word_created, handle_delegate_changed, handle_delegate_votes_changed,
}
use web3_nft.Subgraph.Tokens.Frames.{SameElsewhere, known-insert}

pub word_created-IsKnown :
    (event : WordCreated) (s : Store) (w : String)
    → IsKnown w s
    → IsKnown w (handle_word_created event s)
unfolding handle_word_created
word_created-IsKnown event s w h = elim (Option-cases (lookup event.token_id s.words)) [
  | inl e ↦ rw (e, handle_word_created) h
  | inr (v, e) ↦
      rw (e, handle_word_created)
        (known-insert v.id (record v { seed = some event.token_id }) s.words w h)
]

pub word_created-frame :
    (event : WordCreated) (s : Store)
    → ((handle_word_created event s).auctions ≡ s.auctions)
      × ((handle_word_created event s).proposals ≡ s.proposals)
      × ((handle_word_created event s).accounts ≡ s.accounts)
      × ((handle_word_created event s).delegates ≡ s.delegates)
unfolding handle_word_created
word_created-frame event s = ground arith

pub word_created-StoreIsKeyed :
    (event : WordCreated) (s : Store) → StoreIsKeyed s → StoreIsKeyed (handle_word_created event s)
word_created-StoreIsKeyed event s h = ground (arith, word_created-frame event s)

pub votes_changed-frame :
    (event : DelegateVotesChanged) (s : Store)
    → SameElsewhere s (handle_delegate_votes_changed event s)
unfolding handle_delegate_votes_changed
votes_changed-frame event s = ground (arith, get_or_create_delegate-frame event.delegate s)

pub votes_changed-StoreIsKeyed :
    (event : DelegateVotesChanged) (s : Store)
    → StoreIsKeyed s
    → StoreIsKeyed (handle_delegate_votes_changed event s)
unfolding handle_delegate_votes_changed
votes_changed-StoreIsKeyed event s h =
    let (d, s₁) = get_or_create_delegate event.delegate s in
    let f = get_or_create_delegate-frame event.delegate s in
    record {
      accounts = ground (arith, f, h.accounts);
      delegates =
          insert-IsKeyed (λ (x : Delegate). x.id)
            (record d {
              delegated_votes_raw = pos event.new_balance;
              delegated_votes = pos event.new_balance;
            })
            s₁.delegates (get_or_create_delegate-keyed event.delegate s h.delegates);
      auctions = ground (arith, f, h.auctions);
      proposals = ground (arith, f, h.proposals);
    }

pub delegate_changed-frame :
    (event : DelegateChanged) (s : Store) → SameElsewhere s (handle_delegate_changed event s)
unfolding handle_delegate_changed
delegate_changed-frame event s =
    let s₁ = (get_or_create_account event.delegator s).1 in
    let s₂ = (get_or_create_delegate event.from_delegate s₁).1 in
    ground (
      arith,
      get_or_create_account-frame event.delegator s,
      get_or_create_delegate-frame event.from_delegate s₁,
      get_or_create_delegate-frame event.to_delegate s₂,
    )

pub delegate_changed-StoreIsKeyed :
    (event : DelegateChanged) (s : Store)
    → StoreIsKeyed s
    → StoreIsKeyed (handle_delegate_changed event s)
unfolding handle_delegate_changed
delegate_changed-StoreIsKeyed event s h =
    let (holder, s₁) = get_or_create_account event.delegator s in
    let (previous, s₂) = get_or_create_delegate event.from_delegate s₁ in
    let (next, s₃) = get_or_create_delegate event.to_delegate s₂ in
    let f₁ = get_or_create_account-frame event.delegator s in
    let f₂ = get_or_create_delegate-frame event.from_delegate s₁ in
    let f₃ = get_or_create_delegate-frame event.to_delegate s₂ in
    let k₁ = get_or_create_account-keyed event.delegator s h.accounts in
    let t = s₃.delegates in
    let lost = unrepresent_holder holder.words previous in
    let won = represent_holder holder.words next in
    let name = λ (x : Delegate). x.id in
    record {
      accounts =
          insert-IsKeyed (λ (x : Account). x.id) (record holder { delegate = some next.id })
            s₃.accounts (ground (arith, k₁, f₂, f₃));
      delegates = insert-IsKeyed name won (insert previous.id lost t) (
          insert-IsKeyed name lost t (
            get_or_create_delegate-keyed event.to_delegate s₂ (
              get_or_create_delegate-keyed event.from_delegate s₁
                (ground (arith, f₁, h.delegates)))));
      auctions = ground (arith, f₁, f₂, f₃, h.auctions);
      proposals = ground (arith, f₁, f₂, f₃, h.proposals);
    }
