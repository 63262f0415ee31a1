-- ===== src/Subgraph/Tokens/HolderFrames.antt =====
-- The counter of token holders after the token's events that move no word.
use web3_nft.Prelude.{String, ◌≡◌, refl, ◌∙◌, arith}
use web3_nft.Subgraph.Schema.{Store}
use web3_nft.Subgraph.Helpers.{get_governance_entity, get_or_create_account, get_or_create_delegate}
use web3_nft.Subgraph.Helpers.Views.{get_or_create_account-frame}
use web3_nft.Subgraph.Tokens.{
  WordCreated, DelegateChanged, DelegateVotesChanged, votes_counted, handle_word_created,
  handle_delegate_changed, handle_delegate_votes_changed,
}
use web3_nft.Subgraph.Tokens.Counters.{holders, holders-get_or_create_delegate}

pub word_created-holders :
    (e : WordCreated) (s : Store) → holders (handle_word_created e s) ≡ holders s
unfolding handle_word_created get_governance_entity
word_created-holders e s = ground arith

account-holders : (id : String) (s : Store) → holders (get_or_create_account id s).1 ≡ holders s
unfolding get_governance_entity
account-holders id s = ground (arith, get_or_create_account-frame id s)

pub delegate_changed-holders :
    (e : DelegateChanged) (s : Store) → holders (handle_delegate_changed e s) ≡ holders s
unfolding handle_delegate_changed get_governance_entity
delegate_changed-holders e s =
    let s₁ = (get_or_create_account e.delegator s).1 in
    let s₂ = (get_or_create_delegate e.from_delegate s₁).1 in
    holders-get_or_create_delegate e.to_delegate s₂
    ∙ holders-get_or_create_delegate e.from_delegate s₁
    ∙ account-holders e.delegator s

pub votes_changed-holders :
    (e : DelegateVotesChanged) (s : Store) → holders (handle_delegate_votes_changed e s) ≡ holders s
unfolding handle_delegate_votes_changed votes_counted get_governance_entity
votes_changed-holders e s = refl
