-- ===== src/Subgraph/Indexer/Ownership.antt =====
-- The words that an account owns and its balance, over whole chains of events.
use web3_nft.Prelude.{
  String, ◌≡◌, refl, sym, ap, ◌∙◌, Option, some, List, [], ◌∷◌, str_eq, if◌then◌else◌,
}
use mathlib.Core.Path.{subst, fun_ext}
use web3_nft.Subgraph.Schema.{Store}
use web3_nft.Subgraph.Helpers.Views.{StoreIsKeyed}
use web3_nft.Subgraph.Auctions.Frames as AuctionFrames
use web3_nft.Subgraph.Auctions.Accounts as AuctionAccounts
use web3_nft.Subgraph.Dao.Frames as DaoFrames
use web3_nft.Subgraph.Tokens.Balances.{balance}
use web3_nft.Subgraph.Tokens.Ownership.{
  WordsAreKeyed, owner_at, owned_by, IsOwned, transfer-WordsAreKeyed, transfer-owner,
  transfer-owned,
}
use web3_nft.Subgraph.Tokens.Holdings.{
  SameOwners, same_words, same_accounts, votes_changed-SameOwners, delegate_changed-SameOwners,
  word_created-SameOwners,
}
use web3_nft.Subgraph.Indexer.{
  Event, auction_created, auction_bid, auction_extended, auction_settled, word_created,
  delegate_changed, delegate_votes_changed, transfer, proposal_created, proposal_canceled,
  proposal_vetoed, proposal_queued, proposal_executed, vote_cast, handle, index,
}
use web3_nft.Subgraph.Indexer.Keys.{handle-StoreIsKeyed}

abbrev Owners : Type 0
Owners = String → Option String

-- The owner of each word after an event: the receiver of the last transfer.
unfoldable pub own : Event → Owners → Owners
own (transfer e) at = λ w. if str_eq e.token_id w then some e.target else at w
own _ at = at

unfoldable pub own_all : List Event → Owners → Owners
unfolding own
own_all [] at = at
own_all (e ∷ es) at = own_all es (own e at)

-- An event in the order of the token contract: a word is given by its owner to another address, or it
-- is minted and has no owner.
unfoldable pub IsOfOwner : Event → Owners → Type 0
IsOfOwner (transfer e) at = IsOwned e at
IsOfOwner _ at = Unit

unfoldable pub AreOfOwners : List Event → Owners → Type 0
unfolding own
AreOfOwners [] at = Unit
AreOfOwners (e ∷ es) at = IsOfOwner e at × AreOfOwners es (own e at)

-- Each word stands under its id, and each account's balance is the number of words that it owns.
pub record IsBalanced (s : Store) : Type 0 where
  pub keyed : WordsAreKeyed s
  pub balances : (j : String) → balance s j ≡ owned_by j s

record Follows (e : Event) (s : Store) : Type 0 where
  balanced : IsBalanced (handle e s)
  owners : (w : String) → owner_at (handle e s) w ≡ own e (owner_at s) w

module _ (s : Store) (k : StoreIsKeyed s) (h : IsBalanced s) where
  still : {t : Store} → SameOwners s t → IsBalanced t
  still same = record {
    keyed = same.keyed;
    balances = λ j. same.balances j ∙ h.balances j ∙ sym (same.owned j);
  }

  of_dao : {t : Store} → DaoFrames.SameWords s t → SameOwners s t
  of_dao f = same_accounts s h.keyed f.words f.accounts

  of_auction : {t : Store} → AuctionFrames.SameTokens s t → t.accounts ≡ s.accounts → SameOwners s t
  of_auction f rows = same_accounts s h.keyed f.words rows

  of_bid : (e : _) → SameOwners s (handle (auction_bid e) s)
  unfolding handle
  of_bid e =
      same_words s h.keyed ((AuctionFrames.bid-SameTokens e s).words)
        (λ j. ap (λ a. a.token_balance_raw) (AuctionAccounts.bid-account_at e s j))

  kept : (e : Event) → own e (owner_at s) ≡ owner_at s → SameOwners s (handle e s) → Follows e s
  kept e same f = record {
    balanced = still f;
    owners = λ w. f.owners w ∙ ap (λ at. at w) (sym same);
  }

  handle-Follows : (e : Event) → IsOfOwner e (owner_at s) → Follows e s
  unfolding handle own IsOfOwner
  handle-Follows (auction_created e) o =
      kept (auction_created e) refl
        (of_auction (AuctionFrames.created-SameTokens e s) (AuctionAccounts.created-accounts e s))
  handle-Follows (auction_bid e) o = kept (auction_bid e) refl (of_bid e)
  handle-Follows (auction_extended e) o =
      kept (auction_extended e) refl
        (of_auction (AuctionFrames.extended-SameTokens e s) (AuctionAccounts.extended-accounts e s))
  handle-Follows (auction_settled e) o =
      kept (auction_settled e) refl
        (of_auction (AuctionFrames.settled-SameTokens e s) (AuctionAccounts.settled-accounts e s))
  handle-Follows (word_created e) o =
      kept (word_created e) refl (word_created-SameOwners s h.keyed e)
  handle-Follows (delegate_changed e) o =
      kept (delegate_changed e) refl (delegate_changed-SameOwners s h.keyed e k.accounts)
  handle-Follows (delegate_votes_changed e) o =
      kept (delegate_votes_changed e) refl (votes_changed-SameOwners s h.keyed e)
  handle-Follows (transfer e) o = record {
    balanced = record {
      keyed = transfer-WordsAreKeyed e s k.accounts h.keyed;
      balances = λ j. transfer-owned e s k.accounts h.keyed o j (h.balances j);
    };
    owners = transfer-owner e s k.accounts h.keyed;
  }
  handle-Follows (proposal_created e) o =
      kept (proposal_created e) refl (of_dao (DaoFrames.created-SameWords e s))
  handle-Follows (proposal_canceled id) o =
      kept (proposal_canceled id) refl (of_dao (DaoFrames.canceled-SameWords id s))
  handle-Follows (proposal_vetoed id) o =
      kept (proposal_vetoed id) refl (of_dao (DaoFrames.vetoed-SameWords id s))
  handle-Follows (proposal_queued e) o =
      kept (proposal_queued e) refl (of_dao (DaoFrames.queued-SameWords e s))
  handle-Follows (proposal_executed id) o =
      kept (proposal_executed id) refl (of_dao (DaoFrames.executed-SameWords id s))
  handle-Follows (vote_cast e) o = kept (vote_cast e) refl (of_dao (DaoFrames.vote-SameWords e s))

-- Over a chain of events of the three contracts in the order of the token contract, where a word is
-- given by its owner to another address or is minted without an owner, from a store whose rows stand
-- under their ids: each word is owned by the receiver of its last transfer, and each account's balance
-- stays the number of the words that it owns.
pub index-IsBalanced :
    (es : List Event) (s : Store)
    → StoreIsKeyed s
    → AreOfOwners es (owner_at s)
    → IsBalanced s
    → IsBalanced (index es s) × ((w : String) → owner_at (index es s) w ≡ own_all es (owner_at s) w)
unfolding index AreOfOwners own_all
index-IsBalanced [] s k o h = (h, λ w. refl)
index-IsBalanced (e ∷ es) s k (o, os) h =
    let step = handle-Follows s k h e o in
    let later : own e (owner_at s) ≡ owner_at (handle e s) = fun_ext (λ w. sym (step.owners w)) in
    let (balanced, owners) =
      index-IsBalanced es (handle e s) (handle-StoreIsKeyed e s k) (subst (AreOfOwners es) later os)
        step.balanced in
    (balanced, λ w. owners w ∙ ap (λ at. own_all es at w) (sym later))
