-- ===== src/Subgraph/Dao/Frames.antt =====
-- The tables that the DAO's handlers leave alone, and the keys that they keep.
use web3_nft.Prelude.{String, ◌≡◌, ap, inl, inr, none, some, arith, Bool-cases}
use web3_nft.Table.{Table, insert}
use web3_nft.Table.Keys.{insert-IsKeyed}
use web3_nft.Subgraph.Schema.{Proposal, Store, active, cancelled, vetoed, queued, executed}
use web3_nft.Subgraph.Helpers.{get_or_create_delegate, get_or_create_proposal}
use web3_nft.Subgraph.Helpers.Views.{
  StoreIsKeyed, DelegatesAreKeyed, get_or_create_delegate-frame, get_or_create_delegate-keyed,
  get_or_create_proposal-frame,
}
use web3_nft.Subgraph.Dao.{
  ProposalCreated, ProposalQueued, VoteCast, describe, report_unknown, is_pending,
  handle_proposal_created, handle_proposal_canceled, handle_proposal_vetoed, handle_proposal_queued,
  handle_proposal_executed, handle_vote_cast,
}

-- What a DAO handler leaves alone.
pub record SameWords (s t : Store) : Type 0 where
  pub accounts : t.accounts ≡ s.accounts
  pub auctions : t.auctions ≡ s.auctions
  pub words : t.words ≡ s.words

report_unknown-frame :
    (id : String) (s : Store)
    → SameWords s (report_unknown id s)
      × ((report_unknown id s).delegates ≡ s.delegates)
      × ((report_unknown id s).proposals ≡ s.proposals)
report_unknown-frame id s = ground arith

-- The store with the proposal and the delegate of an event loaded or created.
abbrev pub loaded : String → String → Store → Store
loaded proposal delegate s =
    (get_or_create_delegate delegate
      (report_unknown delegate (get_or_create_proposal proposal s).1)).1

pub loaded-frame :
    (proposal delegate : String) (s : Store)
    → SameWords s (loaded proposal delegate s)
      × ((loaded proposal delegate s).proposals ≡ s.proposals)
loaded-frame proposal delegate s =
    let s₁ = (get_or_create_proposal proposal s).1 in
    ground (
      arith,
      get_or_create_proposal-frame proposal s,
      report_unknown-frame delegate s₁,
      get_or_create_delegate-frame delegate (report_unknown delegate s₁),
    )

loaded-keyed :
    (proposal delegate : String) (s : Store)
    → DelegatesAreKeyed s
    → DelegatesAreKeyed (loaded proposal delegate s)
loaded-keyed proposal delegate s h =
    let s₁ = (get_or_create_proposal proposal s).1 in
    get_or_create_delegate-keyed delegate (report_unknown delegate s₁)
      (ground (arith, get_or_create_proposal-frame proposal s, report_unknown-frame delegate s₁))

-- Saving a proposal over a store that has the old rows.
saved-StoreIsKeyed :
    (s t : Store) (p : Proposal)
    → StoreIsKeyed s
    → t.accounts ≡ s.accounts
    → t.auctions ≡ s.auctions
    → DelegatesAreKeyed t
    → t.proposals ≡ insert p.id p s.proposals
    → StoreIsKeyed t
saved-StoreIsKeyed s t p h a b d e = record {
  accounts = ground (arith, h.accounts);
  delegates = d;
  auctions = ground (arith, h.auctions);
  proposals = ground (arith, insert-IsKeyed (λ (x : Proposal). x.id) p s.proposals h.proposals);
}

pub canceled-SameWords : (id : String) (s : Store) → SameWords s (handle_proposal_canceled id s)
unfolding handle_proposal_canceled
canceled-SameWords id s = ground (arith, get_or_create_proposal-frame id s)

pub vetoed-SameWords : (id : String) (s : Store) → SameWords s (handle_proposal_vetoed id s)
unfolding handle_proposal_vetoed
vetoed-SameWords id s = ground (arith, get_or_create_proposal-frame id s)

pub queued-SameWords :
    (event : ProposalQueued) (s : Store) → SameWords s (handle_proposal_queued event s)
unfolding handle_proposal_queued
queued-SameWords event s = ground (arith, get_or_create_proposal-frame event.id s)

pub executed-SameWords : (id : String) (s : Store) → SameWords s (handle_proposal_executed id s)
unfolding handle_proposal_executed
executed-SameWords id s = ground (arith, get_or_create_proposal-frame id s)

pub created-SameWords :
    (event : ProposalCreated) (s : Store) → SameWords s (handle_proposal_created event s)
unfolding handle_proposal_created
created-SameWords event s = ground (arith, loaded-frame event.id event.proposer s)

pub vote-SameWords : (event : VoteCast) (s : Store) → SameWords s (handle_vote_cast event s)
unfolding handle_vote_cast
vote-SameWords event s = ground (arith, loaded-frame event.proposal_id event.voter s)

pub canceled-StoreIsKeyed :
    (id : String) (s : Store) → StoreIsKeyed s → StoreIsKeyed (handle_proposal_canceled id s)
unfolding handle_proposal_canceled
canceled-StoreIsKeyed id s h =
    let (p, s₁) = get_or_create_proposal id s in
    let f = get_or_create_proposal-frame id s in
    saved-StoreIsKeyed s _ (record p { status = some cancelled }) h (f.0) (f.3)
      (ground (arith, f, h.delegates)) (ground (arith, f))

pub vetoed-StoreIsKeyed :
    (id : String) (s : Store) → StoreIsKeyed s → StoreIsKeyed (handle_proposal_vetoed id s)
unfolding handle_proposal_vetoed
vetoed-StoreIsKeyed id s h =
    let (p, s₁) = get_or_create_proposal id s in
    let f = get_or_create_proposal-frame id s in
    saved-StoreIsKeyed s _ (record p { status = some vetoed }) h (f.0) (f.3)
      (ground (arith, f, h.delegates)) (ground (arith, f))

pub queued-StoreIsKeyed :
    (event : ProposalQueued) (s : Store)
    → StoreIsKeyed s
    → StoreIsKeyed (handle_proposal_queued event s)
unfolding handle_proposal_queued
queued-StoreIsKeyed event s h =
    let (p, s₁) = get_or_create_proposal event.id s in
    let f = get_or_create_proposal-frame event.id s in
    saved-StoreIsKeyed s _ (record p { status = some queued; execution_eta = some event.eta }) h
      (f.0) (f.3) (ground (arith, f, h.delegates)) (ground (arith, f))

pub executed-StoreIsKeyed :
    (id : String) (s : Store) → StoreIsKeyed s → StoreIsKeyed (handle_proposal_executed id s)
unfolding handle_proposal_executed
executed-StoreIsKeyed id s h =
    let (p, s₁) = get_or_create_proposal id s in
    let f = get_or_create_proposal-frame id s in
    saved-StoreIsKeyed s _ (record p { status = some executed; execution_eta = none }) h (f.0) (f.3)
      (ground (arith, f, h.delegates)) (ground (arith, f))

pub created-StoreIsKeyed :
    (event : ProposalCreated) (s : Store)
    → StoreIsKeyed s
    → StoreIsKeyed (handle_proposal_created event s)
unfolding handle_proposal_created
created-StoreIsKeyed event s h =
    let f = loaded-frame event.id event.proposer s in
    let (p, s₁) = get_or_create_proposal event.id s in
    let proposer =
      (get_or_create_delegate event.proposer (report_unknown event.proposer s₁)).0.id in
    let p' = describe event proposer p in
    saved-StoreIsKeyed s _ p' h ((f.0).accounts) ((f.0).auctions)
      (loaded-keyed event.id event.proposer s h.delegates)
      (ap (λ (t : Table Proposal). insert p'.id p' t) (f.1))

pub vote-StoreIsKeyed :
    (event : VoteCast) (s : Store) → StoreIsKeyed s → StoreIsKeyed (handle_vote_cast event s)
unfolding handle_vote_cast
vote-StoreIsKeyed event s h =
    let p = (get_or_create_proposal event.proposal_id s).0 in
    let f = loaded-frame event.proposal_id event.voter s in
    let k = loaded-keyed event.proposal_id event.voter s h.delegates in
    elim (Bool-cases (is_pending p.status)) [
      | inl e ↦
          rw (e, handle_vote_cast)
            (saved-StoreIsKeyed s _ (record p { status = some active }) h ((f.0).accounts)
              ((f.0).auctions) k
              (ap (λ (t : Table Proposal). insert p.id (record p { status = some active }) t)
                (f.1)))
      | inr e ↦ rw (e, handle_vote_cast) (ground (arith, f, k, h.accounts, h.auctions, h.proposals))
    ]
