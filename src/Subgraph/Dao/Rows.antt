-- ===== src/Subgraph/Dao/Rows.antt =====
-- The proposals' rows after each of the DAO's handlers.
use web3_nft.Prelude.{
  String, ◌≡◌, refl, ap, ◌∙◌, Option, none, some, arith, str_eq, leb, if◌then◌else◌, or_else,
}
use web3_nft.Table.{Table, lookup, insert, lookup-insert}
use web3_nft.Subgraph.Schema.{
  Proposal, Store, ProposalStatus, pending, active, cancelled, vetoed, queued, executed,
}
use web3_nft.Subgraph.Helpers.{new_proposal, get_or_create_proposal, get_or_create_delegate}
use web3_nft.Subgraph.Helpers.Views.{
  ProposalsAreKeyed, get_or_create_proposal-frame, get_or_create_proposal-id,
}
use web3_nft.Subgraph.Dao.Frames.{loaded-frame}
use web3_nft.Subgraph.Dao.{
  ProposalCreated, ProposalQueued, report_unknown, describe, handle_proposal_created,
  handle_proposal_canceled, handle_proposal_vetoed, handle_proposal_queued,
  handle_proposal_executed,
}

abbrev pub proposal_in : Table Proposal → String → Proposal
proposal_in t id = or_else (lookup id t) (new_proposal id)

abbrev pub status_at : Store → String → Option ProposalStatus
status_at s id = (proposal_in s.proposals id).status

pub describe-id :
    (event : ProposalCreated) (d : String) (p : Proposal) → (describe event d p).id ≡ p.id
unfolding describe
describe-id event d p = refl

pub describe-status :
    (event : ProposalCreated) (d : String) (p : Proposal)
    → (describe event d p).status
      ≡ some (if leb event.start_block event.block_number then active else pending)
unfolding describe
describe-status event d p = refl

pub describe-start_block :
    (event : ProposalCreated) (d : String) (p : Proposal)
    → (describe event d p).start_block ≡ some event.start_block
unfolding describe
describe-start_block event d p = refl

pub proposal_in-insert :
    (t : Table Proposal) (p : Proposal) (j : String)
    → proposal_in (insert p.id p t) j ≡ (if str_eq p.id j then p else proposal_in t j)
proposal_in-insert t p j = ground (arith, lookup-insert p.id j p t)

-- A proposal that was loaded and saved with another status.
pub saved_status :
    (id j : String) (p : Proposal) (s t : Store)
    → ProposalsAreKeyed s
    → p.id ≡ (get_or_create_proposal id s).0.id
    → t.proposals ≡ insert p.id p (get_or_create_proposal id s).1.proposals
    → status_at t j ≡ (if str_eq id j then p.status else status_at s j)
saved_status id j p s t h same rows =
    let key : p.id ≡ id = same ∙ get_or_create_proposal-id id s h in
    ap (λ (r : Table Proposal). (proposal_in r j).status) rows
    ∙ ap (λ (r : Table Proposal). (proposal_in (insert p.id p r) j).status)
        ((get_or_create_proposal-frame id s).2)
    ∙ ap (λ (q : Proposal). q.status) (proposal_in-insert s.proposals p j)
    ∙ ap (λ k. (if str_eq k j then p else proposal_in s.proposals j).status) key
    ∙ ground arith

module _ (id j : String) (s : Store) (h : ProposalsAreKeyed s) where
  pub canceled-status :
      status_at (handle_proposal_canceled id s) j
      ≡ (if str_eq id j then some cancelled else status_at s j)
  unfolding handle_proposal_canceled
  canceled-status =
      saved_status id j (record ((get_or_create_proposal id s).0) { status = some cancelled }) s
        (handle_proposal_canceled id s) h refl refl

  pub vetoed-status :
      status_at (handle_proposal_vetoed id s) j
      ≡ (if str_eq id j then some vetoed else status_at s j)
  unfolding handle_proposal_vetoed
  vetoed-status =
      saved_status id j (record ((get_or_create_proposal id s).0) { status = some vetoed }) s
        (handle_proposal_vetoed id s) h refl refl

  pub executed-status :
      status_at (handle_proposal_executed id s) j
      ≡ (if str_eq id j then some executed else status_at s j)
  unfolding handle_proposal_executed
  executed-status =
      saved_status id j
        (record ((get_or_create_proposal id s).0) { status = some executed; execution_eta = none })
        s (handle_proposal_executed id s) h refl refl

pub queued-status :
    (e : ProposalQueued) (j : String) (s : Store) (h : ProposalsAreKeyed s)
    → status_at (handle_proposal_queued e s) j
      ≡ (if str_eq e.id j then some queued else status_at s j)
unfolding handle_proposal_queued
queued-status e j s h =
    saved_status e.id j
      (record ((get_or_create_proposal e.id s).0) {
        status = some queued;
        execution_eta = some e.eta;
      })
      s (handle_proposal_queued e s) h refl refl

-- The row of a created proposal, and any other row as it was.
pub created_row :
    (event : ProposalCreated) (j : String) (s : Store)
    → ProposalsAreKeyed s
    → (proposal_in (handle_proposal_created event s).proposals j).status ≡ (
        if str_eq event.id j
        then some (if leb event.start_block event.block_number then active else pending)
        else status_at s j)
unfolding handle_proposal_created
created_row event j s h =
    let (p, s₁) = get_or_create_proposal event.id s in
    let proposer =
      (get_or_create_delegate event.proposer (report_unknown event.proposer s₁)).0.id in
    let p' = describe event proposer p in
    let id : p'.id ≡ event.id =
      describe-id event proposer p ∙ get_or_create_proposal-id event.id s h in
    let rows =
      ap (λ (t : Table Proposal). insert p'.id p' t) ((loaded-frame event.id event.proposer s).1) in
    ap (λ (t : Table Proposal). (proposal_in t j).status) rows
    ∙ ap (λ (q : Proposal). q.status) (proposal_in-insert s.proposals p' j)
    ∙ ap (λ k. (if str_eq k j then p' else proposal_in s.proposals j).status) id
    ∙ ground (arith, describe-status event proposer p)
