-- ===== src/Subgraph/Dao/Queue.antt =====
-- The DAO's other handlers against the counter of queued proposals.
use web3_nft.Prelude.{
  String, ◌≡◌, refl, sym, ap, ◌∙◌, ◌≢◌, inl, inr, Bool, true, false, Option, some, arith, leb,
  if◌then◌else◌, Bool-cases, pos, parts_of_eq, int_laws,
}
use web3_nft.Table.{Table, insert}
use web3_nft.Table.Totals.{total}
use web3_nft.Subgraph.Schema.{
  Proposal, Store, ProposalStatus, pending, active, cancelled, vetoed, queued,
}
use web3_nft.Subgraph.Helpers.{
  get_or_create_proposal, get_or_create_delegate, get_governance_entity,
}
use web3_nft.Subgraph.Helpers.Views.{ProposalsAreKeyed, get_or_create_proposal-frame}
use web3_nft.Subgraph.Tokens.Queue.{delegate-counter}
use web3_nft.Subgraph.Dao.{
  ProposalCreated, VoteCast, is_pending, report_unknown, describe, handle_proposal_created,
  handle_proposal_canceled, handle_proposal_vetoed, handle_vote_cast,
}
use web3_nft.Subgraph.Dao.Frames.{loaded, loaded-frame}
use web3_nft.Subgraph.Dao.Rows.{status_at, describe-id, describe-status}
use web3_nft.Subgraph.Dao.Status.{
  counter, QueuedCounted, queued_weight, was_queued, total-saved, proposals_queued-get_or_create,
  proposal-value,
}

module _ (id : String) (s : Store) where
  -- A proposal that was not queued is saved with another status that is not queued.
  saved-QueuedCounted :
      (p : Proposal) (t : Store)
      → ProposalsAreKeyed s
      → p.id ≡ (get_or_create_proposal id s).0.id
      → t.proposals ≡ insert p.id p (get_or_create_proposal id s).1.proposals
      → counter t ≡ counter s
      → status_at s id ≢ some queued
      → p.status ≢ some queued
      → QueuedCounted s
      → QueuedCounted t
  saved-QueuedCounted p t h same rows count before after counted =
      let old : was_queued id s ≡ pos 0 = ground arith in
      let new : queued_weight p ≡ pos 0 = ground arith in
      omega (
        int_laws,
        parts_of_eq _ _ (total-saved id s p h same),
        parts_of_eq _ _ old,
        parts_of_eq _ _ new,
        parts_of_eq _ _ (ap (λ (r : Table Proposal). total queued_weight r) rows),
        parts_of_eq _ _ count,
        parts_of_eq _ _ counted,
      )

  pub canceled-QueuedCounted :
      ProposalsAreKeyed s
      → status_at s id ≢ some queued
      → QueuedCounted s
      → QueuedCounted (handle_proposal_canceled id s)
  unfolding handle_proposal_canceled get_governance_entity
  canceled-QueuedCounted h n counted =
      saved-QueuedCounted (record ((get_or_create_proposal id s).0) { status = some cancelled })
        (handle_proposal_canceled id s) h refl refl (proposals_queued-get_or_create id s) n
        (ground arith) counted

  pub vetoed-QueuedCounted :
      ProposalsAreKeyed s
      → status_at s id ≢ some queued
      → QueuedCounted s
      → QueuedCounted (handle_proposal_vetoed id s)
  unfolding handle_proposal_vetoed get_governance_entity
  vetoed-QueuedCounted h n counted =
      saved-QueuedCounted (record ((get_or_create_proposal id s).0) { status = some vetoed })
        (handle_proposal_vetoed id s) h refl refl (proposals_queued-get_or_create id s) n
        (ground arith) counted

report-counter : (id : String) (s : Store) → counter (report_unknown id s) ≡ counter s
unfolding get_governance_entity
report-counter id s = ground arith

loaded-counter : (id delegate : String) (s : Store) → counter (loaded id delegate s) ≡ counter s
loaded-counter id delegate s =
    let s₁ = (get_or_create_proposal id s).1 in
    delegate-counter delegate (report_unknown delegate s₁)
    ∙ report-counter delegate s₁
    ∙ proposals_queued-get_or_create id s

begun_lem : (t : Bool) → some (if t then active else pending) ≢ some queued
begun_lem true e = cc
begun_lem false e = cc

pub created-QueuedCounted :
    (event : ProposalCreated) (s : Store)
    → ProposalsAreKeyed s
    → status_at s event.id ≢ some queued
    → QueuedCounted s
    → QueuedCounted (handle_proposal_created event s)
unfolding handle_proposal_created get_governance_entity
created-QueuedCounted event s h n counted =
    let (p, s₁) = get_or_create_proposal event.id s in
    let proposer =
      (get_or_create_delegate event.proposer (report_unknown event.proposer s₁)).0.id in
    let p' = describe event proposer p in
    let rows : (loaded event.id event.proposer s).proposals ≡ s₁.proposals =
      (loaded-frame event.id event.proposer s).1
      ∙ sym ((get_or_create_proposal-frame event.id s).2) in
    saved-QueuedCounted event.id s p' (handle_proposal_created event s) h
      (describe-id event proposer p) (ap (λ (t : Table Proposal). insert p'.id p' t) rows)
      (loaded-counter event.id event.proposer s) n
      (λ e.
        begun_lem (leb event.start_block event.block_number)
          (sym (describe-status event proposer p) ∙ e))
      counted

not_pending : {o : Option ProposalStatus} → is_pending o ≡ true → o ≢ some queued
not_pending {o} e q = ground arith

pub vote-QueuedCounted :
    (event : VoteCast) (s : Store)
    → ProposalsAreKeyed s
    → QueuedCounted s
    → QueuedCounted (handle_vote_cast event s)
unfolding handle_vote_cast get_governance_entity
vote-QueuedCounted event s h counted =
    let p = (get_or_create_proposal event.proposal_id s).0 in
    let s₁ = (get_or_create_proposal event.proposal_id s).1 in
    let p' = record p { status = some active } in
    let whole = loaded event.proposal_id event.voter s in
    let rows = (loaded-frame event.proposal_id event.voter s).1 in
    let old_rows = sym ((get_or_create_proposal-frame event.proposal_id s).2) in
    let count = loaded-counter event.proposal_id event.voter s in
    elim (Bool-cases (is_pending p.status)) [
      | inl e ↦
          let before : status_at s event.proposal_id ≢ some queued = λ q.
            not_pending e
              (ap (λ (r : Proposal). r.status) (proposal-value event.proposal_id s) ∙ q) in
          rw (e, handle_vote_cast)
            (saved-QueuedCounted event.proposal_id s p'
              (record whole { proposals = insert p'.id p' whole.proposals }) h refl
              (ap (λ (t : Table Proposal). insert p'.id p' t) (rows ∙ old_rows)) count before
              (ground arith) counted)
      | inr e ↦
          rw (e, handle_vote_cast)
            (count ∙ counted ∙ ap (λ (r : Table Proposal). total queued_weight r) (sym rows))
    ]
