-- ===== src/Subgraph/Dao/Status.antt =====
-- The status of a proposal, and the counter of queued proposals.
use web3_nft.Prelude.{
  String, ◌≡◌, refl, ap, ◌∙◌, ◌≢◌, inl, inr, Bool, true, false, ◌&&◌, Option, none, some, arith,
  str_eq, eq_iff, leb, if◌then◌else◌, Bool-cases, Option-cases, ℤ, pos, ◌+ℤ◌, parts_of_eq, int_laws,
}
use web3_nft.Table.{Table, lookup, insert}
use web3_nft.Table.Totals.{total, weight_of, total-insert}
use web3_nft.Subgraph.Schema.{
  Proposal, Store, ProposalStatus, pending, active, cancelled, vetoed, queued, executed,
}
use web3_nft.Subgraph.Helpers.{
  get_governance_entity, get_or_create_proposal, get_or_create_delegate,
}
use web3_nft.Subgraph.Helpers.Views.{
  ProposalsAreKeyed, get_or_create_proposal-frame, get_or_create_proposal-id,
}
use web3_nft.Subgraph.Dao.Rows.{
  proposal_in, status_at, describe-id, describe-status, describe-start_block, proposal_in-insert,
}
use web3_nft.Subgraph.Dao.Frames.{loaded-frame}
use web3_nft.Subgraph.Dao.{
  ProposalCreated, ProposalQueued, VoteCast, is_pending, report_unknown, describe,
  handle_proposal_created, handle_proposal_canceled, handle_proposal_vetoed, handle_proposal_queued,
  handle_proposal_executed, handle_vote_cast,
}

abbrev pub is_queued : Option ProposalStatus → Bool
is_queued (some queued) = true
is_queued _ = false

abbrev pub queued_weight : Proposal → ℤ
queued_weight p = if is_queued p.status then pos 1 else pos 0

abbrev pub queued_in : Store → ℤ
queued_in s = total queued_weight s.proposals

abbrev pub counter : Store → ℤ
counter s = (get_governance_entity s).proposals_queued

-- The counter of queued proposals equals the number of proposals with that status.
abbrev pub QueuedCounted : Store → Type 0
QueuedCounted s = counter s ≡ queued_in s

weight_of-proposal :
    (t : Table Proposal) (id : String)
    → weight_of queued_weight (lookup id t) ≡ queued_weight (proposal_in t id)
weight_of-proposal t id = elim (Option-cases (lookup id t)) [ inl e ↦ rw e | inr (p, e) ↦ rw e ]

module _ (id : String) (s : Store) where
  pub proposal-value : (get_or_create_proposal id s).0 ≡ proposal_in s.proposals id
  unfolding get_or_create_proposal
  proposal-value = ground arith

  pub proposals_queued-get_or_create :
      (get_governance_entity (get_or_create_proposal id s).1).proposals_queued
      ≡ (get_governance_entity s).proposals_queued
  unfolding get_governance_entity get_or_create_proposal
  proposals_queued-get_or_create = ground arith

  abbrev pub was_queued : ℤ
  was_queued = queued_weight (proposal_in s.proposals id)

  -- One row of the proposals gets a new status.
  pub total-saved :
      (p : Proposal)
      → ProposalsAreKeyed s
      → p.id ≡ (get_or_create_proposal id s).0.id
      → total queued_weight (insert p.id p (get_or_create_proposal id s).1.proposals) +ℤ was_queued
        ≡ queued_in s +ℤ queued_weight p
  total-saved p h e =
      let key : p.id ≡ id = e ∙ get_or_create_proposal-id id s h in
      omega (
        int_laws,
        parts_of_eq _ _ (
            ap (λ (t : Table Proposal). total queued_weight (insert p.id p t))
              ((get_or_create_proposal-frame id s).2)),
        parts_of_eq _ _ (total-insert queued_weight p.id p s.proposals),
        parts_of_eq _ _ (
            ap (λ k. weight_of queued_weight (lookup k s.proposals)) key
            ∙ weight_of-proposal s.proposals id),
      )

-- Where the counter was the number of queued proposals, queueing a proposal that is not queued
-- keeps it so.
pub queued-QueuedCounted :
    (event : ProposalQueued) (s : Store)
    → ProposalsAreKeyed s
    → status_at s event.id ≢ some queued
    → QueuedCounted s
    → QueuedCounted (handle_proposal_queued event s)
unfolding handle_proposal_queued get_governance_entity
queued-QueuedCounted event s h ne counted =
    let p = (get_or_create_proposal event.id s).0 in
    let p' = record p { status = some queued; execution_eta = some event.eta } in
    let old : was_queued event.id s ≡ pos 0 = ground arith in
    omega (
      int_laws,
      parts_of_eq _ _ (total-saved event.id s p' h refl),
      parts_of_eq _ _ old,
      parts_of_eq _ _ counted,
    )

-- Where the counter was the number of queued proposals, executing a queued one keeps it so.
pub executed-QueuedCounted :
    (id : String) (s : Store)
    → ProposalsAreKeyed s
    → status_at s id ≡ some queued
    → QueuedCounted s
    → QueuedCounted (handle_proposal_executed id s)
unfolding handle_proposal_executed get_governance_entity
executed-QueuedCounted id s h e counted =
    let p = (get_or_create_proposal id s).0 in
    let p' = record p { status = some executed; execution_eta = none } in
    let old : was_queued id s ≡ pos 1 = ground arith in
    omega (
      int_laws,
      parts_of_eq _ _ (total-saved id s p' h refl),
      parts_of_eq _ _ old,
      parts_of_eq _ _ counted,
    )

-- A queued proposal that is cancelled or vetoed stays in the counter: where the counter was right,
-- it is one more than the number of queued proposals afterwards.
pub dropped_queued_overcounts :
    (id : String) (s : Store)
    → ProposalsAreKeyed s
    → status_at s id ≡ some queued
    → QueuedCounted s
    → (counter (handle_proposal_canceled id s) ≡ queued_in (handle_proposal_canceled id s) +ℤ pos 1)
      × (counter (handle_proposal_vetoed id s) ≡ queued_in (handle_proposal_vetoed id s) +ℤ pos 1)
unfolding handle_proposal_canceled handle_proposal_vetoed get_governance_entity
dropped_queued_overcounts id s h e counted =
    let p = (get_or_create_proposal id s).0 in
    let old : was_queued id s ≡ pos 1 = ground arith in
    (
      omega (
        int_laws,
        parts_of_eq _ _ (total-saved id s (record p { status = some cancelled }) h refl),
        parts_of_eq _ _ old,
        parts_of_eq _ _ (proposals_queued-get_or_create id s),
        parts_of_eq _ _ counted,
      ),
      omega (
        int_laws,
        parts_of_eq _ _ (total-saved id s (record p { status = some vetoed }) h refl),
        parts_of_eq _ _ old,
        parts_of_eq _ _ (proposals_queued-get_or_create id s),
        parts_of_eq _ _ counted,
      ),
    )

-- A created proposal is active where its voting has begun by the block of the event, and pending
-- otherwise; it keeps the event's data, and any other proposal `j` is unchanged.
pub created-status :
    (event : ProposalCreated) (s : Store) (j : String)
    → ProposalsAreKeyed s
    → j ≢ event.id
    → (status_at (handle_proposal_created event s) event.id
        ≡ some (if leb event.start_block event.block_number then active else pending))
      × ((proposal_in (handle_proposal_created event s).proposals event.id).start_block
          ≡ some event.start_block)
      × (proposal_in (handle_proposal_created event s).proposals j ≡ proposal_in s.proposals j)
unfolding handle_proposal_created
created-status event s j h n =
    let (p, s₁) = get_or_create_proposal event.id s in
    let proposer =
      (get_or_create_delegate event.proposer (report_unknown event.proposer s₁)).0.id in
    let p' = describe event proposer p in
    let id : p'.id ≡ event.id =
      describe-id event proposer p ∙ get_or_create_proposal-id event.id s h in
    let rows =
      ap (λ (t : Table Proposal). insert p'.id p' t) ((loaded-frame event.id event.proposer s).1) in
    let at = λ (j : String).
      ap (λ (t : Table Proposal). proposal_in t j) rows ∙ proposal_in-insert s.proposals p' j in
    (
      ground (arith, at event.id, id, eq_iff p'.id event.id, describe-status event proposer p),
      ground (arith, at event.id, id, eq_iff p'.id event.id, describe-start_block event proposer p),
      ground (arith, at j, id, eq_iff p'.id j),
    )

-- A vote makes a pending proposal active and leaves every other status as it is.
pub vote-status :
    (event : VoteCast) (s : Store)
    → ProposalsAreKeyed s
    → (j : String)
    → status_at (handle_vote_cast event s) j ≡ (
        if str_eq event.proposal_id j && is_pending (status_at s j)
        then some active
        else status_at s j)
unfolding handle_vote_cast
vote-status event s h j =
    let p = (get_or_create_proposal event.proposal_id s).0 in
    let p' = record p { status = some active } in
    let same = (loaded-frame event.proposal_id event.voter s).1 in
    let id : p.id ≡ event.proposal_id = get_or_create_proposal-id event.proposal_id s h in
    let value : p ≡ proposal_in s.proposals event.proposal_id =
      proposal-value event.proposal_id s in
    elim (Bool-cases (is_pending p.status)) [
      | inl e ↦
          let rows = ap (λ (t : Table Proposal). insert p.id p' t) same in
          rw (e, handle_vote_cast)
            (ground (
              arith,
              ap (λ (t : Table Proposal). proposal_in t j) rows,
              id,
              value,
              eq_iff event.proposal_id j,
              proposal_in-insert s.proposals p' j,
            ))
      | inr e ↦
          rw (e, handle_vote_cast)
            (ground (
              arith,
              ap (λ (t : Table Proposal). proposal_in t j) same,
              value,
              eq_iff event.proposal_id j,
            ))
    ]
