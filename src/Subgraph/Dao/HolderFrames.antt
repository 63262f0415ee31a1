-- ===== src/Subgraph/Dao/HolderFrames.antt =====
-- The counter of token holders after the DAO's events, none of which changes it.
use web3_nft.Prelude.{String, ◌≡◌, refl, ◌∙◌, arith}
use web3_nft.Subgraph.Schema.{Store}
use web3_nft.Subgraph.Helpers.{get_governance_entity, get_or_create_proposal}
use web3_nft.Subgraph.Dao.{
  ProposalCreated, ProposalQueued, VoteCast, report_unknown, handle_proposal_created,
  handle_proposal_canceled, handle_proposal_vetoed, handle_proposal_queued,
  handle_proposal_executed, handle_vote_cast,
}
use web3_nft.Subgraph.Dao.Frames.{loaded}
use web3_nft.Subgraph.Tokens.Counters.{holders, holders-get_or_create_delegate}

proposal-holders : (id : String) (s : Store) → holders (get_or_create_proposal id s).1 ≡ holders s
unfolding get_or_create_proposal get_governance_entity
proposal-holders id s = ground arith

report-holders : (id : String) (s : Store) → holders (report_unknown id s) ≡ holders s
unfolding get_governance_entity
report-holders id s = ground arith

loaded-holders :
    (proposal delegate : String) (s : Store) → holders (loaded proposal delegate s) ≡ holders s
loaded-holders proposal delegate s =
    let s₁ = (get_or_create_proposal proposal s).1 in
    holders-get_or_create_delegate delegate (report_unknown delegate s₁)
    ∙ report-holders delegate s₁
    ∙ proposal-holders proposal s

pub created-holders :
    (e : ProposalCreated) (s : Store) → holders (handle_proposal_created e s) ≡ holders s
unfolding handle_proposal_created get_governance_entity
created-holders e s = loaded-holders e.id e.proposer s

pub canceled-holders :
    (id : String) (s : Store) → holders (handle_proposal_canceled id s) ≡ holders s
unfolding handle_proposal_canceled get_governance_entity
canceled-holders id s = proposal-holders id s

pub vetoed-holders : (id : String) (s : Store) → holders (handle_proposal_vetoed id s) ≡ holders s
unfolding handle_proposal_vetoed get_governance_entity
vetoed-holders id s = proposal-holders id s

pub queued-holders :
    (e : ProposalQueued) (s : Store) → holders (handle_proposal_queued e s) ≡ holders s
unfolding handle_proposal_queued get_governance_entity
queued-holders e s = refl

pub executed-holders :
    (id : String) (s : Store) → holders (handle_proposal_executed id s) ≡ holders s
unfolding handle_proposal_executed get_governance_entity
executed-holders id s = refl

pub vote-holders : (e : VoteCast) (s : Store) → holders (handle_vote_cast e s) ≡ holders s
unfolding handle_vote_cast get_governance_entity
vote-holders e s = ground (arith, loaded-holders e.proposal_id e.voter s)
