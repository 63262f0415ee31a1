-- ===== src/Subgraph/Dao.antt =====
-- nouns-dao.ts
pub mod Frames
pub mod HolderFrames
pub mod Rows
pub mod Status
pub mod Queue
use web3_nft.Prelude.{
  ℕ, ◌+◌, ◌-◌, String, Bool, true, false, ◌&&◌, Option, none, some, List, [], ◌∷◌, ◌++◌, leb, ◌==◌,
  if◌then◌else◌, ℤ, pos, ◌+ℤ◌, ◌-ℤ◌,
}
use Prim.Native.String
use web3_nft.Subgraph.Schema.{
  Proposal, Store, ProposalStatus, pending, active, cancelled, vetoed, queued, executed,
  delegate_not_found, log_error,
}
use web3_nft.Subgraph.Helpers.{
  save_proposal, save_vote, save_governance, get_governance_entity, get_or_create_delegate,
  find_delegate, get_or_create_vote, get_or_create_proposal,
}

pub record ProposalCreated : Type 0 where
  pub id : String
  pub proposer : String
  pub targets : List String
  pub values : List ℕ
  pub signatures : List String
  pub calldatas : List String
  pub start_block : ℕ
  pub end_block : ℕ
  pub proposal_threshold : ℕ
  pub quorum_votes : ℕ
  pub description : List ℕ
  pub block_number : ℕ
  pub block_timestamp : ℕ

pub record ProposalQueued : Type 0 where
  pub id : String
  pub eta : ℕ

pub record VoteCast : Type 0 where
  pub proposal_id : String
  pub voter : String
  pub votes : ℕ
  pub support : ℕ

-- `description.split('\\n').join('\n')` over code points: each backslash (92) before an n (110)
-- becomes, with it, a line feed (10).
unfoldable pub line_feeds : List ℕ → List ℕ
line_feeds [] = []
line_feeds (c ∷ []) = c ∷ []
line_feeds (c ∷ d ∷ rest) =
    let found = 10 ∷ line_feeds rest in
    let plain = c ∷ line_feeds (d ∷ rest) in if c == 92 && d == 110 then found else plain

abbrev pub report_unknown : String → Store → Store
report_unknown id s = elim (find_delegate id s) [
  | none ↦ log_error (delegate_not_found id) s
  | some _ ↦ s
]

-- The proposal with the data of its creation.
pub describe : ProposalCreated → String → Proposal → Proposal
unfolding line_feeds
describe event proposer proposal = record proposal {
  proposer = some proposer;
  targets = some event.targets;
  values = some event.values;
  signatures = some event.signatures;
  calldatas = some event.calldatas;
  created_timestamp = some event.block_timestamp;
  start_block = some event.start_block;
  end_block = some event.end_block;
  proposal_threshold = some event.proposal_threshold;
  quorum_votes = some event.quorum_votes;
  description = some (line_feeds event.description);
  status = some (if leb event.start_block event.block_number then active else pending);
}

pub handle_proposal_created : ProposalCreated → Store → Store
unfolding describe find_delegate
handle_proposal_created event s =
    let (proposal, s₁) = get_or_create_proposal event.id s in
    let (proposer, s₂) = get_or_create_delegate event.proposer (report_unknown event.proposer s₁) in
    save_proposal (describe event proposer.id proposal) s₂

pub handle_proposal_canceled : String → Store → Store
handle_proposal_canceled id s =
    let (proposal, s₁) = get_or_create_proposal id s in
    save_proposal (record proposal { status = some cancelled }) s₁

pub handle_proposal_vetoed : String → Store → Store
handle_proposal_vetoed id s =
    let (proposal, s₁) = get_or_create_proposal id s in
    save_proposal (record proposal { status = some vetoed }) s₁

pub handle_proposal_queued : ProposalQueued → Store → Store
handle_proposal_queued event s =
    let governance = get_governance_entity s in
    let (proposal, s₁) = get_or_create_proposal event.id s in
    save_governance (record governance { proposals_queued = governance.proposals_queued +ℤ pos 1 })
      (save_proposal (record proposal { status = some queued; execution_eta = some event.eta }) s₁)

pub handle_proposal_executed : String → Store → Store
handle_proposal_executed id s =
    let governance = get_governance_entity s in
    let (proposal, s₁) = get_or_create_proposal id s in
    save_governance (record governance { proposals_queued = governance.proposals_queued -ℤ pos 1 })
      (save_proposal (record proposal { status = some executed; execution_eta = none }) s₁)

-- `proposal.status == STATUS_PENDING`; the comparison is false where the status was never set.
abbrev pub is_pending : Option ProposalStatus → Bool
is_pending (some pending) = true
is_pending _ = false

pub handle_vote_cast : VoteCast → Store → Store
unfolding find_delegate
handle_vote_cast event s =
    let (proposal, s₁) = get_or_create_proposal event.proposal_id s in
    let id = String.◌++◌ event.voter (String.◌++◌ "-" event.proposal_id) in
    let vote = get_or_create_vote id s₁ in
    let (voter, s₂) = get_or_create_delegate event.voter (report_unknown event.voter s₁) in
    let s₃ =
      save_vote
        (record vote {
          proposal = some proposal.id;
          voter = some voter.id;
          votes_raw = some event.votes;
          votes = some event.votes;
          support = some (event.support == 1);
          support_detailed = some event.support;
          words = some voter.words_represented;
        })
        s₂ in
    if is_pending proposal.status
    then save_proposal (record proposal { status = some active }) s₃
    else s₃
