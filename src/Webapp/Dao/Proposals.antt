-- ===== src/Webapp/Dao/Proposals.antt =====
-- wrappers/wordsDao.ts: the proposals, put together from the contract's answers and the logs of their
-- creation. An id in decimal digits is the number, and a count of votes is exact.
pub mod Lookup
pub mod Headings
use web3_nft.Prelude.{
  ℕ, zero, suc, ◌*◌, String, Bool, true, false, not, ◌&&◌, Option, none, some, List, [], ◌∷◌, map,
  ◌==◌, if◌then◌else◌, length, get_elem?, or_else, ℤ, sub_ℕ,
}
use mathlib.Core.Option
use web3_nft.Sdk.Hex.{Text}
use web3_nft.Subgraph.Dao.{line_feeds}
use web3_nft.Webapp.Dao.VotePage.{ProposalState, undetermined}
use web3_nft.Webapp.Dao.CreatedLogs.{ProposalDetail, FormattedLog}
use web3_nft.Webapp.Dao.Titles.{title_of}

pub record ProposalCallResult : Type 0 where
  pub id : ℕ
  pub abstain_votes : ℕ
  pub against_votes : ℕ
  pub for_votes : ℕ
  pub canceled : Bool
  pub vetoed : Bool
  pub executed : Bool
  pub start_block : ℕ
  pub end_block : ℕ
  pub eta : ℕ
  pub proposal_threshold : ℕ
  pub proposer : Text
  pub quorum_votes : ℕ

-- `none` is a number that is NaN, or `undefined`.
pub record Proposal : Type 0 where
  pub id : Option ℕ
  pub title : Text
  pub description : Text
  pub status : ProposalState
  pub for_count : ℕ
  pub against_count : ℕ
  pub abstain_count : ℕ
  pub created_block : Option ℤ
  pub start_block : Option ℕ
  pub end_block : Option ℕ
  pub eta : Option ℕ
  pub proposer : Option Text
  pub proposal_threshold : ℕ
  pub quorum_votes : ℕ
  pub details : Option (List ProposalDetail)
  pub transaction_hash : Option String

pub record ProposalData : Type 0 where
  pub data_list : List Proposal
  pub loading : Bool

-- `new Array(count).fill(0).map((_, i) => [i + 1])`, from the place `i` on.
unfoldable pub indices_from : ℕ → ℕ → List ℕ
indices_from i zero = []
indices_from i (suc n) = suc i ∷ indices_from (suc i) n

unfoldable pub count_to_indices : Option ℕ → List ℕ
unfolding indices_from
count_to_indices none = []
count_to_indices (some n) = indices_from 0 n

-- "No description."
abbrev pub no_description : Text
no_description =
    78 ∷ 111 ∷ 32 ∷ 100 ∷ 101 ∷ 115 ∷ 99 ∷ 114 ∷ 105 ∷ 112 ∷ 116 ∷ 105 ∷ 111 ∷ 110 ∷ 46 ∷ []

abbrev pub count_of : (ProposalCallResult → ℕ) → Option ProposalCallResult → ℕ
count_of f none = 0
count_of f (some p) = f p

-- The proposal at a place, of its answer, its state, its log and the delay of voting.
unfoldable pub proposal_of :
    Option ℕ → Option ProposalCallResult → Option ProposalState → Option FormattedLog → Proposal
unfolding line_feeds title_of
proposal_of voting_delay proposal state log =
    let description = Option.map (λ (l : FormattedLog). line_feeds l.description) log in
    record {
      id = Option.map (λ (p : ProposalCallResult). p.id) proposal;
      title = title_of description;
      description = or_else description no_description;
      status = or_else state undetermined;
      for_count = count_of (λ p. p.for_votes) proposal;
      against_count = count_of (λ p. p.against_votes) proposal;
      abstain_count = count_of (λ p. p.abstain_votes) proposal;
      created_block =
          Option.map (λ (p : ProposalCallResult). sub_ℕ p.start_block (or_else voting_delay 0))
            proposal;
      start_block = Option.map (λ (p : ProposalCallResult). p.start_block) proposal;
      end_block = Option.map (λ (p : ProposalCallResult). p.end_block) proposal;
      eta = Option.map (λ (p : ProposalCallResult). p.eta * 1000) proposal;
      proposer = Option.map (λ (p : ProposalCallResult). p.proposer) proposal;
      proposal_threshold = count_of (λ p. p.proposal_threshold) proposal;
      quorum_votes = count_of (λ p. p.quorum_votes) proposal;
      details = Option.map (λ (l : FormattedLog). l.details) log;
      transaction_hash = Option.map (λ (l : FormattedLog). l.transaction_hash) log;
    }

-- `states[i]` and `logs[i]` for the proposals from the place `i` on.
unfoldable pub proposals_from :
    Option ℕ
    → List (Option ProposalState)
    → List FormattedLog
    → ℕ
    → List (Option ProposalCallResult)
    → List Proposal
unfolding proposal_of
proposals_from voting_delay states logs i [] = []
proposals_from voting_delay states logs i (p ∷ ps) =
    proposal_of voting_delay p (or_else (get_elem? states i) none) (get_elem? logs i)
    ∷ proposals_from voting_delay states logs (suc i) ps

-- `useAllProposals`, of the count, the delay, the contract's answers by the index and the logs, which
-- may not have come yet.
unfoldable pub use_all_proposals :
    Option ℕ
    → Option ℕ
    → (ℕ → Option ProposalCallResult)
    → (ℕ → Option ProposalState)
    → Option (List FormattedLog)
    → ProposalData
unfolding count_to_indices proposals_from
use_all_proposals count voting_delay proposals_call state_call formatted_logs =
    let indices = count_to_indices count in
    let proposals = map proposals_call indices in
    let states = map state_call indices in
    let logs = or_else formatted_logs [] in
    if not (length proposals == 0) && length logs == 0
    then record { data_list = []; loading = true }
    else record { data_list = proposals_from voting_delay states logs 0 proposals; loading = false }

unfoldable pub has_id : ℕ → Option ℕ → Bool
has_id id none = false
has_id id (some n) = n == id

unfoldable pub find_proposal : ℕ → List Proposal → Option Proposal
unfolding has_id
find_proposal id [] = none
find_proposal id (p ∷ ps) =
    let rest = find_proposal id ps in if has_id id p.id then some p else rest

-- `useProposal`, of the same arguments.
unfoldable pub use_proposal :
    ℕ
    → Option ℕ
    → Option ℕ
    → (ℕ → Option ProposalCallResult)
    → (ℕ → Option ProposalState)
    → Option (List FormattedLog)
    → Option Proposal
unfolding use_all_proposals find_proposal
use_proposal id count voting_delay proposals_call state_call formatted_logs =
    find_proposal id
      (use_all_proposals count voting_delay proposals_call state_call formatted_logs).data_list
