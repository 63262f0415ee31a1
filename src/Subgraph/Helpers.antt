-- ===== src/Subgraph/Helpers.antt =====
-- utils/helpers.ts. Each function is its call with the default flags, the only ones in use, but for
-- `find_delegate`, the call with `createIfNotFound = false`. A loaded entity is a copy: the store
-- changes when it is saved.
pub mod Views
use web3_nft.Prelude.{
  zero, ◌+◌, ◌-◌, ◌/◌, String, false, not, Option, none, some, [], str_eq, if◌then◌else◌, or_else,
  ℤ, pos, ◌+ℤ◌,
}
use web3_nft.Table.{lookup, insert}
use web3_nft.Subgraph.Schema.{zero_address, Account, Delegate, Proposal, Vote, Governance, Store}

abbrev pub save_account : Account → Store → Store
save_account a s = record s { accounts = insert a.id a s.accounts }

abbrev pub save_delegate : Delegate → Store → Store
save_delegate d s = record s { delegates = insert d.id d s.delegates }

abbrev pub save_proposal : Proposal → Store → Store
save_proposal p s = record s { proposals = insert p.id p s.proposals }

abbrev pub save_vote : Vote → Store → Store
save_vote v s = record s { votes = insert v.id v s.votes }

abbrev pub save_governance : Governance → Store → Store
save_governance g s = record s { governance = some g }

abbrev pub new_account : String → Account
new_account id = record {
  id = id;
  delegate = none;
  token_balance_raw = pos 0;
  token_balance = pos 0;
  total_tokens_held_raw = pos 0;
  total_tokens_held = pos 0;
  words = [];
}

abbrev pub new_delegate : String → Delegate
new_delegate id = record {
  id = id;
  delegated_votes_raw = pos 0;
  delegated_votes = pos 0;
  token_holders_represented_amount = pos 0;
  words_represented = [];
}

abbrev pub new_proposal : String → Proposal
new_proposal id = record {
  id = id;
  proposer = none;
  targets = none;
  values = none;
  signatures = none;
  calldatas = none;
  created_timestamp = none;
  start_block = none;
  end_block = none;
  proposal_threshold = none;
  quorum_votes = none;
  description = none;
  status = none;
  execution_eta = none;
}

abbrev pub new_vote : String → Vote
new_vote id = record {
  id = id;
  support = none;
  support_detailed = none;
  votes_raw = none;
  votes = none;
  voter = none;
  words = none;
  proposal = none;
}

abbrev pub new_governance : Governance
new_governance = record {
  proposals = pos 0;
  current_token_holders = pos 0;
  current_delegates = pos 0;
  total_token_holders = pos 0;
  total_delegates = pos 0;
  delegated_votes_raw = pos 0;
  delegated_votes = pos 0;
  proposals_queued = pos 0;
}

-- A new governance entity is not saved here.
unfoldable pub get_governance_entity : Store → Governance
get_governance_entity s = or_else s.governance new_governance

unfoldable pub get_or_create_account : String → Store → Account × Store
get_or_create_account id s = elim (lookup id s.accounts) [
  | none ↦ (new_account id, save_account (new_account id) s)
  | some a ↦ (a, s)
]

-- The zero address is not counted as a delegate.
abbrev pub count_delegate : String → Store → Store
count_delegate id s =
    let g = get_governance_entity s in
    let counted = record g { total_delegates = g.total_delegates +ℤ pos 1 } in
    record s { governance = if str_eq id zero_address then s.governance else some counted }

unfoldable pub get_or_create_delegate : String → Store → Delegate × Store
get_or_create_delegate id s = elim (lookup id s.delegates) [
  | none ↦ (new_delegate id, save_delegate (new_delegate id) (count_delegate id s))
  | some d ↦ (d, s)
]

unfoldable pub find_delegate : String → Store → Option Delegate
find_delegate id s = lookup id s.delegates

unfoldable pub get_or_create_vote : String → Store → Vote
get_or_create_vote id s = or_else (lookup id s.votes) (new_vote id)

unfoldable pub get_or_create_proposal : String → Store → Proposal × Store
get_or_create_proposal id s = elim (lookup id s.proposals) [
  | none ↦
      let g = get_governance_entity s in
      (new_proposal id, save_governance (record g { proposals = g.proposals +ℤ pos 1 }) s)
  | some p ↦ (p, s)
]
