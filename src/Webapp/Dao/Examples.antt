-- ===== src/Webapp/Dao/Examples.antt =====
-- The theorems about the DAO's pages, applied to one proposal that is written and one that is shown.
use web3_nft.Prelude.{
  ℕ, suc, ◌+◌, ◌-◌, ◌≡◌, refl, sym, ap, ◌↔◌, inl, true, false, not, ◌&&◌, none, some, List, [], ◌∷◌,
  arith, or_else, All,
}
use web3_nft.Webapp.Dao.Transactions.{mining, fail, TransactionStatus}
use web3_nft.Webapp.Dao.VotePage.{
  succeeded, active, ProposalView, VotePage, PageEvent, cast_vote_state, queue_proposal_state,
  page_effects, queue_proposal, press_move_state,
}
use web3_nft.Webapp.Dao.VotePage.Pending.{
  votes_of, queues_of, executes_of, finals, waits, some_final, Shows, page_effects-Shows,
}
use web3_nft.Webapp.Dao.VotePage.Moves.{IsDue, press_move_state-IsDue}
use web3_nft.Webapp.Dao.CreateProposal.{
  ProposalTransaction, is_empty, CreatePage, PageAction, add_transaction, remove_transaction,
  input_title, act_all, press_create, LatestProposal, description_of,
}
use web3_nft.Webapp.Dao.CreateProposal.Transactions.{IsPrefixed, act_all-IsPrefixed}
use web3_nft.Webapp.Dao.CreateProposal.Columns.{call_of}
use web3_nft.Webapp.Dao.CreateProposal.Sending.{Outcome, press_create-Outcome}
use web3_nft.Webapp.Dao.TransactionForm.{
  Packages, Form, initial_form, arguments_validator, step_forward_or_callback,
}
use web3_nft.Webapp.Dao.TransactionForm.Submission.{step_forward_or_callback_lem}
use web3_nft.Webapp.Dao.Titles.{is_space}
use web3_nft.Webapp.Dao.Titles.Extraction.{HasNoPair}
use web3_nft.Webapp.Dao.CreatedLogs.{FormattedLog}
use web3_nft.Webapp.Dao.Proposals.{ProposalCallResult, proposal_of, use_proposal}
use web3_nft.Webapp.Dao.Proposals.Headings.{HasNoEscape, IsPlain, title-description}
use web3_nft.Webapp.Dao.Proposals.Lookup.{AnswersByIndex, use_proposal_lem}

abbrev mined : TransactionStatus
mined = record { status = mining; error_message = none }

abbrev page : VotePage
page = record {
  show_vote_modal = true;
  is_vote_pending = false;
  is_queue_pending = false;
  is_execute_pending = false;
  alerts = [];
}

abbrev page_events : List PageEvent
page_events =
    cast_vote_state mined
    ∷ queue_proposal_state mined
    ∷ cast_vote_state (record { status = fail; error_message = some "voter already voted" })
    ∷ []

page_effects-Shows_example :
    Shows
      (page_effects (λ e. true) page_events page)
      (waits false (votes_of page_events))
      (waits false (queues_of page_events))
      (waits false (executes_of page_events))
      (not (some_final (votes_of page_events)) && true)
      (0 + finals page_events)
page_effects-Shows_example = page_effects-Shows (λ e. true) page_events page

abbrev won : ProposalView
won = record {
  id = "3";
  status = succeeded;
  for_count = 5;
  against_count = 1;
  quorum_votes = 2;
  eta = none;
}

press_move_state-IsDue_example :
    (press_move_state page 1000 (some won) ≡ some (queue_proposal (some "3")))
    ↔ ((false ≡ false) × IsDue 1000 won (queue_proposal (some "3")))
press_move_state-IsDue_example = press_move_state-IsDue page 1000 won (queue_proposal (some "3"))

abbrev payment : ProposalTransaction
payment = record { address = 97 ∷ 98 ∷ []; value = none; signature = []; calldata = 48 ∷ 120 ∷ [] }

abbrev draft : CreatePage
draft = record {
  transactions = [];
  title_value = 65 ∷ 32 ∷ 66 ∷ [];
  body_value = 67 ∷ [];
  show_transaction_form_modal = true;
  is_propose_pending = false;
  alerts = [];
}

abbrev writing : List PageAction
writing =
    add_transaction payment
    ∷ add_transaction payment
    ∷ input_title (68 ∷ [])
    ∷ remove_transaction 0
    ∷ []

act_all-IsPrefixed_example : All IsPrefixed (act_all writing draft).transactions
act_all-IsPrefixed_example = act_all-IsPrefixed writing draft tt

abbrev written : CreatePage
written = record draft { transactions = payment ∷ record payment { value = some (53 ∷ []) } ∷ [] }

abbrev latest : LatestProposal
latest = record { status = active; proposer = some "0xbb" }

written_sent :
    press_create (some 9) (some 4) (some latest) (some "0xaa") written ≡ some (call_of written)
unfolding press_create
written_sent = refl

press_create-Outcome_example :
    Outcome
      (some 9)
      (some 4)
      (some latest)
      (some "0xaa")
      written
      (press_create (some 9) (some 4) (some latest) (some "0xaa") written)
press_create-Outcome_example =
    press_create-Outcome (some 9) (some 4) (some latest) (some "0xaa") written

abbrev answer : ℕ → ProposalCallResult
answer i = record {
  id = i;
  abstain_votes = 0;
  against_votes = 1;
  for_votes = 4;
  canceled = false;
  vetoed = false;
  executed = false;
  start_block = 60;
  end_block = 90;
  eta = 0;
  proposal_threshold = 1;
  proposer = [];
  quorum_votes = 1;
}

answers-AnswersByIndex : AnswersByIndex (λ i. some (answer i))
answers-AnswersByIndex i p e = ap (λ o. (or_else o p).id) (sym e)

abbrev created_log : FormattedLog
created_log = record {
  description = description_of draft.title_value draft.body_value;
  transaction_hash = "0x01";
  details = [];
}

title_IsPlain : IsPlain draft.title_value
unfolding is_space HasNoEscape HasNoPair
title_IsPlain = record {
  line = record { one_line = (refl, (refl, (refl, tt))); begins = refl };
  escapes = (refl, (refl, tt));
  italics = (refl, (refl, tt));
  bold = (refl, (refl, tt));
}

title-description_example :
    (proposal_of (some 1) (some (answer 2)) (some active) (some created_log)).title
    ≡ draft.title_value
title-description_example =
    title-description (some 1) (some (answer 2)) (some active) created_log draft.title_value
      draft.body_value title_IsPlain refl

use_proposal_lem_example :
    use_proposal 2
      (some 3)
      (some 1)
      (λ i. some (answer i))
      (λ i. some active)
      (some (created_log ∷ created_log ∷ created_log ∷ []))
    ≡ some (proposal_of (some 1) (some (answer 2)) (some active) (some created_log))
use_proposal_lem_example =
    use_proposal_lem (λ i. some (answer i)) (λ i. some active) (some 1)
      (created_log ∷ created_log ∷ created_log ∷ []) 3 1 (answer 2) answers-AnswersByIndex refl
      (omega arith) refl

abbrev packages : Packages
packages = record {
  is_address = λ t. true;
  is_number = λ t. true;
  parse_ether = λ t. some t;
  parse_interface = λ t. none;
  step_forward = suc;
  step_backwards = λ n. n - 1;
  step_backwards_lem = λ n. omega arith;
}

abbrev summary : Form
summary = record initial_form { address = 97 ∷ 98 ∷ []; current_step = 4 }

summary_valid : arguments_validator summary ≡ true
unfolding arguments_validator
summary_valid = refl

step_forward_or_callback_lem_example :
    (t : ProposalTransaction) × ((step_forward_or_callback packages summary
        ≡ (record initial_form { abi_file_name = none }, some t))
      × (t.address ≡ 97 ∷ 98 ∷ [])
      × (t.signature ≡ [])
      × (is_empty t.calldata ≡ false))
step_forward_or_callback_lem_example =
    step_forward_or_callback_lem packages summary refl summary_valid (inl refl)
