-- ===== src/Webapp/Dao/CreateProposal.antt =====
-- pages/CreateProposal/index.tsx and components/CreateProposalButton: the proposal that is being
-- written. A text is a list of character codes.
pub mod Transactions
pub mod Columns
pub mod Sending
use web3_nft.Prelude.{
  ℕ, ◌+◌, String, Bool, true, false, not, ◌&&◌, ◌||◌, Option, none, some, List, [], ◌∷◌, ◌++◌, map,
  str_eq, ltb, ◌==◌, if◌then◌else◌, or_else,
}
use web3_nft.Sdk.Hex.{Text}
use web3_nft.Webapp.Dao.Transactions.{
  idle, mining, success, fail, exception, TransactionStatus, AlertModal, alert, or_text,
}
use web3_nft.Webapp.Dao.VotePage.{ProposalState, active, pending}

-- Of wrappers/wordsDao.ts.
pub record ProposalTransaction : Type 0 where
  pub address : Text
  pub value : Option Text
  pub signature : Text
  pub calldata : Text

pub record CreatePage : Type 0 where
  pub transactions : List ProposalTransaction
  pub title_value : Text
  pub body_value : Text
  pub show_transaction_form_modal : Bool
  pub is_propose_pending : Bool
  pub alerts : List AlertModal

-- `text.startsWith('0x')`
unfoldable pub starts_with_0x : Text → Bool
starts_with_0x [] = false
starts_with_0x (c ∷ []) = false
starts_with_0x (c ∷ d ∷ cs) = c == 48 && d == 120

unfoldable pub with_0x : Text → Text
unfolding starts_with_0x
with_0x text = if starts_with_0x text then text else 48 ∷ 120 ∷ text

unfoldable pub handle_add_proposal_action : ProposalTransaction → CreatePage → CreatePage
unfolding with_0x
handle_add_proposal_action transaction page =
    let prefixed = record transaction {
      address = with_0x transaction.address;
      calldata = with_0x transaction.calldata;
    } in
    record page {
      transactions = page.transactions ++ prefixed ∷ [];
      show_transaction_form_modal = false;
    }

-- `transactions.filter((_, i) => i !== index)`, from the place `i` on.
unfoldable pub filter_index : ℕ → ℕ → List ProposalTransaction → List ProposalTransaction
filter_index index i [] = []
filter_index index i (t ∷ ts) =
    let rest = filter_index index (i + 1) ts in if i == index then rest else t ∷ rest

unfoldable pub handle_remove_proposal_action : ℕ → CreatePage → CreatePage
unfolding filter_index
handle_remove_proposal_action index page = record page {
  transactions = filter_index index 0 page.transactions;
}

abbrev pub handle_title_input : Text → CreatePage → CreatePage
handle_title_input title page = record page { title_value = title }

abbrev pub handle_body_input : Text → CreatePage → CreatePage
handle_body_input body page = record page { body_value = body }

abbrev pub is_empty {ℓ} : {A : Type ℓ} → List A → Bool
is_empty [] = true
is_empty (x ∷ xs) = false

unfoldable pub is_form_invalid : CreatePage → Bool
is_form_invalid page =
    is_empty page.transactions || (is_empty page.title_value || is_empty page.body_value)

-- A count of 0, like a missing one, is no vote.
unfoldable pub has_enough_vote : Option ℕ → Option ℕ → Bool
has_enough_vote none threshold = false
has_enough_vote (some votes) none = false
has_enough_vote (some votes) (some threshold) = not (votes == 0) && ltb threshold votes

-- The call of the contract's `propose`.
pub record ProposeCall : Type 0 where
  pub targets : List Text
  pub values : List Text
  pub signatures : List Text
  pub calldatas : List Text
  pub description : Text

-- The title under one number sign (35), and the body after two line feeds (10).
abbrev pub description_of : Text → Text → Text
description_of title body = 35 ∷ 32 ∷ (title ++ (10 ∷ 10 ∷ body))

-- `value ?? '0'`
abbrev pub value_or_zero : ProposalTransaction → Text
value_or_zero t = or_else t.value (48 ∷ [])

unfoldable pub handle_create_proposal : CreatePage → Option ProposeCall
handle_create_proposal page =
    if is_empty page.transactions
    then none
    else some (record {
      targets = map (λ (t : ProposalTransaction). t.address) page.transactions;
      values = map value_or_zero page.transactions;
      signatures = map (λ (t : ProposalTransaction). t.signature) page.transactions;
      calldatas = map (λ (t : ProposalTransaction). t.calldata) page.transactions;
      description = description_of page.title_value page.body_value;
    })

-- The latest proposal, where its own status is active or pending and its proposer is the account.
pub record LatestProposal : Type 0 where
  pub status : ProposalState
  pub proposer : Option String

abbrev pub is_active_or_pending : ProposalState → Bool
is_active_or_pending active = true
is_active_or_pending pending = true
is_active_or_pending _ = false

-- `latestProposal.proposer === account`, where either may be undefined.
unfoldable pub is_same_account : Option String → Option String → Bool
is_same_account none none = true
is_same_account none (some b) = false
is_same_account (some a) none = false
is_same_account (some a) (some b) = str_eq a b

unfoldable pub has_active_or_pending_proposal : Option LatestProposal → Option String → Bool
unfolding is_same_account
has_active_or_pending_proposal none account = false
has_active_or_pending_proposal (some p) account =
    is_active_or_pending p.status && is_same_account p.proposer account

-- What a press of the button sends; it is disabled otherwise.
unfoldable pub press_create :
    Option ℕ → Option ℕ → Option LatestProposal → Option String → CreatePage → Option ProposeCall
unfolding is_form_invalid has_enough_vote handle_create_proposal has_active_or_pending_proposal
press_create votes threshold latest account page =
    let disabled =
      is_form_invalid page
      || (has_active_or_pending_proposal latest account || not (has_enough_vote votes threshold)) in
    if disabled then none else handle_create_proposal page

abbrev pub set_alert : String → String → CreatePage → CreatePage
set_alert title message page = record page {
  is_propose_pending = false;
  alerts = page.alerts ++ alert title message ∷ [];
}

unfoldable pub propose_effect : TransactionStatus → CreatePage → CreatePage
propose_effect tx page = elim tx.status [
  | idle ↦ record page { is_propose_pending = false }
  | mining ↦ record page { is_propose_pending = true }
  | success ↦ set_alert "Success" "Proposal Created!" page
  | fail ↦ set_alert "Transaction Failed" (or_text tx.error_message "Please try again.") page
  | exception ↦ set_alert "Error" (or_text tx.error_message "Please try again.") page
]

pub data PageAction : Type 0 where
  add_transaction : ProposalTransaction → PageAction
  remove_transaction : ℕ → PageAction
  input_title : Text → PageAction
  input_body : Text → PageAction
  propose_state : TransactionStatus → PageAction

unfoldable pub act : PageAction → CreatePage → CreatePage
unfolding handle_add_proposal_action handle_remove_proposal_action propose_effect
act (add_transaction t) page = handle_add_proposal_action t page
act (remove_transaction i) page = handle_remove_proposal_action i page
act (input_title title) page = handle_title_input title page
act (input_body body) page = handle_body_input body page
act (propose_state tx) page = propose_effect tx page

unfoldable pub act_all : List PageAction → CreatePage → CreatePage
act_all [] page = page
act_all (a ∷ actions) page = act_all actions (act a page)
