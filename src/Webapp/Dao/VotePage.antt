-- ===== src/Webapp/Dao/VotePage.antt =====
-- pages/Vote/index.tsx
pub mod Pending
pub mod Moves
use web3_nft.Prelude.{
  ℕ, String, Bool, true, false, not, ◌&&◌, ◌||◌, Option, none, some, List, [], ◌∷◌, ◌++◌, str_eq,
  ltb, leb, ◌==◌, if◌then◌else◌, or_else,
}
use web3_nft.Webapp.Dao.Transactions.{
  idle, mining, success, fail, exception, TransactionStatus, AlertModal, alert, or_text,
}

-- The numbers of the contract's states, of wrappers/wordsDao.ts.
pub data ProposalState : Type 0 where
  undetermined : ProposalState
  pending : ProposalState
  active : ProposalState
  canceled : ProposalState
  defeated : ProposalState
  succeeded : ProposalState
  queued : ProposalState
  expired : ProposalState
  executed : ProposalState
  vetoed : ProposalState

-- The part of a proposal that the page computes with. Times are milliseconds.
pub record ProposalView : Type 0 where
  pub id : String
  pub status : ProposalState
  pub for_count : ℕ
  pub against_count : ℕ
  pub quorum_votes : ℕ
  pub eta : Option ℕ

pub record VotePage : Type 0 where
  pub show_vote_modal : Bool
  pub is_vote_pending : Bool
  pub is_queue_pending : Bool
  pub is_execute_pending : Bool
  pub alerts : List AlertModal

abbrev pub set_modal : AlertModal → VotePage → VotePage
set_modal a page = record page { alerts = page.alerts ++ a ∷ [] }

-- `error.match(/voter already voted/)` is an argument.
abbrev pub get_vote_error_message : (String → Bool) → Option String → Option String
get_vote_error_message already_voted none = none
get_vote_error_message already_voted (some e) =
    if already_voted e then some "User Already Voted" else some e

unfoldable pub on_transaction_state_change :
    TransactionStatus
    → String
    → (Bool → VotePage → VotePage)
    → (Option String → Option String)
    → (VotePage → VotePage)
    → VotePage
    → VotePage
on_transaction_state_change tx success_message set_pending get_error_message on_final_state page =
    elim tx.status [
      | idle ↦ set_pending false page
      | mining ↦ set_pending true page
      | success ↦ on_final_state (
          set_pending false (
            set_modal
              (alert "Success"
                (if str_eq success_message "" then "Transaction Successful!" else success_message))
              page))
      | fail ↦ on_final_state (
          set_pending false (
            set_modal (alert "Transaction Failed" (or_text tx.error_message "Please try again."))
              page))
      | exception ↦ on_final_state (
          set_pending false (
            set_modal
              (alert "Error" (or_text (get_error_message tx.error_message) "Please try again."))
              page))
    ]

abbrev pub set_vote_pending : Bool → VotePage → VotePage
set_vote_pending b page = record page { is_vote_pending = b }

abbrev pub set_queue_pending : Bool → VotePage → VotePage
set_queue_pending b page = record page { is_queue_pending = b }

abbrev pub set_execute_pending : Bool → VotePage → VotePage
set_execute_pending b page = record page { is_execute_pending = b }

abbrev pub hide_vote_modal : VotePage → VotePage
hide_vote_modal page = record page { show_vote_modal = false }

-- The three effects. The ones of queueing and executing pass no function for error messages.
unfoldable pub cast_vote_effect : (String → Bool) → TransactionStatus → VotePage → VotePage
unfolding on_transaction_state_change
cast_vote_effect already_voted tx =
    on_transaction_state_change tx "Vote Successful!" set_vote_pending
      (get_vote_error_message already_voted) hide_vote_modal

unfoldable pub queue_effect : TransactionStatus → VotePage → VotePage
unfolding on_transaction_state_change
queue_effect tx =
    on_transaction_state_change tx "Proposal Queued!" set_queue_pending (λ e. none) (λ page. page)

unfoldable pub execute_effect : TransactionStatus → VotePage → VotePage
unfolding on_transaction_state_change
execute_effect tx =
    on_transaction_state_change tx "Proposal Executed!" set_execute_pending (λ e. none)
      (λ page. page)

-- The states of the three transactions, in the order in which they come.
pub data PageEvent : Type 0 where
  cast_vote_state : TransactionStatus → PageEvent
  queue_proposal_state : TransactionStatus → PageEvent
  execute_proposal_state : TransactionStatus → PageEvent

unfoldable pub page_effect : (String → Bool) → PageEvent → VotePage → VotePage
unfolding cast_vote_effect queue_effect execute_effect
page_effect already_voted (cast_vote_state tx) = cast_vote_effect already_voted tx
page_effect already_voted (queue_proposal_state tx) = queue_effect tx
page_effect already_voted (execute_proposal_state tx) = execute_effect tx

unfoldable pub page_effects : (String → Bool) → List PageEvent → VotePage → VotePage
page_effects already_voted [] page = page
page_effects already_voted (e ∷ es) page =
    page_effects already_voted es (page_effect already_voted e page)

abbrev pub has_succeeded : Option ProposalView → Bool
has_succeeded none = false
has_succeeded (some p) = elim p.status [ succeeded ↦ true | _ ↦ false ]

-- A missing time is the largest safe number.
unfoldable pub is_awaiting_state_change : ℕ → Option ProposalView → Bool
is_awaiting_state_change now none = false
is_awaiting_state_change now (some p) = elim p.status [
  | succeeded ↦ true
  | queued ↦ leb (or_else p.eta 9007199254740991) now
  | _ ↦ false
]

pub data StateCall : Type 0 where
  queue_proposal : Option String → StateCall
  execute_proposal : Option String → StateCall

unfoldable pub move_state_action : Option ProposalView → StateCall
move_state_action none = execute_proposal none
move_state_action (some p) =
    if has_succeeded (some p) then queue_proposal (some p.id) else execute_proposal (some p.id)

-- The button that is there while a change is awaited: what it is for.
unfoldable pub move_state_button : ℕ → Option ProposalView → Option StateCall
unfolding is_awaiting_state_change move_state_action
move_state_button now proposal =
    if is_awaiting_state_change now proposal then some (move_state_action proposal) else none

-- What its press sends: it is disabled while queueing or executing waits.
unfoldable pub press_move_state : VotePage → ℕ → Option ProposalView → Option StateCall
unfolding move_state_button
press_move_state page now proposal =
    if page.is_queue_pending || page.is_execute_pending
    then none
    else move_state_button now proposal

-- A missing proposal counts no votes.
unfoldable pub quorum_reached : Option ProposalView → Bool
quorum_reached none = ltb 0 0 && leb 0 0
quorum_reached (some p) = ltb p.against_count p.for_count && leb p.quorum_votes p.for_count

unfoldable pub show_voting_buttons : Option ℕ → Bool → Option ProposalView → Bool
show_voting_buttons none has_voted proposal = false
show_voting_buttons (some votes) has_voted none = false
show_voting_buttons (some votes) has_voted (some p) =
    not (votes == 0) && (not has_voted && (elim p.status [ active ↦ true | _ ↦ false ]))
