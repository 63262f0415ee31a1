-- ===== src/Webapp/Dao/VotePage/Moves.antt =====
-- When the vote page offers to queue or to execute a proposal.
use web3_nft.Prelude.{
  ℕ, ◌≤◌, ◌≡◌, refl, ap, ◌↔◌, ◌||◌, false, inl, inr, some, arith, leb, leb→le, Bool-cases, or_else,
}
use mathlib.Core.Path.{subst}
use web3_nft.Webapp.Dao.VotePage.{
  ProposalState, undetermined, pending, active, canceled, defeated, succeeded, queued, expired,
  executed, vetoed, ProposalView, StateCall, queue_proposal, execute_proposal, VotePage,
  move_state_button, press_move_state,
}

-- The call that is due for a proposal, if any: the proposal has succeeded, or it is queued and its time
-- has come.
pub data IsDue (now : ℕ) (p : ProposalView) : StateCall → Type 0 where
  queue_due : p.status ≡ succeeded → IsDue now p (queue_proposal (some p.id))
  execute_due :
      p.status ≡ queued
      → or_else p.eta 9007199254740991 ≤ now
      → IsDue now p (execute_proposal (some p.id))

module _ (now : ℕ) (p : ProposalView) (call : StateCall) where
  abbrev by_status : ProposalState → ProposalView
  by_status status = record p { status = status }

  sent-IsDue :
      (status : ProposalState)
      → move_state_button now (some (by_status status)) ≡ some call
      → IsDue now (by_status status) call
  unfolding move_state_button
  sent-IsDue succeeded e =
      subst (IsDue now (by_status succeeded)) (ap (λ o. or_else o call) e) (queue_due refl)
  sent-IsDue queued e = elim (Bool-cases (leb (or_else p.eta 9007199254740991) now)) [
    | inl t ↦
        subst (IsDue now (by_status queued)) (ap (λ o. or_else o call) (rw t at e))
          (execute_due refl (leb→le (or_else p.eta 9007199254740991) now t))
    | inr t ↦ cc (rw t at e)
  ]
  sent-IsDue undetermined e = cc e
  sent-IsDue pending e = cc e
  sent-IsDue active e = cc e
  sent-IsDue canceled e = cc e
  sent-IsDue defeated e = cc e
  sent-IsDue expired e = cc e
  sent-IsDue executed e = cc e
  sent-IsDue vetoed e = cc e

due_sent :
    (now : ℕ) (p : ProposalView) (call : StateCall)
    → IsDue now p call
    → move_state_button now (some p) ≡ some call
unfolding move_state_button
due_sent now p _ (queue_due e) = rw (e, move_state_button) refl
due_sent now p _ (execute_due e h) = rw (e, move_state_button) (ground arith)

-- A press sends a call exactly where neither queueing nor executing waits and the call is due:
-- queueing where the proposal has succeeded, executing where it is queued and its time, or the
-- largest safe number in its place, has come.
pub press_move_state-IsDue :
    (page : VotePage) (now : ℕ) (p : ProposalView) (call : StateCall)
    → (press_move_state page now (some p) ≡ some call)
      ↔ (((page.is_queue_pending || page.is_execute_pending) ≡ false) × IsDue now p call)
unfolding press_move_state
press_move_state-IsDue page now p call =
    let waits = page.is_queue_pending || page.is_execute_pending in
    (
      λ sent. elim (Bool-cases waits) [
        | inl e ↦ cc (rw e at sent)
        | inr e ↦ (e, sent-IsDue now p call p.status (rw (e, move_state_button) at sent))
      ],
      λ (e, due). rw (e, move_state_button) (due_sent now p call due),
    )
