-- ===== src/Webapp/Dao/VotePage/Pending.antt =====
-- Whether the buttons of the vote page wait, over a run of transaction states.
use web3_nft.Prelude.{
  ℕ, ◌+◌, String, ◌≡◌, refl, ap, ◌∙◌, Bool, true, false, not, ◌&&◌, ◌||◌, Option, List, [], ◌∷◌,
  ◌++◌, arith, if◌then◌else◌, length, length-append,
}
use web3_nft.Webapp.Dao.Transactions.{
  Status, idle, mining, success, fail, exception, TransactionStatus, AlertModal, is_mining,
  is_final,
}
use web3_nft.Webapp.Dao.VotePage.{
  VotePage, cast_vote_effect, queue_effect, execute_effect, PageEvent, cast_vote_state,
  queue_proposal_state, execute_proposal_state, page_effect, page_effects,
}

-- The states of one of the transactions.
pub votes_of : List PageEvent → List TransactionStatus
votes_of [] = []
votes_of (cast_vote_state tx ∷ es) = tx ∷ votes_of es
votes_of (_ ∷ es) = votes_of es

pub queues_of : List PageEvent → List TransactionStatus
queues_of [] = []
queues_of (queue_proposal_state tx ∷ es) = tx ∷ queues_of es
queues_of (_ ∷ es) = queues_of es

pub executes_of : List PageEvent → List TransactionStatus
executes_of [] = []
executes_of (execute_proposal_state tx ∷ es) = tx ∷ executes_of es
executes_of (_ ∷ es) = executes_of es

abbrev pub status_of : PageEvent → Status
status_of (cast_vote_state tx) = tx.status
status_of (queue_proposal_state tx) = tx.status
status_of (execute_proposal_state tx) = tx.status

-- How many states are final.
pub finals : List PageEvent → ℕ
finals [] = 0
finals (e ∷ es) = (if is_final (status_of e) then 1 else 0) + finals es

-- A transaction waits where the last of its states is that of mining.
pub waits : Bool → List TransactionStatus → Bool
waits before [] = before
waits before (tx ∷ txs) = waits (is_mining tx.status) txs

pub some_final : List TransactionStatus → Bool
some_final [] = false
some_final (tx ∷ txs) = is_final tx.status || some_final txs

and_or : (b c d : Bool) → (not d && (not c && b)) ≡ (not (c || d) && b)
and_or b true true = refl
and_or b true false = refl
and_or b false true = refl
and_or b false false = refl

-- What a page shows: which buttons wait, whether the form is open, and how many alerts were set.
pub record Shows (p : VotePage) (vote queue execute modal : Bool) (alerts : ℕ) : Type 0 where
  pub voting : p.is_vote_pending ≡ vote
  pub queueing : p.is_queue_pending ≡ queue
  pub executing : p.is_execute_pending ≡ execute
  pub form : p.show_vote_modal ≡ modal
  pub count : length p.alerts ≡ alerts

module _ (already_voted : String → Bool) (page : VotePage) where
  without_alert :
      (q : VotePage)
      → q.alerts ≡ page.alerts
      → Shows q q.is_vote_pending q.is_queue_pending q.is_execute_pending q.show_vote_modal
          (length page.alerts + 0)
  without_alert q same = record {
    voting = refl;
    queueing = refl;
    executing = refl;
    form = refl;
    count = ap length same ∙ omega arith;
  }

  with_alert :
      (q : VotePage) (a : AlertModal)
      → q.alerts ≡ page.alerts ++ a ∷ []
      → Shows q q.is_vote_pending q.is_queue_pending q.is_execute_pending q.show_vote_modal
          (length page.alerts + 1)
  with_alert q a more = record {
    voting = refl;
    queueing = refl;
    executing = refl;
    form = refl;
    count = ap length more ∙ omega (arith, length-append page.alerts (a ∷ []));
  }

  vote_step :
      (status : Status) (message : Option String)
      → Shows
          (page_effect already_voted
            (cast_vote_state (record { status = status; error_message = message }))
            page)
          (is_mining status)
          page.is_queue_pending
          page.is_execute_pending
          (not (is_final status) && page.show_vote_modal)
          (length page.alerts + (if is_final status then 1 else 0))
  unfolding page_effect cast_vote_effect
  vote_step idle message = without_alert _ refl
  vote_step mining message = without_alert _ refl
  vote_step success message = with_alert _ _ refl
  vote_step fail message = with_alert _ _ refl
  vote_step exception message = with_alert _ _ refl

  queue_step :
      (status : Status) (message : Option String)
      → Shows
          (page_effect already_voted
            (queue_proposal_state (record { status = status; error_message = message }))
            page)
          page.is_vote_pending
          (is_mining status)
          page.is_execute_pending
          page.show_vote_modal
          (length page.alerts + (if is_final status then 1 else 0))
  unfolding page_effect queue_effect
  queue_step idle message = without_alert _ refl
  queue_step mining message = without_alert _ refl
  queue_step success message = with_alert _ _ refl
  queue_step fail message = with_alert _ _ refl
  queue_step exception message = with_alert _ _ refl

  execute_step :
      (status : Status) (message : Option String)
      → Shows
          (page_effect already_voted
            (execute_proposal_state (record { status = status; error_message = message }))
            page)
          page.is_vote_pending
          page.is_queue_pending
          (is_mining status)
          page.show_vote_modal
          (length page.alerts + (if is_final status then 1 else 0))
  unfolding page_effect execute_effect
  execute_step idle message = without_alert _ refl
  execute_step mining message = without_alert _ refl
  execute_step success message = with_alert _ _ refl
  execute_step fail message = with_alert _ _ refl
  execute_step exception message = with_alert _ _ refl

-- After any run of states of the three transactions, in any order, each button waits exactly where
-- the last state of its own transaction is that of mining, the form for a vote is open unless a vote
-- came to an end, and one alert was set for each final state.
pub page_effects-Shows :
    (already_voted : String → Bool) (es : List PageEvent) (page : VotePage)
    → Shows
        (page_effects already_voted es page)
        (waits page.is_vote_pending (votes_of es))
        (waits page.is_queue_pending (queues_of es))
        (waits page.is_execute_pending (executes_of es))
        (not (some_final (votes_of es)) && page.show_vote_modal)
        (length page.alerts + finals es)
unfolding page_effects waits votes_of queues_of executes_of some_final finals
page_effects-Shows already_voted [] page = record {
  voting = refl;
  queueing = refl;
  executing = refl;
  form = refl;
  count = omega arith;
}
page_effects-Shows already_voted (cast_vote_state tx ∷ es) page =
    let step = vote_step already_voted page tx.status tx.error_message in
    let rest =
      page_effects-Shows already_voted es (page_effect already_voted (cast_vote_state tx) page) in
    record {
      voting = rest.voting ∙ ap (λ b. waits b (votes_of es)) step.voting;
      queueing = rest.queueing ∙ ap (λ b. waits b (queues_of es)) step.queueing;
      executing = rest.executing ∙ ap (λ b. waits b (executes_of es)) step.executing;
      form =
          rest.form
          ∙ ap (λ b. not (some_final (votes_of es)) && b) step.form
          ∙ and_or page.show_vote_modal (is_final tx.status) (some_final (votes_of es));
      count = omega (arith, rest.count, step.count);
    }
page_effects-Shows already_voted (queue_proposal_state tx ∷ es) page =
    let step = queue_step already_voted page tx.status tx.error_message in
    let rest =
      page_effects-Shows already_voted es
        (page_effect already_voted (queue_proposal_state tx) page) in
    record {
      voting = rest.voting ∙ ap (λ b. waits b (votes_of es)) step.voting;
      queueing = rest.queueing ∙ ap (λ b. waits b (queues_of es)) step.queueing;
      executing = rest.executing ∙ ap (λ b. waits b (executes_of es)) step.executing;
      form = rest.form ∙ ap (λ b. not (some_final (votes_of es)) && b) step.form;
      count = omega (arith, rest.count, step.count);
    }
page_effects-Shows already_voted (execute_proposal_state tx ∷ es) page =
    let step = execute_step already_voted page tx.status tx.error_message in
    let rest =
      page_effects-Shows already_voted es
        (page_effect already_voted (execute_proposal_state tx) page) in
    record {
      voting = rest.voting ∙ ap (λ b. waits b (votes_of es)) step.voting;
      queueing = rest.queueing ∙ ap (λ b. waits b (queues_of es)) step.queueing;
      executing = rest.executing ∙ ap (λ b. waits b (executes_of es)) step.executing;
      form = rest.form ∙ ap (λ b. not (some_final (votes_of es)) && b) step.form;
      count = omega (arith, rest.count, step.count);
    }
