-- ===== src/Webapp/Dao/CreateProposal/Sending.antt =====
-- What a press of the button does: a call that is sent, or why there is none.
use web3_nft.Prelude.{
  ℕ, ◌≤◌, String, ◌≡◌, refl, ap, ◌⊎◌, inl, inr, true, false, not, ◌&&◌, Option, none, some, List,
  [], ◌∷◌, arith, eq_iff, Bool-cases, Option-cases, ltb, ◌==◌,
}
use web3_nft.Webapp.Dao.VotePage.{ProposalState, active, pending}
use web3_nft.Webapp.Dao.CreateProposal.{
  CreatePage, ProposeCall, LatestProposal, is_empty, is_form_invalid, has_enough_vote,
  handle_create_proposal, press_create, has_active_or_pending_proposal, is_same_account,
  is_active_or_pending,
}
use web3_nft.Webapp.Dao.CreateProposal.Columns.{IsReady, AreColumns, press_create-IsReady}

-- Why nothing may be sent: a part of the form is empty, the votes or the threshold are not known, the
-- votes are no more than the threshold, or the DAO's latest proposal is one of the account that is
-- active or pending.
pub data IsHeld (votes threshold : Option ℕ) (latest : Option LatestProposal)
    (account : Option String) (page : CreatePage) : Type 0 where
  no_transactions : page.transactions ≡ [] → IsHeld votes threshold latest account page
  no_title : page.title_value ≡ [] → IsHeld votes threshold latest account page
  no_body : page.body_value ≡ [] → IsHeld votes threshold latest account page
  votes_unknown : votes ≡ none → IsHeld votes threshold latest account page
  threshold_unknown : threshold ≡ none → IsHeld votes threshold latest account page
  too_few :
      (v t : ℕ)
      → votes ≡ some v
      → threshold ≡ some t
      → v ≤ t
      → IsHeld votes threshold latest account page
  running :
      (p : LatestProposal)
      → latest ≡ some p
      → p.proposer ≡ account
      → (p.status ≡ active) ⊎ (p.status ≡ pending)
      → IsHeld votes threshold latest account page

empty_lem {ℓ} : {A : Type ℓ} → (xs : List A) → is_empty xs ≡ true → xs ≡ []
empty_lem [] h = refl
empty_lem (x ∷ xs) h = cc h

same_account-eq : (a b : Option String) → is_same_account a b ≡ true → a ≡ b
unfolding is_same_account
same_account-eq none none h = refl
same_account-eq none (some b) h = cc h
same_account-eq (some a) none h = cc h
same_account-eq (some a) (some b) h = ap some ((eq_iff a b).0 h)

running_lem :
    (status : ProposalState)
    → is_active_or_pending status ≡ true
    → (status ≡ active) ⊎ (status ≡ pending)
running_lem status h = ground arith

module _ (votes threshold : Option ℕ) (latest : Option LatestProposal) (account : Option String)
    (page : CreatePage) where
  form_held : is_form_invalid page ≡ true → IsHeld votes threshold latest account page
  unfolding is_form_invalid
  form_held h = elim (Bool-cases (is_empty page.transactions)) [
    | inl t ↦ no_transactions (empty_lem page.transactions t)
    | inr t ↦ elim (Bool-cases (is_empty page.title_value)) [
      | inl ti ↦ no_title (empty_lem page.title_value ti)
      | inr ti ↦ no_body (empty_lem page.body_value (ground arith))
    ]
  ]

  running_held :
      has_active_or_pending_proposal latest account ≡ true
      → IsHeld votes threshold latest account page
  unfolding has_active_or_pending_proposal
  running_held h = elim (Option-cases latest) [
    | inl l ↦ cc (rw l at h)
    | inr (p, l) ↦
        let both : (is_active_or_pending p.status && is_same_account p.proposer account) ≡ true =
          rw l at h in
        running p l (same_account-eq p.proposer account (ground (arith, both)))
          (running_lem p.status (ground (arith, both)))
  ]

  votes_held : has_enough_vote votes threshold ≡ false → IsHeld votes threshold latest account page
  unfolding has_enough_vote
  votes_held h = elim (Option-cases votes) [
    | inl v ↦ votes_unknown v
    | inr (v, ve) ↦ elim (Option-cases threshold) [
      | inl t ↦ threshold_unknown t
      | inr (t, te) ↦
          let few : (not (v == 0) && ltb t v) ≡ false = rw (ve, te) at h in
          too_few v t ve te (ground (arith, few))
    ]
  ]

  filled_form : is_form_invalid page ≡ false → is_empty page.transactions ≡ false
  unfolding is_form_invalid
  filled_form h = ground arith

  held_lem :
      press_create votes threshold latest account page ≡ none
      → IsHeld votes threshold latest account page
  unfolding press_create handle_create_proposal
  held_lem e = elim (Bool-cases (is_form_invalid page)) [
    | inl f ↦ form_held f
    | inr f ↦ elim (Bool-cases (has_active_or_pending_proposal latest account)) [
      | inl r ↦ running_held r
      | inr r ↦ elim (Bool-cases (has_enough_vote votes threshold)) [
        | inr n ↦ votes_held n
        | inl n ↦ cc (rw (press_create, f, r, n, handle_create_proposal, filled_form f) at e)
      ]
    ]
  ]

  -- What a press does: nothing, for one of the reasons, or the call that it sends.
  pub Outcome : Option ProposeCall → Type 0
  Outcome none = IsHeld votes threshold latest account page
  Outcome (some call) = IsReady votes threshold latest account page × AreColumns page call

  -- A press sends a proposal where there are transactions, a title and a body, the votes are above the
  -- threshold, both known, and the DAO's latest proposal is not one of the account that is active or
  -- pending; it sends nothing only where one of these does not hold. The four columns of the proposal
  -- have an entry for each transaction, row by row its address, value ("0" where there is none),
  -- signature and call data, and the description is the title over the body.
  pub press_create-Outcome : Outcome (press_create votes threshold latest account page)
  unfolding Outcome
  press_create-Outcome = elim (Option-cases (press_create votes threshold latest account page)) [
    | inl e ↦ rw e (held_lem e)
    | inr (call, e) ↦ rw e (press_create-IsReady votes threshold latest account page call e)
  ]
