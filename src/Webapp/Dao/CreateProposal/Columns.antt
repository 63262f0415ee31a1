-- ===== src/Webapp/Dao/CreateProposal/Columns.antt =====
-- The call that a press of the button sends.
use web3_nft.Prelude.{
  ℕ, suc, ◌<◌, String, ◌≡◌, ◌≢◌, ◌⊎◌, inl, inr, refl, ap, ◌&&◌, arith, eq_refl, Bool-cases, Bool,
  true, false, not, ◌||◌, Option, none, some, List, [], ◌∷◌, map, if◌then◌else◌, length, or_else,
}
use mathlib.Core.Path.{subst}
use web3_nft.Sdk.Hex.{Text}
use web3_nft.Webapp.Dao.CreateProposal.{
  ProposalTransaction, CreatePage, ProposeCall, LatestProposal, is_empty, is_form_invalid,
  has_enough_vote, handle_create_proposal, press_create, has_active_or_pending_proposal,
  value_or_zero, description_of, is_same_account, is_active_or_pending,
}
use web3_nft.Webapp.Dao.VotePage.{ProposalState, active, pending}

-- The columns of a call, read row by row, as far as all four of them go.
pub rows_of : List Text → List Text → List Text → List Text → List (Text × Text × Text × Text)
rows_of (a ∷ as') (v ∷ vs) (s ∷ ss) (c ∷ cs) = (a, v, s, c) ∷ rows_of as' vs ss cs
rows_of _ _ _ _ = []

abbrev pub row_of : ProposalTransaction → Text × Text × Text × Text
row_of t = (t.address, value_or_zero t, t.signature, t.calldata)

columns_rows :
    (ts : List ProposalTransaction)
    → rows_of
        (map (λ (t : ProposalTransaction). t.address) ts)
        (map value_or_zero ts)
        (map (λ (t : ProposalTransaction). t.signature) ts)
        (map (λ (t : ProposalTransaction). t.calldata) ts)
      ≡ map row_of ts
unfolding rows_of
columns_rows [] = refl
columns_rows (t ∷ ts) = ap (λ l. row_of t ∷ l) (columns_rows ts)

module _ {ℓ κ} {A : Type ℓ} {B : Type κ} (f : A → B) where
  length-map : (xs : List A) → length (map f xs) ≡ length xs
  length-map [] = refl
  length-map (x ∷ xs) = ap suc (length-map xs)

-- The four columns have an entry for each transaction and together its parts, and the description is the
-- title over the body.
abbrev pub AreColumns : CreatePage → ProposeCall → Type 0
AreColumns page call =
    (rows_of call.targets call.values call.signatures call.calldatas ≡ map row_of page.transactions)
    × (length call.targets ≡ length page.transactions)
    × (length call.values ≡ length page.transactions)
    × (length call.signatures ≡ length page.transactions)
    × (length call.calldatas ≡ length page.transactions)
    × (call.description ≡ description_of page.title_value page.body_value)

abbrev pub call_of : CreatePage → ProposeCall
call_of page = record {
  targets = map (λ (t : ProposalTransaction). t.address) page.transactions;
  values = map value_or_zero page.transactions;
  signatures = map (λ (t : ProposalTransaction). t.signature) page.transactions;
  calldatas = map (λ (t : ProposalTransaction). t.calldata) page.transactions;
  description = description_of page.title_value page.body_value;
}

ready_lem :
    (t ti b al en : Bool) (c call : ProposeCall)
    → (if (t || (ti || b)) || (al || not en) then none else (if t then none else some c))
      ≡ some call
    → (t ≡ false) × (ti ≡ false) × (b ≡ false) × (al ≡ false) × (en ≡ true) × (c ≡ call)
ready_lem false false false false true c call e =
    (refl, refl, refl, refl, refl, ap (λ o. or_else o c) e)
ready_lem true ti b al en c call e = cc e
ready_lem false true b al en c call e = cc e
ready_lem false false true al en c call e = cc e
ready_lem false false false true en c call e = cc e
ready_lem false false false false false c call e = cc e

-- What may be sent: there are transactions, a title and a body, the votes are known to be more than
-- the threshold, which is known too, and the DAO's latest proposal, if it is there and the account
-- proposed it, is neither active nor pending.
pub record IsReady (votes threshold : Option ℕ) (latest : Option LatestProposal)
    (account : Option String) (page : CreatePage) : Type 0 where
  pub transactions : 0 < length page.transactions
  pub title : page.title_value ≢ []
  pub body : page.body_value ≢ []
  pub enough : (v t : ℕ) × ((votes ≡ some v) × (threshold ≡ some t) × (t < v))
  pub alone :
      (latest ≡ none)
      ⊎ ((p : LatestProposal) × ((latest ≡ some p)
            × ((p.proposer ≢ account) ⊎ ((p.status ≢ active) × (p.status ≢ pending)))))

filled {ℓ} : {A : Type ℓ} → (xs : List A) → is_empty xs ≡ false → xs ≢ []
filled [] h e = cc h
filled (x ∷ xs) h e = cc e

longer {ℓ} : {A : Type ℓ} → (xs : List A) → is_empty xs ≡ false → 0 < length xs
longer [] h = cc h
longer (x ∷ xs) h = omega arith

votes_above :
    (votes threshold : Option ℕ)
    → has_enough_vote votes threshold ≡ true
    → (v t : ℕ) × ((votes ≡ some v) × (threshold ≡ some t) × (t < v))
unfolding has_enough_vote
votes_above none threshold h = cc h
votes_above (some v) none h = cc h
votes_above (some v) (some t) h = (v, t, (refl, refl, ground arith))

same_self : (a : Option String) → is_same_account a a ≡ true
unfolding is_same_account
same_self none = refl
same_self (some a) = eq_refl a

same_account : (a b : Option String) → a ≡ b → is_same_account a b ≡ true
same_account a b e = subst (λ c. is_same_account a c ≡ true) e (same_self a)

running :
    (status : ProposalState)
    → (status ≡ active) ⊎ (status ≡ pending)
    → is_active_or_pending status ≡ true
running status (inl e) = rw e refl
running status (inr e) = rw e refl

apart :
    (p : LatestProposal) (account : Option String)
    → (is_active_or_pending p.status && is_same_account p.proposer account) ≡ false
    → (p.proposer ≢ account) ⊎ ((p.status ≢ active) × (p.status ≢ pending))
apart p account h = elim (Bool-cases (is_active_or_pending p.status)) [
  | inl t ↦ inl (λ e. cc (rw (t, same_account p.proposer account e) at h))
  | inr t ↦ inr (λ e. cc (running p.status (inl e), t), λ e. cc (running p.status (inr e), t))
]

none_running :
    (latest : Option LatestProposal) (account : Option String)
    → has_active_or_pending_proposal latest account ≡ false
    → (latest ≡ none)
      ⊎ ((p : LatestProposal) × ((latest ≡ some p)
            × ((p.proposer ≢ account) ⊎ ((p.status ≢ active) × (p.status ≢ pending)))))
unfolding has_active_or_pending_proposal
none_running none account h = inl refl
none_running (some p) account h = inr (p, (refl, apart p account h))

-- What is sent may be sent, and has the parts of the page.
pub press_create-IsReady :
    (votes threshold : Option ℕ) (latest : Option LatestProposal) (account : Option String)
    (page : CreatePage) (call : ProposeCall)
    → press_create votes threshold latest account page ≡ some call
    → IsReady votes threshold latest account page × AreColumns page call
unfolding press_create is_form_invalid handle_create_proposal
press_create-IsReady votes threshold latest account page call e =
    let (t, ti, b, al, en, same) =
      ready_lem (is_empty page.transactions) (is_empty page.title_value) (is_empty page.body_value)
        (has_active_or_pending_proposal latest account) (has_enough_vote votes threshold)
        (call_of page) call e in
    (
      record {
        transactions = longer page.transactions t;
        title = filled page.title_value ti;
        body = filled page.body_value b;
        enough = votes_above votes threshold en;
        alone = none_running latest account al;
      },
      subst (AreColumns page) same (
        columns_rows page.transactions,
        length-map (λ (t : ProposalTransaction). t.address) page.transactions,
        length-map value_or_zero page.transactions,
        length-map (λ (t : ProposalTransaction). t.signature) page.transactions,
        length-map (λ (t : ProposalTransaction). t.calldata) page.transactions,
        refl,
      ),
    )
