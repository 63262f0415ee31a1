-- ===== src/Webapp/Dao/CreateProposal/Transactions.antt =====
-- The transactions of a proposal that is being written.
use web3_nft.Prelude.{
  ℕ, zero, suc, ◌+◌, ◌<◌, String, ◌≡◌, refl, sym, ap, ◌∙◌, inl, inr, true, false, Option, List, [],
  ◌∷◌, ◌++◌, arith, ◌==◌, Bool-cases, take, drop, All, All-append,
}
use mathlib.Core.Path.{subst}
use web3_nft.Sdk.Hex.{Text}
use web3_nft.Webapp.Dao.Transactions.{Status, idle, mining, success, fail, exception}
use web3_nft.Webapp.Dao.CreateProposal.{
  ProposalTransaction, CreatePage, starts_with_0x, with_0x, handle_add_proposal_action,
  filter_index, handle_remove_proposal_action, propose_effect, PageAction, add_transaction,
  remove_transaction, input_title, input_body, propose_state, act, act_all,
}

abbrev pub IsPrefixed : ProposalTransaction → Type 0
IsPrefixed t = (starts_with_0x t.address ≡ true) × (starts_with_0x t.calldata ≡ true)

with_0x_lem : (text : Text) → starts_with_0x (with_0x text) ≡ true
unfolding with_0x starts_with_0x
with_0x_lem text = elim (Bool-cases (starts_with_0x text)) [ inl e ↦ rw e e | inr e ↦ rw e refl ]

filter_index-All :
    (P : ProposalTransaction → Type 0) (index i : ℕ) (ts : List ProposalTransaction)
    → All P ts
    → All P (filter_index index i ts)
unfolding filter_index
filter_index-All P index i [] h = tt
filter_index-All P index i (t ∷ ts) (p, h) = elim (Bool-cases (i == index)) [
  | inl e ↦ rw e (filter_index-All P index (i + 1) ts h)
  | inr e ↦ rw e (p, filter_index-All P index (i + 1) ts h)
]

propose_keeps :
    (status : Status) (message : Option String) (page : CreatePage)
    → (propose_effect (record { status = status; error_message = message }) page).transactions
      ≡ page.transactions
unfolding propose_effect
propose_keeps idle message page = refl
propose_keeps mining message page = refl
propose_keeps success message page = refl
propose_keeps fail message page = refl
propose_keeps exception message page = refl

act-IsPrefixed :
    (a : PageAction) (page : CreatePage)
    → All IsPrefixed page.transactions
    → All IsPrefixed (act a page).transactions
unfolding act handle_add_proposal_action handle_remove_proposal_action
act-IsPrefixed (add_transaction t) page h =
    All-append IsPrefixed page.transactions _ h
      ((with_0x_lem t.address, with_0x_lem t.calldata), tt)
act-IsPrefixed (remove_transaction i) page h = filter_index-All IsPrefixed i 0 page.transactions h
act-IsPrefixed (input_title title) page h = h
act-IsPrefixed (input_body body) page h = h
act-IsPrefixed (propose_state tx) page h =
    subst (All IsPrefixed) (sym (propose_keeps tx.status tx.error_message page)) h

-- Where it is so at first, then whatever is added, removed and written, in whatever order, the address and the call data of each
-- transaction start with "0x".
pub act_all-IsPrefixed :
    (actions : List PageAction) (page : CreatePage)
    → All IsPrefixed page.transactions
    → All IsPrefixed (act_all actions page).transactions
unfolding act_all
act_all-IsPrefixed [] page h = h
act_all-IsPrefixed (a ∷ actions) page h =
    act_all-IsPrefixed actions (act a page) (act-IsPrefixed a page h)

filter_passed :
    (i index : ℕ) (ts : List ProposalTransaction) → index < i → filter_index index i ts ≡ ts
unfolding filter_index
filter_passed i index [] h = refl
filter_passed i index (t ∷ ts) h =
    let rest = filter_passed (i + 1) index ts (omega arith) in ground arith

filter_at :
    (k i : ℕ) (ts : List ProposalTransaction)
    → filter_index (i + k) i ts ≡ take k ts ++ drop (suc k) ts
unfolding filter_index
filter_at zero i [] = refl
filter_at (suc k) i [] = refl
filter_at zero i (t ∷ ts) =
    let rest = filter_passed (i + 1) (i + 0) ts (omega arith) in
    let here : (i == i + 0) ≡ true = ground arith in rw here rest
filter_at (suc k) i (t ∷ ts) =
    let later : (i == i + suc k) ≡ false = ground arith in
    let same : i + suc k ≡ i + 1 + k = omega arith in
    rw later
      (ap (λ n. t ∷ filter_index n (i + 1) ts) same ∙ ap (λ l. t ∷ l) (filter_at k (i + 1) ts))

-- Removing takes one place out and keeps the order of the rest; a place that is not there changes
-- nothing.
pub handle_remove_proposal_action_lem :
    (index : ℕ) (page : CreatePage)
    → (handle_remove_proposal_action index page).transactions
      ≡ take index page.transactions ++ drop (suc index) page.transactions
unfolding handle_remove_proposal_action
handle_remove_proposal_action_lem index page =
    let start : index ≡ 0 + index = omega arith in
    ap (λ n. filter_index n 0 page.transactions) start ∙ filter_at index 0 page.transactions
