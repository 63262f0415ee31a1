-- ===== src/Webapp/Dao/TransactionForm/Submission.antt =====
-- A transaction that the form hands on to the page for a new proposal.
use web3_nft.Prelude.{
  ℕ, zero, suc, ◌≡◌, refl, ap, ◌∙◌, ◌⊎◌, inl, inr, true, false, Option, none, some, [], ◌∷◌, ◌==◌,
  if◌then◌else◌, Bool-cases, Option-cases, or_else,
}
use web3_nft.Sdk.Hex.{Text}
use web3_nft.Webapp.Dao.CreateProposal.{ProposalTransaction, is_empty}
use web3_nft.Webapp.Dao.TransactionForm.{
  Packages, Form, initial_form, is_text, encoded, arguments_validator, back_steps, clear_state,
  transaction_of, step_forward_or_callback,
}

back_steps-zero : (packages : Packages) (n : ℕ) → back_steps packages n n ≡ 0
unfolding back_steps
back_steps-zero packages zero = refl
back_steps-zero packages (suc n) =
    ap (back_steps packages n) (packages.step_backwards_lem n) ∙ back_steps-zero packages n

valid_calldata :
    (form : Form)
    → arguments_validator form ≡ true
    → (c : Option Text) × ((if is_empty form.func then some none else encoded form) ≡ some c)
unfolding arguments_validator
valid_calldata form valid = elim (Bool-cases (is_empty form.func)) [
  | inl e ↦ (none, rw e refl)
  | inr e ↦ elim (Option-cases (encoded form)) [
    | inl missing ↦ cc (rw (e, arguments_validator, missing) at valid)
    | inr (c, found) ↦ (c, rw e found)
  ]
]

valid_amount :
    (packages : Packages) (form : Form)
    → (is_empty form.value ≡ true) ⊎ ((v : Text) × (packages.parse_ether form.value ≡ some v))
    → (v : Text) × ((if is_empty form.value
          then some (48 ∷ [])
          else packages.parse_ether form.value)
        ≡ some v)
valid_amount packages form (inl e) = (48 ∷ [], rw e refl)
valid_amount packages form (inr (v, e)) = elim (Bool-cases (is_empty form.value)) [
  | inl h ↦ (48 ∷ [], rw h refl)
  | inr h ↦ (v, rw h e)
]

abbrev calldata_of : Option Text → Text
calldata_of c = if is_text c then or_else c [] else 48 ∷ 120 ∷ []

calldata_there : (c : Option Text) → is_empty (calldata_of c) ≡ false
calldata_there none = refl
calldata_there (some []) = refl
calldata_there (some (c ∷ cs)) = refl

-- In the last step, where the arguments pass their validator and the amount is empty or can be read, a
-- transaction is handed on; the form is then the one of the start, but that no file name is shown.
pub step_forward_or_callback_lem :
    (packages : Packages) (form : Form)
    → form.current_step ≡ 4
    → arguments_validator form ≡ true
    → (is_empty form.value ≡ true) ⊎ ((v : Text) × (packages.parse_ether form.value ≡ some v))
    → (t : ProposalTransaction) × ((step_forward_or_callback packages form
          ≡ (record initial_form { abi_file_name = none }, some t))
        × (t.address ≡ form.address)
        × (t.signature ≡ form.func)
        × (is_empty t.calldata ≡ false))
unfolding step_forward_or_callback clear_state transaction_of
step_forward_or_callback_lem packages form last valid amount =
    let (c, calldata) = valid_calldata form valid in
    let (v, value) = valid_amount packages form amount in
    let t : ProposalTransaction = record {
      address = form.address;
      value = some v;
      signature = form.func;
      calldata = calldata_of c;
    } in
    let made : transaction_of packages form ≡ some t = rw (transaction_of, value, calldata) refl in
    (
      t,
      (
        ap
              (λ n.
                if n == 4
                then elim (transaction_of packages form) [
                  | none ↦ (form, none)
                  | some s ↦ (clear_state packages form, some s)
                ]
                else (record form { current_step = packages.step_forward form.current_step }, none))
              last
            ∙ ap
                (λ (o : Option ProposalTransaction).
                  elim o as (λ _. Form × Option ProposalTransaction) [
                    | none ↦ (form, none)
                    | some s ↦ (clear_state packages form, some s)
                  ])
                made
            ∙ ap (λ n. (record initial_form { abi_file_name = none; current_step = n }, some t))
                (back_steps-zero packages form.current_step),
        refl,
        refl,
        calldata_there c,
      ),
    )
