-- ===== src/Webapp/Dao/TransactionForm.antt =====
-- components/ProposalTransactionFormModal: the form for one transaction of a proposal, in five steps
-- (address, value, function, arguments, summary). The packages of contracts and of steps are
-- arguments; what waits for a file or for the network is an event of its own.
pub mod Submission
use web3_nft.Prelude.{
  ℕ, zero, suc, ◌≡◌, Bool, true, false, not, ◌&&◌, ◌||◌, Option, none, some, List, [], ◌∷◌, map,
  ◌==◌, if◌then◌else◌, or_else,
}
use mathlib.Core.Option
use web3_nft.Sdk.Hex.{Text}
use web3_nft.Webapp.Dao.CreateProposal.{ProposalTransaction, is_empty}

-- An interface of a contract encodes the arguments of its functions; `none` is an error thrown.
pub record Abi : Type 0 where
  pub encode_params : Text → List (Option Text) → Option Text

-- What the form uses of other packages: addresses, numbers, amounts, interfaces, and going back.
pub record Packages : Type 0 where
  pub is_address : Text → Bool
  pub is_number : Text → Bool
  pub parse_ether : Text → Option Text
  pub parse_interface : Text → Option Abi
  pub step_forward : ℕ → ℕ
  pub step_backwards : ℕ → ℕ
  pub step_backwards_lem : (n : ℕ) → step_backwards (suc n) ≡ n

pub record Form : Type 0 where
  pub address : Text
  pub abi : Option Abi
  pub value : Text
  pub func : Text
  pub args : List (Option Text)
  pub is_abi_upload_valid : Option Bool
  pub abi_file_name : Option Text
  pub current_step : ℕ

abbrev pub initial_form : Form
initial_form = record {
  address = [];
  abi = none;
  value = [];
  func = [];
  args = [];
  is_abi_upload_valid = none;
  abi_file_name = some [];
  current_step = 0;
}

-- `values[index] = value`: places before the index that are missing stay undefined.
unfoldable pub set_at : ℕ → Text → List (Option Text) → List (Option Text)
set_at zero v [] = some v ∷ []
set_at zero v (x ∷ xs) = some v ∷ xs
set_at (suc i) v [] = none ∷ set_at i v []
set_at (suc i) v (x ∷ xs) = x ∷ set_at i v xs

unfoldable pub set_argument : ℕ → Text → Form → Form
unfolding set_at
set_argument index value form = record form { args = set_at index value form.args }

-- The encoded arguments: the function's name is empty, or there is no interface, or it throws.
unfoldable pub encoded : Form → Option (Option Text)
encoded form = elim form.abi [
  | none ↦ some none
  | some abi ↦ Option.map some (abi.encode_params form.func form.args)
]

unfoldable pub value_validator : Packages → Text → Bool
value_validator packages v = is_empty v || packages.is_number v

abbrev pub is_text : Option Text → Bool
is_text none = false
is_text (some t) = not (is_empty t)

unfoldable pub arguments_validator : Form → Bool
unfolding encoded
arguments_validator form =
    if is_empty form.func then true else elim (encoded form) [ none ↦ false | some t ↦ is_text t ]

unfoldable pub set_abi_invalid : Form → Form
set_abi_invalid form = record form { is_abi_upload_valid = some false; abi_file_name = none }

-- The text of a file that was chosen; the mark of an invalid one is taken away after five seconds.
unfoldable pub validate_and_set_abi : Packages → Text → Text → Form → Form
unfolding set_abi_invalid
validate_and_set_abi packages file_name text form = elim (packages.parse_interface text) [
  | none ↦ set_abi_invalid form
  | some abi ↦ record form {
    abi = some abi;
    is_abi_upload_valid = some true;
    abi_file_name = some file_name;
  }
]

pub record ContractInformation : Type 0 where
  pub is_proxy : Bool
  pub implementation : Text
  pub abi_text : Text

-- The explorer's answers are an argument; for a proxy its implementation is asked for.
unfoldable pub get_abi : Packages → (Text → Option ContractInformation) → Text → Option Text
get_abi packages get_contract_information address = elim (get_contract_information address) [
  | none ↦ none
  | some info ↦
      Option.map (λ (i : ContractInformation). i.abi_text)
        (if info.is_proxy && packages.is_address info.implementation
          then get_contract_information info.implementation
          else some info)
]

-- "etherscan-abi-download.json"
abbrev pub download_name : Text
download_name =
    101 ∷ 116 ∷ 104 ∷ 101 ∷ 114 ∷ 115 ∷ 99 ∷ 97 ∷ 110 ∷ 45 ∷ 97 ∷ 98 ∷ 105 ∷ 45 ∷ 100 ∷ 111 ∷ 119
    ∷ 110 ∷ 108 ∷ 111 ∷ 97 ∷ 100 ∷ 46 ∷ 106 ∷ 115 ∷ 111 ∷ 110 ∷ []

unfoldable pub populate_abi_if_exists :
    Packages → (Text → Option ContractInformation) → Text → Form → Form
unfolding get_abi
populate_abi_if_exists packages get_contract_information address form =
    elim (get_abi packages get_contract_information address) [
      | none ↦ record form { is_abi_upload_valid = none; abi_file_name = none }
      | some text ↦ elim (packages.parse_interface text) [
        | none ↦ record form { is_abi_upload_valid = none; abi_file_name = none }
        | some abi ↦ record form {
          abi = some abi;
          is_abi_upload_valid = some true;
          abi_file_name = some download_name;
        }
      ]
    ]

-- `for (let i = currentStep; i > 0; i--) stepBackwards()`
unfoldable pub back_steps : Packages → ℕ → ℕ → ℕ
back_steps packages zero step = step
back_steps packages (suc i) step = back_steps packages i (packages.step_backwards step)

unfoldable pub clear_state : Packages → Form → Form
unfolding back_steps
clear_state packages form = record {
  address = [];
  abi = none;
  value = [];
  func = [];
  args = [];
  is_abi_upload_valid = none;
  abi_file_name = none;
  current_step = back_steps packages form.current_step form.current_step;
}

-- The transaction that the form stands for; `none` is an error thrown by an amount or an argument.
unfoldable pub transaction_of : Packages → Form → Option ProposalTransaction
unfolding encoded
transaction_of packages form =
    let value = if is_empty form.value then some (48 ∷ []) else packages.parse_ether form.value in
    let calldata = if is_empty form.func then some none else encoded form in
    elim value [
      | none ↦ none
      | some v ↦
          Option.map
            (λ (c : Option Text).
              let t : ProposalTransaction = record {
                address = form.address;
                value = some v;
                signature = form.func;
                calldata = if is_text c then or_else c [] else 48 ∷ 120 ∷ [];
              } in
              t)
            calldata
    ]

-- Before the last step it steps forward; in the last one the transaction is handed on and the form is
-- cleared. An error that is thrown leaves the form as it is.
unfoldable pub step_forward_or_callback : Packages → Form → Form × Option ProposalTransaction
unfolding transaction_of clear_state
step_forward_or_callback packages form =
    if form.current_step == 4
    then elim (transaction_of packages form) [
      | none ↦ (form, none)
      | some t ↦ (clear_state packages form, some t)
    ]
    else (record form { current_step = packages.step_forward form.current_step }, none)
