-- ===== src/Webapp/Dao/Transactions.antt =====
-- The states that a transaction runs through (useContractFunction), and the alerts they cause.
use web3_nft.Prelude.{String, Bool, true, false, Option, none, some, str_eq, if◌then◌else◌}

pub data Status : Type 0 where
  idle : Status
  mining : Status
  success : Status
  fail : Status
  exception : Status

pub record TransactionStatus : Type 0 where
  pub status : Status
  pub error_message : Option String

pub record AlertModal : Type 0 where
  pub title : String
  pub message : String
  pub show : Bool

abbrev pub alert : String → String → AlertModal
alert title message = record { title = title; message = message; show = true }

-- `message || other`: an empty text counts as missing.
abbrev pub or_text : Option String → String → String
or_text none other = other
or_text (some text) other = if str_eq text "" then other else text

abbrev pub is_mining : Status → Bool
is_mining mining = true
is_mining _ = false

abbrev pub is_final : Status → Bool
is_final idle = false
is_final mining = false
is_final _ = true
