-- ===== src/Webapp/Dao/CreatedLogs.antt =====
-- wrappers/wordsDao.ts: the logs of created proposals and the calls that they list.
use web3_nft.Prelude.{
  ℕ, ◌-◌, String, Option, none, some, List, [], ◌∷◌, ◌++◌, ◌==◌, if◌then◌else◌, length, take,
  or_else,
}
use mathlib.Core.Option
use web3_nft.Sdk.Hex.{Text}

pub record ProposalDetail : Type 0 where
  pub target : Text
  pub value : Text
  pub function_sig : Text
  pub call_data : Text

-- A log of a creation, parsed.
pub record CreatedLog : Type 0 where
  pub description : Text
  pub transaction_hash : String
  pub targets : List Text
  pub values : List ℕ
  pub signatures : List Text
  pub calldatas : List Text

pub record FormattedLog : Type 0 where
  pub description : Text
  pub transaction_hash : String
  pub details : List ProposalDetail

-- `text.split('(')`: 40 is the parenthesis.
unfoldable pub before_paren : Text → Text
before_paren [] = []
before_paren (c ∷ cs) = let rest = c ∷ before_paren cs in if c == 40 then [] else rest

unfoldable pub after_paren : Text → Option Text
after_paren [] = none
after_paren (c ∷ cs) = let rest = after_paren cs in if c == 40 then some cs else rest

-- "transfer"
abbrev pub transfer_text : Text
transfer_text = 116 ∷ 114 ∷ 97 ∷ 110 ∷ 115 ∷ 102 ∷ 101 ∷ 114 ∷ []

-- " ETH"
abbrev pub eth_text : Text
eth_text = 32 ∷ 69 ∷ 84 ∷ 72 ∷ []

abbrev pub non_empty : Option Text → Option Text
non_empty (some (c ∷ cs)) = some (c ∷ cs)
non_empty _ = none

-- The package that decodes call data and writes amounts is an argument; `none` is an error thrown.
pub record Coder : Type 0 where
  pub decode : Text → Text → Option Text
  pub format_ether : ℕ → Text

module _ (coder : Coder) where
  -- A call without a name or without types is a transfer, or shows its types or its value.
  unfoldable pub detail_of : Text → Text → ℕ → Text → Option ProposalDetail
  unfolding before_paren after_paren
  detail_of target signature value calldata =
      let inner = take (length signature - 1) signature in
      let name = before_paren inner in
      let types = non_empty (Option.map before_paren (after_paren inner)) in
      elim (non_empty (some name)) [
        | none ↦ some (record {
          target = target;
          value = [];
          function_sig = transfer_text;
          call_data = or_else types (coder.format_ether value ++ eth_text);
        })
        | some named ↦ elim types [
          | none ↦ some (record {
            target = target;
            value = [];
            function_sig = named;
            call_data = coder.format_ether value ++ eth_text;
          })
          | some ts ↦
              Option.map
                (λ (decoded : Text). record {
                  target = target;
                  value =
                      if value == 0
                      then []
                      else 123
                        ∷ 32
                        ∷ 118
                        ∷ 97
                        ∷ 108
                        ∷ 117
                        ∷ 101
                        ∷ 58
                        ∷ 32
                        ∷ (coder.format_ether value ++ (eth_text ++ 32 ∷ 125 ∷ []));
                  function_sig = named;
                  call_data = decoded;
                })
                (coder.decode ts calldata)
        ]
      ]

  -- The four columns have one length, which the contract checks; another one is an error here.
  unfoldable pub details_of :
      List Text → List Text → List ℕ → List Text → Option (List ProposalDetail)
  unfolding detail_of
  details_of [] ss vs cs = some []
  details_of (t ∷ ts) (s ∷ ss) (v ∷ vs) (c ∷ cs) =
      let rest = details_of ts ss vs cs in
      elim (detail_of t s v c) [
        | none ↦ none
        | some d ↦ Option.map (λ (ds : List ProposalDetail). d ∷ ds) rest
      ]
  details_of (t ∷ ts) _ _ _ = none

  unfoldable pub formatted_log : CreatedLog → Option FormattedLog
  unfolding details_of
  formatted_log log =
      Option.map
        (λ (ds : List ProposalDetail). record {
          description = log.description;
          transaction_hash = log.transaction_hash;
          details = ds;
        })
        (details_of log.targets log.signatures log.values log.calldatas)
