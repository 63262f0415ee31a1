-- ===== src/Webapp/Functions/Verify.antt =====
-- functions/v0-verify-signature: the handler. Parsing the body, recovering the address that signed and
-- the words of the subgraph are parameters; `none` is an error thrown. A test of `has('msg')` is a test
-- of a function, which holds, so that only an empty body is refused.
pub mod Answers
pub mod Reading
pub mod Outcomes
use web3_nft.Prelude.{
  ℕ, String, Bool, ◌&&◌, Option, none, some, List, str_eq, if◌then◌else◌, or_else,
}
use web3_nft.Webapp.Functions.{NormalizedWord, big_numbers_equal, is_word_owner, is_word_delegate}

pub record SignedRequest : Type 0 where
  pub message : String
  pub signature : String
  pub signer : String

pub record ErrorReason : Type 0 where
  pub error : String
  pub message : String

pub record Participation : Type 0 where
  pub is_word_delegate : Bool
  pub is_word_owner : Bool

pub record VerifyAnswer : Type 0 where
  pub request : SignedRequest
  pub recovered_address : String
  pub valid_signature : Bool
  pub participation : Option Participation

pub data VerifyResponse : Type 0 where
  bad_request : ErrorReason → VerifyResponse
  verified : VerifyAnswer → VerifyResponse

unfoldable pub invalid_body_check : Option String → Option ErrorReason
invalid_body_check none =
    some (record { error = "empty_body"; message = "Request body is missing or empty" })
invalid_body_check (some body) =
    if str_eq body ""
    then some (record { error = "empty_body"; message = "Request body is missing or empty" })
    else none

module _ (number_of : String → Option ℕ) (parse : String → Option SignedRequest)
    (verify_message : String → String → Option String) (words : List NormalizedWord) where
  unfoldable pub participation_of : String → Option Participation
  participation_of signer = elim (is_word_delegate number_of signer words) [
    | none ↦ none
    | some delegate ↦ elim (is_word_owner number_of signer words) [
      | none ↦ none
      | some owner ↦ some (record { is_word_delegate = delegate; is_word_owner = owner })
    ]
  ]

  unfoldable pub answer : SignedRequest → String → Bool → Bool → Option VerifyResponse
  unfolding participation_of
  answer request recovered valid fetch_participation =
      if fetch_participation && valid
      then elim (participation_of request.signer) [
        | none ↦ none
        | some p ↦ some (
            verified (record {
              request = request;
              recovered_address = recovered;
              valid_signature = valid;
              participation = some p;
            }))
      ]
      else some (
          verified (record {
            request = request;
            recovered_address = recovered;
            valid_signature = valid;
            participation = none;
          }))

  unfoldable pub verify_handler : Option String → Bool → Option VerifyResponse
  unfolding invalid_body_check answer
  verify_handler body fetch_participation = elim (invalid_body_check body) [
    | some reason ↦ some (bad_request reason)
    | none ↦ elim (parse (or_else body "")) [
      | none ↦ none
      | some request ↦ elim (verify_message request.message request.signature) [
        | none ↦ none
        | some recovered ↦ elim (big_numbers_equal number_of request.signer recovered) [
          | none ↦ none
          | some valid ↦ answer request recovered valid fetch_participation
        ]
      ]
    ]
  ]
