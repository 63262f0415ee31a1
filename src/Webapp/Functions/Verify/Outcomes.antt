-- ===== src/Webapp/Functions/Verify/Outcomes.antt =====
-- The results of the verification's handler: an error that it throws, a refusal or an answer.
use web3_nft.Prelude.{
  ℕ, String, ◌≡◌, ◌≢◌, Bool, true, false, ◌&&◌, Option, none, some, List, or_else,
}
use web3_nft.Webapp.Functions.{NormalizedWord}
use web3_nft.Webapp.Functions.Verify.{SignedRequest, VerifyResponse, bad_request, verified}
use web3_nft.Webapp.Functions.Verify.Answers.{any_word, is_same_number, IsHonest}
use web3_nft.Webapp.Functions.Verify.Reading.{is_readable, is_unread}

module _ (number_of : String → Option ℕ) (parse : String → Option SignedRequest)
    (verify_message : String → String → Option String) (words : List NormalizedWord) where
  abbrev is_refusal : Option VerifyResponse → Bool
  is_refusal (some (bad_request reason)) = true
  is_refusal _ = false

  -- Why the handler throws: the body is no request, no address is recovered from it, the signer or that
  -- address is no number, or the words are asked for, the signature is valid and an owner or a
  -- delegate of a word is no number.
  pub data IsThrown (body : Option String) (asked : Bool) : Type 0 where
    unparsed : (text : String) → body ≡ some text → parse text ≡ none → IsThrown body asked
    unrecovered :
        (text : String) (request : SignedRequest)
        → body ≡ some text
        → parse text ≡ some request
        → verify_message request.message request.signature ≡ none
        → IsThrown body asked
    unread :
        (text : String) (request : SignedRequest) (recovered : String)
        → body ≡ some text
        → parse text ≡ some request
        → verify_message request.message request.signature ≡ some recovered
        → (is_readable number_of request.signer && is_readable number_of recovered) ≡ false
        → IsThrown body asked
    words_unread :
        (text : String) (request : SignedRequest) (recovered : String)
        → body ≡ some text
        → parse text ≡ some request
        → verify_message request.message request.signature ≡ some recovered
        → asked ≡ true
        → is_same_number number_of request.signer recovered ≡ true
        → any_word (is_unread number_of) words ≡ true
        → IsThrown body asked

  -- What a result means: an error thrown, a refusal or an answer.
  pub Outcome : Option String → Bool → Option VerifyResponse → Type 0
  Outcome body asked none = (or_else body "" ≢ "") × IsThrown body asked
  Outcome body asked (some (bad_request reason)) = or_else body "" ≡ ""
  Outcome body asked (some (verified a)) =
      IsHonest number_of parse verify_message words body asked a
