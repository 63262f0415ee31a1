-- ===== src/Webapp/Functions/Verify/Answers.antt =====
-- What an answer of the verification says of the request and of the signer's words.
use web3_nft.Prelude.{
  ℕ, String, ◌≡◌, refl, sym, ap, ◌∙◌, ◌≢◌, inl, inr, Bool, true, false, not, ◌&&◌, ◌||◌, Option,
  none, some, List, [], ◌∷◌, arith, str_eq, str_eq-eq, ltb, ◌==◌, if◌then◌else◌, Bool-cases,
  Option-cases, length, or_else,
}
use mathlib.Core.Path.{subst, fun_ext}
use web3_nft.Webapp.Functions.{
  NormalizedWord, big_numbers_equal, filter_words, delegated_to, is_some_word, is_word_owner,
  is_word_delegate,
}
use web3_nft.Webapp.Functions.Verify.{
  SignedRequest, Participation, VerifyAnswer, VerifyResponse, verified, invalid_body_check,
  participation_of, answer, verify_handler,
}

unfoldable pub any_word : (NormalizedWord → Bool) → List NormalizedWord → Bool
any_word test [] = false
any_word test (w ∷ ws) = test w || any_word test ws

module _ (number_of : String → Option ℕ) where
  filter_words-any :
      (test : NormalizedWord → Option Bool) (words kept : List NormalizedWord)
      → filter_words number_of test words ≡ some kept
      → ltb 0 (length kept) ≡ any_word (λ w. or_else (test w) false) words
  unfolding filter_words any_word
  filter_words-any test [] kept e = ap (λ o. ltb 0 (length (or_else o []))) (sym e)
  filter_words-any test (w ∷ ws) kept e = elim (Option-cases (test w)) [
    | inl t ↦ cc (rw (filter_words, t) at e)
    | inr (keep, t) ↦ elim (Option-cases (filter_words number_of test ws)) [
      | inl f ↦ cc (rw (filter_words, t, f) at e)
      | inr (more, f) ↦
          let rest = filter_words-any test ws more f in
          let made : (if keep then w ∷ more else more) ≡ kept =
            ap (λ o. or_else o []) (rw (filter_words, t, f) at e) in
          ap (λ l. ltb 0 (length l)) (sym made)
          ∙ elim (Bool-cases keep) [ inl k ↦ rw (t, k) (ground arith) | inr k ↦ rw (t, k) rest ]
    ]
  ]

  some_word-any :
      (test : NormalizedWord → Option Bool) (words : List NormalizedWord) (found : Bool)
      → is_some_word number_of (filter_words number_of test words) ≡ some found
      → found ≡ any_word (λ w. or_else (test w) false) words
  some_word-any test words found e = elim (Option-cases (filter_words number_of test words)) [
    | inl f ↦ cc (rw f at e)
    | inr (kept, f) ↦
        let value : ltb 0 (length kept) ≡ found = ap (λ o. or_else o false) (rw f at e) in
        sym value ∙ filter_words-any test words kept f
  ]

  -- Both texts are read as one number.
  pub is_same_number : String → String → Bool
  is_same_number a b = elim (number_of a) [
    | none ↦ false
    | some m ↦ elim (number_of b) [ none ↦ false | some n ↦ m == n ]
  ]

  pub is_delegated : String → Option String → Bool
  unfolding is_same_number
  is_delegated a none = false
  is_delegated a (some b) = not (str_eq b "") && is_same_number a b

  pub same_number-value :
      (a b : String) → or_else (big_numbers_equal number_of a b) false ≡ is_same_number a b
  unfolding big_numbers_equal is_same_number
  same_number-value a b = ground arith

  delegated-value :
      (a : String) (d : Option String)
      → or_else (delegated_to number_of a d) false ≡ is_delegated a d
  unfolding delegated_to is_delegated
  delegated-value a none = refl
  delegated-value a (some b) = ground (arith, same_number-value a b)

  module _ (words : List NormalizedWord) (signer : String) where
    abbrev pub owns : Bool
    owns = any_word (λ w. is_same_number signer w.owner) words

    abbrev pub represents : Bool
    represents = any_word (λ w. is_delegated signer w.delegated_to) words

    owner-owns : (found : Bool) → is_word_owner number_of signer words ≡ some found → found ≡ owns
    owner-owns found e =
        some_word-any (λ w. big_numbers_equal number_of signer w.owner) words found e
        ∙ ap (λ test. any_word test words)
            (fun_ext (λ (w : NormalizedWord). same_number-value signer w.owner))

    delegate-represents :
        (found : Bool) → is_word_delegate number_of signer words ≡ some found → found ≡ represents
    delegate-represents found e =
        some_word-any (λ w. delegated_to number_of signer w.delegated_to) words found e
        ∙ ap (λ test. any_word test words)
            (fun_ext (λ (w : NormalizedWord). delegated-value signer w.delegated_to))

    -- What is said of the signer's words, where it is to be said (`said`).
    pub TellsOf : Bool → Option Participation → Type 0
    TellsOf said none = said ≡ false
    TellsOf said (some p) =
        (said ≡ true) × (p.is_word_owner ≡ owns) × (p.is_word_delegate ≡ represents)

module _ (number_of : String → Option ℕ) (parse : String → Option SignedRequest)
    (verify_message : String → String → Option String) (words : List NormalizedWord) where
  pub record IsHonest (body : Option String) (asked : Bool) (a : VerifyAnswer) : Type 0 where
    pub text : String
    pub there : body ≡ some text
    pub full : text ≢ ""
    pub read : parse text ≡ some a.request
    pub recovers : verify_message a.request.message a.request.signature ≡ some a.recovered_address
    pub signed : a.valid_signature ≡ is_same_number number_of a.request.signer a.recovered_address
    pub told : TellsOf number_of words a.request.signer (asked && a.valid_signature) a.participation

  abbrev response : VerifyAnswer → Option VerifyResponse → VerifyAnswer
  response other (some (verified a)) = a
  response other _ = other

  same_answer : (a b : VerifyAnswer) → some (verified b) ≡ some (verified a) → b ≡ a
  same_answer a b e = ap (response a) e

  abbrev Tells : SignedRequest → String → Bool → Bool → VerifyAnswer → Type 0
  Tells request recovered valid asked a =
      (a.request ≡ request)
      × (a.recovered_address ≡ recovered)
      × (a.valid_signature ≡ valid)
      × TellsOf number_of words request.signer (asked && valid) a.participation

  told_lem :
      (request : SignedRequest) (recovered : String) (valid asked : Bool) (a : VerifyAnswer)
      → answer number_of parse verify_message words request recovered valid asked
        ≡ some (verified a)
      → Tells request recovered valid asked a
  unfolding answer participation_of TellsOf
  told_lem request recovered valid asked a e =
      let signer = request.signer in
      elim (Bool-cases (asked && valid)) [
        | inr f ↦
            let b : VerifyAnswer = record {
              request = request;
              recovered_address = recovered;
              valid_signature = valid;
              participation = none;
            } in
            subst (Tells request recovered valid asked) (same_answer a b (rw f at e))
              (refl, refl, refl, f)
        | inl t ↦ elim (Option-cases (is_word_delegate number_of signer words)) [
          | inl d ↦ cc (rw (t, d) at e)
          | inr (delegate, d) ↦ elim (Option-cases (is_word_owner number_of signer words)) [
            | inl o ↦ cc (rw (t, d, o) at e)
            | inr (owner, o) ↦
                let p : Participation = record {
                  is_word_delegate = delegate;
                  is_word_owner = owner;
                } in
                let b : VerifyAnswer = record {
                  request = request;
                  recovered_address = recovered;
                  valid_signature = valid;
                  participation = some p;
                } in
                subst (Tells request recovered valid asked) (same_answer a b (rw (t, d, o) at e)) (
                  refl,
                  refl,
                  refl,
                  (
                    t,
                    owner-owns number_of words signer owner o,
                    delegate-represents number_of words signer delegate d,
                  ),
                )
          ]
        ]
      ]

  honest_lem :
      (text : String) (asked : Bool) (a : VerifyAnswer) (request : SignedRequest)
      (recovered : String) (valid : Bool)
      → text ≢ ""
      → parse text ≡ some request
      → verify_message request.message request.signature ≡ some recovered
      → big_numbers_equal number_of request.signer recovered ≡ some valid
      → Tells request recovered valid asked a
      → IsHonest (some text) asked a
  honest_lem text asked a request recovered valid t p v n (same, address, mark, tells) =
      let number : valid ≡ is_same_number number_of request.signer recovered =
        ap (λ o. or_else o false) (sym n) ∙ same_number-value number_of request.signer recovered in
      record {
        text = text;
        there = refl;
        full = t;
        read = p ∙ ap some (sym same);
        recovers =
            ap (λ (r : SignedRequest). verify_message r.message r.signature) same
            ∙ v
            ∙ ap some (sym address);
        signed =
            mark
            ∙ number
            ∙ ap (λ (r : SignedRequest). is_same_number number_of r.signer recovered) (sym same)
            ∙ ap (is_same_number number_of a.request.signer) (sym address);
        told =
            subst
              (λ (r : SignedRequest).
                TellsOf number_of words r.signer (asked && a.valid_signature) a.participation)
              (sym same)
              (subst (λ b. TellsOf number_of words request.signer (asked && b) a.participation)
                (sym mark) tells);
      }

  -- An answer that is no refusal is honest.
  pub verify_handler-IsHonest :
      (body : Option String) (asked : Bool) (a : VerifyAnswer)
      → verify_handler number_of parse verify_message words body asked ≡ some (verified a)
      → IsHonest body asked a
  unfolding verify_handler invalid_body_check
  verify_handler-IsHonest none asked a e = cc e
  verify_handler-IsHonest (some text) asked a e = elim (Bool-cases (str_eq text "")) [
    | inl t ↦ cc (rw (verify_handler, t) at e)
    | inr t ↦ elim (Option-cases (parse text)) [
      | inl p ↦ cc (rw (verify_handler, t, p) at e)
      | inr (request, p) ↦ elim (Option-cases (verify_message request.message request.signature)) [
        | inl v ↦ cc (rw (verify_handler, t, p, v) at e)
        | inr (recovered, v) ↦
            elim (Option-cases (big_numbers_equal number_of request.signer recovered)) [
              | inl n ↦ cc (rw (verify_handler, t, p, v, n) at e)
              | inr (valid, n) ↦
                  honest_lem text asked a request recovered valid
                    ((λ q. cc ((str_eq-eq text "" q), t))) p v n
                    (told_lem request recovered valid asked a
                      (rw (verify_handler, t, p, v, n) at e))
            ]
      ]
    ]
  ]
