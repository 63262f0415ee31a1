-- ===== src/Webapp/Functions/Verify/Reading.antt =====
-- Where the tests of the words by their owners and delegates throw: an address is no number.
use web3_nft.Prelude.{
  ℕ, String, ◌≡◌, refl, inl, inr, Bool, true, false, not, ◌&&◌, ◌||◌, Option, none, some, List, [],
  ◌∷◌, arith, str_eq, Bool-cases, Option-cases,
}
use web3_nft.Webapp.Functions.{
  NormalizedWord, big_numbers_equal, filter_words, delegated_to, is_some_word,
}
use web3_nft.Webapp.Functions.Verify.Answers.{any_word}

module _ (number_of : String → Option ℕ) where
  pub is_readable : String → Bool
  is_readable text = elim (number_of text) [ none ↦ false | some n ↦ true ]

  -- The owner or the delegate that is set is no number.
  pub is_unread : NormalizedWord → Bool
  unfolding is_readable
  is_unread w =
      not (is_readable w.owner)
      || elim w.delegated_to [ none ↦ false | some b ↦ not (str_eq b "") && not (is_readable b) ]

  filter_words-none :
      (test : NormalizedWord → Option Bool) (words : List NormalizedWord)
      → ((w : NormalizedWord) → test w ≡ none → is_unread w ≡ true)
      → filter_words number_of test words ≡ none
      → any_word is_unread words ≡ true
  unfolding filter_words any_word
  filter_words-none test [] bad e = cc e
  filter_words-none test (w ∷ ws) bad e = elim (Option-cases (test w)) [
    | inl t ↦ rw (bad w t) refl
    | inr (keep, t) ↦ elim (Option-cases (filter_words number_of test ws)) [
      | inl f ↦ let rest = filter_words-none test ws bad f in ground (arith, rest)
      | inr (more, f) ↦ cc (rw (filter_words, t, f) at e)
    ]
  ]

  pub some_word-none :
      (test : NormalizedWord → Option Bool) (words : List NormalizedWord)
      → ((w : NormalizedWord) → test w ≡ none → is_unread w ≡ true)
      → is_some_word number_of (filter_words number_of test words) ≡ none
      → any_word is_unread words ≡ true
  some_word-none test words bad e = elim (Option-cases (filter_words number_of test words)) [
    | inl f ↦ filter_words-none test words bad f
    | inr (kept, f) ↦ cc (rw f at e)
  ]

  unequal_none :
      (a b : String)
      → is_readable a ≡ true
      → big_numbers_equal number_of a b ≡ none
      → is_readable b ≡ false
  unfolding big_numbers_equal is_readable
  unequal_none a b h e = ground arith

  pub owner_unread :
      (a : String) (w : NormalizedWord)
      → is_readable a ≡ true
      → big_numbers_equal number_of a w.owner ≡ none
      → is_unread w ≡ true
  unfolding is_unread
  owner_unread a w h e = rw (unequal_none a w.owner h e) refl

  pub delegate_unread :
      (a : String) (w : NormalizedWord)
      → is_readable a ≡ true
      → delegated_to number_of a w.delegated_to ≡ none
      → is_unread w ≡ true
  unfolding is_unread delegated_to
  delegate_unread a w h e = elim (Option-cases w.delegated_to) [
    | inl d ↦ cc (rw d at e)
    | inr (b, d) ↦ elim (Bool-cases (str_eq b "")) [
      | inl t ↦ cc (rw (d, t) at e)
      | inr t ↦
          let unread : is_readable b ≡ false = unequal_none a b h (rw (d, t) at e) in
          rw (d, t, unread) (ground arith)
    ]
  ]

  pub compared_readable :
      (a b : String) (equal : Bool)
      → big_numbers_equal number_of a b ≡ some equal
      → is_readable a ≡ true
  unfolding big_numbers_equal is_readable
  compared_readable a b equal e = ground arith

  pub unequal_unread :
      (a b : String)
      → big_numbers_equal number_of a b ≡ none
      → (is_readable a && is_readable b) ≡ false
  unfolding big_numbers_equal is_readable
  unequal_unread a b e = ground arith
