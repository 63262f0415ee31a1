-- ===== src/Webapp/Display/Choice.antt =====
-- Which auction is shown for the id on display.
use web3_nft.Prelude.{
  ℕ, ◌+◌, ◌≡◌, refl, sym, ◌⊎◌, inl, inr, false, none, some, List, [], ◌∷◌, ◌==◌, ==_iff, Bool-cases,
  or_else,
}
use web3_nft.Webapp.Auction.{IAuction, AuctionState}
use web3_nft.Webapp.Display.{
  OnDisplayAuctionState, PastAuction, redux_safe_past_auction, redux_safe_past_auctions,
  is_wordder_word, empty_wordder_auction, find_auction, generate_empty_wordder_auction, find_state,
  deserialize_auction, use_on_display_auction,
}

-- Among auctions of the subgraph the search for a word's auction throws no error, and what it finds
-- has the word's id.
find_auction-past :
    (id : ℕ) (past : List PastAuction)
    → (find_auction id (redux_safe_past_auctions past) ≡ some none)
      ⊎ ((auction : IAuction) × ((find_auction id (redux_safe_past_auctions past)
              ≡ some (some auction))
            × (auction.word_id ≡ id)))
unfolding find_auction
find_auction-past id [] = inl refl
find_auction-past id (auction ∷ past) = elim (Bool-cases (auction.id == id)) [
  | inl e ↦ inr (
    or_else (redux_safe_past_auction auction).active_auction (empty_wordder_auction id),
    (rw (e) refl, (==_iff auction.id id).0 e),
  )
  | inr e ↦ rw (e) (find_auction-past id past)
]

find_state-past :
    (id : ℕ) (past : List PastAuction)
    → (find_state id (redux_safe_past_auctions past) ≡ none)
      ⊎ ((auction : PastAuction) × ((find_state id (redux_safe_past_auctions past)
              ≡ some (redux_safe_past_auction auction))
            × (auction.id ≡ id)))
unfolding find_state
find_state-past id [] = inl refl
find_state-past id (auction ∷ past) = elim (Bool-cases (auction.id == id)) [
  | inl e ↦ inr (auction, (rw (e) refl, (==_iff auction.id id).0 e))
  | inr e ↦ rw (e) (find_state-past id past)
]

-- With a running auction and past auctions of the subgraph, the choice throws no error. What is
-- shown for an id, if anything, is an auction of the id's word that is not settled. For a
-- founder's word, which never runs, there is always one.
pub use_on_display_auction-word :
    (display : OnDisplayAuctionState) (current : AuctionState) (past : List PastAuction) (id : ℕ)
    (auction : IAuction)
    → display.on_display_auction_word_id ≡ some id
    → current.active_auction ≡ some auction
    → ((use_on_display_auction display current (redux_safe_past_auctions past) ≡ some none)
        × (is_wordder_word id ≡ false))
      ⊎ ((shown : IAuction) × ((use_on_display_auction display current
                (redux_safe_past_auctions past)
              ≡ some (some shown))
            × (shown.word_id ≡ id)
            × (shown.settled ≡ false)))
unfolding use_on_display_auction generate_empty_wordder_auction
use_on_display_auction-word display current past id auction shown active =
    rw (shown, use_on_display_auction, active)
      (elim (Bool-cases (id == auction.word_id)) [
        | inl e ↦
            rw (e) (
              inr
                (deserialize_auction auction, (refl, sym ((==_iff id auction.word_id).0 e), refl)))
        | inr e ↦ elim (Bool-cases (is_wordder_word id)) [
          | inl f ↦ elim (find_auction-past (id + 1) past) [
            | inl g ↦ rw (e, f, g) (inr (empty_wordder_auction id, (refl, refl, refl)))
            | inr (above, g) ↦
                rw (e, f, g.0)
                  (inr (
                    record (empty_wordder_auction id) { start_time = above.start_time },
                    (refl, refl, refl),
                  ))
          ]
          | inr f ↦ elim (find_state-past id past) [
            | inl g ↦ rw (e, f, g) (inl (refl, refl))
            | inr (found, g) ↦
                rw (e, f, g.0)
                  (inr (
                    deserialize_auction
                        (or_else (redux_safe_past_auction found).active_auction auction),
                    (refl, g.1, refl),
                  ))
          ]
        ]
      ])
