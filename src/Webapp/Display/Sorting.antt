-- ===== src/Webapp/Display/Sorting.antt =====
-- The order of the bids on display.
use web3_nft.Prelude.{
  ℕ, suc, ◌≤◌, ◌≡◌, refl, ap, ◌∙◌, inl, inr, Bool, List, [], ◌∷◌, arith, ltb, if◌then◌else◌,
  Bool-cases, All,
}
use web3_nft.Webapp.Auction.{BidEvent}
use web3_nft.Webapp.Display.{place_bid, deserialize_bids}

-- The latest bid first: each bid is no earlier than those after it.
unfoldable pub IsDescending : List BidEvent → Type 0
IsDescending [] = Unit
IsDescending (bid ∷ bids) = All (λ other. other.timestamp ≤ bid.timestamp) bids × IsDescending bids

-- How many bids pass a test.
unfoldable pub count : (BidEvent → Bool) → List BidEvent → ℕ
count test [] = 0
count test (bid ∷ bids) = let rest = count test bids in if test bid then suc rest else rest

place_bid-All :
    (limit : ℕ) (bid : BidEvent) (bids : List BidEvent)
    → bid.timestamp ≤ limit
    → All (λ other. other.timestamp ≤ limit) bids
    → All (λ other. other.timestamp ≤ limit) (place_bid bid bids)
unfolding place_bid
place_bid-All limit bid [] h k = (h, tt)
place_bid-All limit bid (next ∷ bids) h (p, k) =
    elim (Bool-cases (ltb bid.timestamp next.timestamp)) [
      | inl e ↦ rw (e) (p, place_bid-All limit bid bids h k)
      | inr e ↦ rw (e) (h, (p, k))
    ]

All-weaken :
    (low high : ℕ) (bids : List BidEvent)
    → low ≤ high
    → All (λ other. other.timestamp ≤ low) bids
    → All (λ other. other.timestamp ≤ high) bids
All-weaken low high [] h k = tt
All-weaken low high (bid ∷ bids) h (p, k) = (omega arith, All-weaken low high bids h k)

place_bid-IsDescending :
    (bid : BidEvent) (bids : List BidEvent) → IsDescending bids → IsDescending (place_bid bid bids)
unfolding place_bid IsDescending
place_bid-IsDescending bid [] h = (tt, tt)
place_bid-IsDescending bid (next ∷ bids) (p, h) =
    elim (Bool-cases (ltb bid.timestamp next.timestamp)) [
      | inl e ↦ rw (e) (
        place_bid-All next.timestamp bid bids (ground arith) p,
        place_bid-IsDescending bid bids h,
      )
      | inr e ↦
          let earlier : next.timestamp ≤ bid.timestamp = ground arith in
          rw (e) ((earlier, All-weaken next.timestamp bid.timestamp bids earlier p), (p, h))
    ]

count-place_bid :
    (test : BidEvent → Bool) (bid : BidEvent) (bids : List BidEvent)
    → count test (place_bid bid bids) ≡ count test (bid ∷ bids)
unfolding place_bid count
count-place_bid test bid [] = refl
count-place_bid test bid (next ∷ bids) = let rest = count-place_bid test bid bids in ground arith

-- The bids are shown with the latest first, and they are the bids that are there: any test is
-- passed by as many of them.
pub deserialize_bids-IsDescending :
    (test : BidEvent → Bool) (bids : List BidEvent)
    → IsDescending (deserialize_bids bids) × (count test (deserialize_bids bids) ≡ count test bids)
unfolding deserialize_bids count IsDescending
deserialize_bids-IsDescending test [] = (tt, refl)
deserialize_bids-IsDescending test (bid ∷ bids) =
    let (sorted, same) = deserialize_bids-IsDescending test bids in
    (
      place_bid-IsDescending bid (deserialize_bids bids) sorted,
      count-place_bid test bid (deserialize_bids bids)
          ∙ ap (λ n. if test bid then suc n else n) same,
    )
