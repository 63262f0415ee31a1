-- ===== src/Bots/Ticks.antt =====
-- What a tick announces, and that it announces nothing twice.
use web3_nft.Prelude.{
  ℕ, String, ◌≡◌, refl, sym, ap, ◌∙◌, inl, inr, Bool, true, false, ◌&&◌, List, [], ◌∷◌, arith,
  str_eq, eq_refl, ltb, Bool-cases, or_else, All,
}
use mathlib.Core.Path.{subst}
use web3_nft.Bots.{
  Bid, AuctionBids, World, AuctionLifecycleHandler, all_handlers, check_new_auction, check_new_bid,
  check_ending_soon, process_auction_tick, get_auction_cache, get_bid_cache,
  get_auction_ending_soon_cache, increment_counter, ends_soon, update_auction_cache,
  update_bid_cache, update_auction_ending_soon_cache,
}
use web3_nft.Bots.Handlers.{IsKept, HandlerIsKeeping}

all_handlers-IsKept :
    (call : AuctionLifecycleHandler → World → World) (hs : List AuctionLifecycleHandler) (w : World)
    → ((h : AuctionLifecycleHandler) → HandlerIsKeeping h → (v : World) → IsKept v (call h v))
    → All HandlerIsKeeping hs
    → IsKept w (all_handlers call hs w)
unfolding all_handlers
all_handlers-IsKept call [] w keeps k = record { auction = refl; bid = refl; ending = refl }
all_handlers-IsKept call (h ∷ hs) w keeps (p, k) =
    let first = keeps h p w in
    let rest = all_handlers-IsKept call hs (call h w) keeps k in
    record {
      auction = rest.auction ∙ first.auction;
      bid = rest.bid ∙ first.bid;
      ending = rest.ending ∙ first.ending;
    }

-- The id is that of the first bid, or there is none.
unfoldable IsLatest : String → List Bid → Type 0
IsLatest id [] = Unit
IsLatest id (bid ∷ bids) = str_eq id bid.id ≡ true

no_new_bid :
    (hs : List AuctionLifecycleHandler) (last : AuctionBids) (bids : List Bid) (id : String)
    (w : World)
    → IsLatest id bids
    → check_new_bid hs id (record last { bids = bids }) w ≡ w
unfolding check_new_bid IsLatest
no_new_bid hs last [] id w h = refl
no_new_bid hs last (bid ∷ bids) id w h = rw (h) refl

no_new_auction :
    (hs : List AuctionLifecycleHandler) (last : AuctionBids) (id : ℕ) (w : World)
    → ltb id last.id ≡ false
    → check_new_auction hs id last w ≡ w
unfolding check_new_auction
no_new_auction hs last id w h = rw (h) refl

no_ending_soon :
    (hs : List AuctionLifecycleHandler) (last : AuctionBids) (now id : ℕ) (w : World)
    → (ends_soon now last && ltb id last.id) ≡ false
    → check_ending_soon hs now id last w ≡ w
unfolding check_ending_soon
no_ending_soon hs last now id w h = rw (h) refl

and_false : (t : Bool) → (t && false) ≡ false
and_false true = refl
and_false false = refl

not_below : (n : ℕ) → ltb n n ≡ false
not_below n = ground arith

module _ (hs : List AuctionLifecycleHandler) (k : All HandlerIsKeeping hs)
    (last : AuctionBids) where
  -- After its check, the auction in the cache is not before the last one.
  auction_checked :
      (w : World)
      → (ltb (get_auction_cache (check_new_auction hs (get_auction_cache w) last w)) last.id
          ≡ false)
        × ((check_new_auction hs (get_auction_cache w) last w).cache.bid ≡ w.cache.bid)
        × ((check_new_auction hs (get_auction_cache w) last w).cache.ending_soon
            ≡ w.cache.ending_soon)
  unfolding check_new_auction
  auction_checked w = elim (Bool-cases (ltb (get_auction_cache w) last.id)) [
    | inl e ↦
        let told =
          all_handlers-IsKept (λ h. h.handle_new_auction last.id) hs
            (update_auction_cache last.id (increment_counter "auctions_discovered" w))
            (λ h p v. p.new_auction last.id v) k in
        rw (e) (
          ap (λ o. ltb (or_else o 0) last.id) told.auction ∙ not_below last.id,
          told.bid,
          told.ending,
        )
    | inr e ↦ rw (e) (e, refl, refl)
  ]

  -- After its check, the bid in the cache is the newest one, if there is one.
  bid_checked :
      (bids : List Bid) (cached : String) (v : World)
      → or_else v.cache.bid "" ≡ cached
      → IsLatest (get_bid_cache (check_new_bid hs cached (record last { bids = bids }) v)) bids
        × ((check_new_bid hs cached (record last { bids = bids }) v).cache.auction
            ≡ v.cache.auction)
        × ((check_new_bid hs cached (record last { bids = bids }) v).cache.ending_soon
            ≡ v.cache.ending_soon)
  unfolding check_new_bid IsLatest
  bid_checked [] cached v same = (tt, refl, refl)
  bid_checked (bid ∷ bids) cached v same = elim (Bool-cases (str_eq cached bid.id)) [
    | inl e ↦ rw (e) (ap (λ id. str_eq id bid.id) same ∙ e, refl, refl)
    | inr e ↦
        let told =
          all_handlers-IsKept (λ h. h.handle_new_bid last.id bid) hs (update_bid_cache bid.id v)
            (λ h p u. p.new_bid last.id bid u) k in
        rw (e) (
          ap (λ o. str_eq (or_else o "") bid.id) told.bid ∙ eq_refl bid.id,
          told.auction,
          told.ending,
        )
  ]

  -- After its check, no warning of the end is due at that time.
  ending_checked :
      (now : ℕ) (w v : World)
      → v.cache.ending_soon ≡ w.cache.ending_soon
      → ((ends_soon now last
            && ltb
                (get_auction_ending_soon_cache
                  (check_ending_soon hs now (get_auction_ending_soon_cache w) last v))
                last.id)
          ≡ false)
        × ((check_ending_soon hs now (get_auction_ending_soon_cache w) last v).cache.auction
            ≡ v.cache.auction)
        × ((check_ending_soon hs now (get_auction_ending_soon_cache w) last v).cache.bid
            ≡ v.cache.bid)
  unfolding check_ending_soon
  ending_checked now w v same =
      elim (Bool-cases (ends_soon now last && ltb (get_auction_ending_soon_cache w) last.id)) [
        | inl e ↦
            let told =
              all_handlers-IsKept (λ h. h.handle_auction_ending_soon last.id) hs
                (update_auction_ending_soon_cache last.id v) (λ h p u. p.ending_soon last.id u) k in
            rw (e) (
              ap (λ o. ends_soon now last && ltb (or_else o 0) last.id) told.ending
                  ∙ ap (λ t. ends_soon now last && t) (not_below last.id)
                  ∙ and_false (ends_soon now last),
              told.auction,
              told.bid,
            )
        | inr e ↦
            rw (e) (ap (λ o. ends_soon now last && ltb (or_else o 0) last.id) same ∙ e, refl, refl)
      ]

  -- Where the handlers leave the poller's three keys of the cache alone, a tick that is run again, at
  -- the same second and with the same last auction, announces nothing: it only counts itself.
  pub quiet_tick :
      (now : ℕ) (w : World)
      → process_auction_tick hs now last (process_auction_tick hs now last w)
        ≡ increment_counter "auction_process_last_auction" (process_auction_tick hs now last w)
  unfolding process_auction_tick
  quiet_tick now w =
      let w₁ = check_new_auction hs (get_auction_cache w) last w in
      let v₁ = increment_counter "auction_process_last_auction" w₁ in
      let w₂ = check_new_bid hs (get_bid_cache w) last v₁ in
      let done = process_auction_tick hs now last w in
      let counted = increment_counter "auction_process_last_auction" done in
      let (a, a_bid, a_ending) = auction_checked w in
      let (b, b_auction, b_ending) =
        bid_checked last.bids (get_bid_cache w) v₁ (ap (λ o. or_else o "") a_bid) in
      let (c, c_auction, c_bid) = ending_checked now w w₂ (b_ending ∙ a_ending) in
      let same_auction : get_auction_cache done ≡ get_auction_cache w₁ =
        ap (λ o. or_else o 0) (c_auction ∙ b_auction) in
      let latest : IsLatest (get_bid_cache done) last.bids =
        subst (λ o. IsLatest (or_else o "") last.bids) (sym c_bid) b in
      ap
        (λ u. check_ending_soon hs now (get_auction_ending_soon_cache done) last (
          check_new_bid hs (get_bid_cache done) last
            (increment_counter "auction_process_last_auction" u)))
        (no_new_auction hs last (get_auction_cache done) done
          (ap (λ n. ltb n last.id) same_auction ∙ a))
      ∙ ap (check_ending_soon hs now (get_auction_ending_soon_cache done) last)
          (no_new_bid hs last last.bids (get_bid_cache done) counted latest)
      ∙ no_ending_soon hs last now (get_auction_ending_soon_cache done) counted c
