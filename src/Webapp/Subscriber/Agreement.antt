-- ===== src/Webapp/Subscriber/Agreement.antt =====
-- The page and the subgraph follow one auction of the house and show the same.
use web3_nft.Prelude.{
  ℕ, String, ◌≡◌, refl, ap, ◌∙◌, true, false, none, some, List, [], ◌∷◌, map, str_eq, eq_refl,
  if◌then◌else◌,
}
use web3_nft.Webapp.Auction.{IAuction, reduce}
use web3_nft.Webapp.Subscriber.{PageState, created, on_event, on_events}
use web3_nft.Subgraph.Schema.{Store}
use web3_nft.Subgraph.Helpers.Views.{StoreIsKeyed, IsKnown}
use web3_nft.Subgraph.Auctions.Rows.{Bidding, bidding}
use web3_nft.Subgraph.Indexer.{Event, auction_created, index}
use web3_nft.Subgraph.Indexer.Biddings.{follow, follow_all, index-follow}
use web3_nft.Webapp.Subscriber.House.{
  HouseEvent, house_bid, house_extended, house_settled, to_page, to_graph, AreOfHouse, Agrees,
}
use web3_nft.Webapp.Subscriber.Steps.{InAgreement, bid_step, extended_step, settled_step}

module _ (n : ℕ) (w : String) where
  -- What both have after some more events.
  pub record AgreeAfter (es : List HouseEvent) (b : Bidding) (page : PageState) : Type 0 where
    pub row : Bidding
    pub shown : IAuction
    pub row_follows : follow_all w (map (to_graph w) es) (some b) ≡ some row
    pub page_follows : (on_events (map (to_page n) es) page).auction.active_auction ≡ some shown
    pub agrees : Agrees n row shown

  own_row :
      (es : List HouseEvent) (b b' : Bidding)
      → follow_all w (map (to_graph w) es) (if str_eq w w then some b' else some b)
        ≡ follow_all w (map (to_graph w) es) (some b')
  own_row es b b' =
      ap (λ t. follow_all w (map (to_graph w) es) (if t then some b' else some b)) (eq_refl w)

  agree_after :
      (es : List HouseEvent) (b : Bidding) (hashes : List String) (page : PageState)
      → InAgreement n b hashes page
      → AreOfHouse b.amount b.bidder hashes es
      → AgreeAfter es b page
  unfolding follow_all follow on_events AreOfHouse to_graph
  agree_after [] b hashes page h order = record {
    row = b;
    shown = h.shown;
    row_follows = refl;
    page_follows = h.active;
    agrees = h.agrees;
  }
  agree_after (house_bid sender value hash extends index block time ∷ es) b hashes page h
        (p, q, o) =
      let b' = record b { amount = value; bidder = some sender } in
      let step = bid_step n b hashes page h sender value hash extends index block time p q in
      let rest = agree_after es b' (hash ∷ hashes) _ step o in
      record {
        row = rest.row;
        shown = rest.shown;
        row_follows = own_row es b b' ∙ rest.row_follows;
        page_follows = rest.page_follows;
        agrees = rest.agrees;
      }
  agree_after (house_extended end ∷ es) b hashes page h o =
      let b' = record b { end_time = end } in
      let rest = agree_after es b' hashes _ (extended_step n b hashes page h end) o in
      record {
        row = rest.row;
        shown = rest.shown;
        row_follows = own_row es b b' ∙ rest.row_follows;
        page_follows = rest.page_follows;
        agrees = rest.agrees;
      }
  agree_after (house_settled winner value ∷ es) b hashes page h (p, q, o) =
      let b' = record b { settled = true } in
      let rest = agree_after es b' hashes _ (settled_step n b hashes page h winner value p q) o in
      record {
        row = rest.row;
        shown = rest.shown;
        row_follows = own_row es b b' ∙ rest.row_follows;
        page_follows = rest.page_follows;
        agrees = rest.agrees;
      }

-- From its creation on, one auction of the house is the same for the subgraph and for the page. The bids
-- are above the amount, in transactions of their own, and it is settled to its bidder for its amount;
-- the store's rows stand under their ids and the word has a row. Then both have an auction after any of
-- these events: with the same amount, times and mark of settlement and the same bidder, if there is one.
pub agree_from_creation :
    (n : ℕ) (w : String) (start end : ℕ) (es : List HouseEvent) (s : Store) (page : PageState)
    → StoreIsKeyed s
    → IsKnown w s
    → AreOfHouse 0 none [] es
    → (b : Bidding) × (a : IAuction) × ((bidding w (
            index
              (auction_created (record { word_id = w; start_time = start; end_time = end })
                ∷ map (to_graph w) es)
              s)
          ≡ some b)
        × ((on_events
              (created (record { word_id = n; start_time = start; end_time = end; settled = false })
                ∷ map (to_page n) es)
              page).auction.active_auction
            ≡ some a)
        × Agrees n b a)
unfolding on_events on_event follow_all follow reduce
agree_from_creation n w start end es s page keyed known house =
    let creation : Event =
      auction_created (record { word_id = w; start_time = start; end_time = end }) in
    let first : Bidding = record {
      amount = 0;
      bidder = none;
      start_time = start;
      end_time = end;
      settled = false;
    } in
    let opened : IAuction = record {
      amount = 0;
      bidder = "";
      start_time = start;
      end_time = end;
      word_id = n;
      settled = false;
    } in
    let page' : PageState =
      on_event
        (created (record { word_id = n; start_time = start; end_time = end; settled = false }))
        page in
    let after =
      agree_after n w es first [] page'
        (record {
          shown = opened;
          active = refl;
          agrees = record {
            word = refl;
            amount = refl;
            bidder = refl;
            start_time = refl;
            end_time = refl;
            settled = refl;
          };
          below = tt;
          same_hashes = refl;
        })
        house in
    (
      after.row,
      after.shown,
      (
        index-follow w (creation ∷ map (to_graph w) es) s keyed known
            ∙ ap (λ t. follow_all w (map (to_graph w) es) (if t then some first else bidding w s))
                (eq_refl w)
            ∙ after.row_follows,
        after.page_follows,
        after.agrees,
      ),
    )
