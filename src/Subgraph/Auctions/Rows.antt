-- ===== src/Subgraph/Auctions/Rows.antt =====
-- What each auction event does to the row of its own auction and to the rows of the others.
use web3_nft.Prelude.{
  ℕ, String, ◌≡◌, refl, sym, ap, ◌∙◌, ◌≢◌, inl, inr, Bool, true, false, Option, none, some, arith,
  str_eq, eq_iff, if◌then◌else◌, Bool-cases, Option-cases,
}
use web3_nft.Table.{Table, lookup, insert, lookup-insert, lookup-insert_ne}
use web3_nft.Table.Keys.{lookup-IsKeyed}
use web3_nft.Subgraph.Schema.{Auction, Account, Store}
use web3_nft.Subgraph.Helpers.{get_or_create_account}
use web3_nft.Subgraph.Helpers.Views.{
  account_at-id, AccountsAreKeyed, AuctionsAreKeyed, IsKnown, get_or_create_account-frame,
  get_or_create_account-value,
}
use web3_nft.Subgraph.Auctions.{
  AuctionCreated, AuctionBid, AuctionExtended, AuctionSettled, record_bid, handle_auction_created,
  handle_auction_bid, handle_auction_extended, handle_auction_settled,
}

-- What an auction's row says of the bidding.
pub record Bidding : Type 0 where
  pub amount : ℕ
  pub bidder : Option String
  pub start_time : ℕ
  pub end_time : ℕ
  pub settled : Bool

abbrev pub bidding_of : Auction → Bidding
bidding_of a = record {
  amount = a.amount;
  bidder = a.bidder;
  start_time = a.start_time;
  end_time = a.end_time;
  settled = a.settled;
}

abbrev pub bidding_in : Option Auction → Option Bidding
bidding_in none = none
bidding_in (some a) = some (bidding_of a)

abbrev pub bidding : String → Store → Option Bidding
bidding word s = bidding_in (lookup word s.auctions)

-- How the auction contract's events change the bidding for a word, whatever the store.
abbrev pub on_created : AuctionCreated → Option Bidding → Option Bidding
on_created event b = some (record {
  amount = 0;
  bidder = none;
  start_time = event.start_time;
  end_time = event.end_time;
  settled = false;
})

abbrev pub on_bid : AuctionBid → Option Bidding → Option Bidding
on_bid event none = none
on_bid event (some b) = some (record b { amount = event.value; bidder = some event.sender })

abbrev pub on_extended : AuctionExtended → Option Bidding → Option Bidding
on_extended event none = none
on_extended event (some b) = some (record b { end_time = event.end_time })

abbrev pub on_settled : Option Bidding → Option Bidding
on_settled none = none
on_settled (some b) = some (record b { settled = true })

module _ (word : String) (s : Store) where
  pub created-bidding :
      (event : AuctionCreated)
      → IsKnown event.word_id s
      → bidding word (handle_auction_created event s)
        ≡ (if str_eq event.word_id word then on_created event (bidding word s) else bidding word s)
  unfolding handle_auction_created
  created-bidding event known = elim (Option-cases (lookup event.word_id s.words)) [
    | inl e ↦ absurd (known e)
    | inr (w, e) ↦
        rw (e, handle_auction_created)
          (ground (
            arith,
            lookup-insert event.word_id word
                (record {
                  id = event.word_id;
                  word = w.id;
                  amount = 0;
                  start_time = event.start_time;
                  end_time = event.end_time;
                  bidder = none;
                  settled = false;
                })
                s.auctions,
          ))
  ]

account-id : (id : String) (s : Store) → AccountsAreKeyed s → (get_or_create_account id s).0.id ≡ id
account-id id s k =
    ap (λ (a : Account). a.id) (get_or_create_account-value id s) ∙ account_at-id s.accounts id k

-- Creating the auction of another word, known or not, leaves this word's bidding as it is.
pub created-other :
    (word : String) (s : Store) (event : AuctionCreated)
    → event.word_id ≢ word
    → bidding word (handle_auction_created event s) ≡ bidding word s
unfolding handle_auction_created
created-other word s event other = elim (Option-cases (lookup event.word_id s.words)) [
  | inl e ↦ rw (e, handle_auction_created)
  | inr (w, e) ↦
      rw (e, handle_auction_created)
        (ap bidding_in (
          lookup-insert_ne event.word_id word
            (record {
              id = event.word_id;
              word = w.id;
              amount = 0;
              start_time = event.start_time;
              end_time = event.end_time;
              bidder = none;
              settled = false;
            })
            s.auctions other))
]

-- The row of an auction, saved again with a change.
saved-bidding :
    (word : String) (t : Table Auction) (id : String) (a b : Auction)
    (f : Option Bidding → Option Bidding)
    → lookup id t ≡ some a
    → b.id ≡ id
    → some (bidding_of b) ≡ f (some (bidding_of a))
    → bidding_in (lookup word (insert b.id b t))
      ≡ (if str_eq id word then f (bidding_in (lookup word t)) else bidding_in (lookup word t))
saved-bidding word t id a b f found same e = elim (Bool-cases (str_eq id word)) [
  | inl p ↦
      let q : id ≡ word = (eq_iff _ _).0 p in
      let new : lookup word (insert b.id b t) ≡ some b =
        ground (arith, lookup-insert b.id word b t, eq_iff b.id word) in
      let old : lookup word t ≡ some a = ap (λ k. lookup k t) (sym q) ∙ found in
      rw p (ap bidding_in new ∙ e ∙ ap (λ o. f (bidding_in o)) (sym old))
  | inr p ↦
      let q : b.id ≢ word = ground (arith, eq_iff id word) in
      rw p (ap bidding_in (lookup-insert_ne b.id word b t q))
]

-- An event for an auction that has no row changes no bidding.
missing-bidding :
    (word : String) (t : Table Auction) (id : String) (f : Option Bidding → Option Bidding)
    → lookup id t ≡ none
    → f none ≡ none
    → bidding_in (lookup word t)
      ≡ (if str_eq id word then f (bidding_in (lookup word t)) else bidding_in (lookup word t))
missing-bidding word t id f missing e = elim (Bool-cases (str_eq id word)) [
  | inl p ↦
      let old : lookup word t ≡ none = ap (λ k. lookup k t) (sym ((eq_iff _ _).0 p)) ∙ missing in
      rw p (ap bidding_in old ∙ sym e ∙ ap (λ o. f (bidding_in o)) (sym old))
  | inr p ↦ rw p
]

module _ (word : String) (s : Store) (h : AuctionsAreKeyed s) where
  pub extended-bidding :
      (event : AuctionExtended)
      → bidding word (handle_auction_extended event s)
        ≡ (if str_eq event.word_id word then on_extended event (bidding word s) else bidding word s)
  unfolding handle_auction_extended
  extended-bidding event = elim (Option-cases (lookup event.word_id s.auctions)) [
    | inl e ↦
        rw (e, handle_auction_extended)
          (missing-bidding word s.auctions event.word_id (on_extended event) e refl)
    | inr (a, e) ↦
        rw (e, handle_auction_extended)
          (saved-bidding word s.auctions event.word_id a (record a { end_time = event.end_time })
            (on_extended event) e
            (lookup-IsKeyed (λ (x : Auction). x.id) event.word_id s.auctions h e) refl)
  ]

  pub settled-bidding :
      (event : AuctionSettled)
      → bidding word (handle_auction_settled event s)
        ≡ (if str_eq event.word_id word then on_settled (bidding word s) else bidding word s)
  unfolding handle_auction_settled
  settled-bidding event = elim (Option-cases (lookup event.word_id s.auctions)) [
    | inl e ↦
        rw (e, handle_auction_settled)
          (missing-bidding word s.auctions event.word_id on_settled e refl)
    | inr (a, e) ↦
        rw (e, handle_auction_settled)
          (saved-bidding word s.auctions event.word_id a (record a { settled = true }) on_settled e
            (lookup-IsKeyed (λ (x : Auction). x.id) event.word_id s.auctions h e) refl)
  ]

  pub bid-bidding :
      (event : AuctionBid)
      → AccountsAreKeyed s
      → bidding word (handle_auction_bid event s)
        ≡ (if str_eq event.word_id word then on_bid event (bidding word s) else bidding word s)
  unfolding handle_auction_bid record_bid
  bid-bidding event k =
      let (account, s') = get_or_create_account event.sender s in
      let same : s'.auctions ≡ s.auctions = (get_or_create_account-frame event.sender s).2 in
      let sender : account.id ≡ event.sender = account-id event.sender s k in
      elim (Option-cases (lookup event.word_id s.auctions)) [
        | inl e ↦
            rw (same, e, handle_auction_bid)
              (rw same (missing-bidding word s.auctions event.word_id (on_bid event) e refl))
        | inr (a, e) ↦
            rw (same, e, handle_auction_bid)
              (rw same (
                saved-bidding word s.auctions event.word_id a
                  (record a { amount = event.value; bidder = some account.id }) (on_bid event) e
                  (lookup-IsKeyed (λ (x : Auction). x.id) event.word_id s.auctions h e)
                  (ground (arith, sender))))
      ]
