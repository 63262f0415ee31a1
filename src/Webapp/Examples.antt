-- ===== src/Webapp/Examples.antt =====
-- The theorems about the web application's auctions, applied to an auction of the word 7.
use web3_nft.Prelude.{
  ℕ, String, Option, true, pos, str_eq, if◌then◌else◌, ◌≤◌, ◌≡◌, refl, ◌⊎◌, false, none, some, List,
  [], ◌∷◌, arith, ltb, All,
}
use web3_nft.Table.{lookup}
use web3_nft.Webapp.Functions.{NormalizedWord, reduce_proposal_votes}
use web3_nft.Webapp.Functions.Tally.{votes_at, votes_in, reduce_proposal_votes-tally}
use web3_nft.Webapp.Functions.{big_numbers_equal, filter_words, delegated_to}
use web3_nft.Webapp.Functions.Verify.{
  SignedRequest, VerifyAnswer, verified, invalid_body_check, participation_of, answer,
  verify_handler,
}
use web3_nft.Webapp.Order.{IBid, compare_bids}
use web3_nft.Webapp.Order.Comparison.{IsOrderedBy, comes_before, compare_bids-IsOrderedBy}
use web3_nft.Webapp.Logs.{
  LogsState, fetched_logs, fetched_logs_error, results_reached, reduce_all_logs,
}
use web3_nft.Webapp.Logs.Results.{HasResults, reduce_all_logs-HasResults}
use web3_nft.Webapp.Auction.{
  IAuction, BidEvent, AuctionState, set_full_auction, append_bid, contains_bid, reduce, reduce_all,
}
use web3_nft.Webapp.Auction.Bids.{IsAmong, IsDistinct, append_bid-leads, reduce_all-IsDistinct}
use web3_nft.Webapp.Display.{
  OnDisplayAuctionState, PastAuction, deserialize_bids, redux_safe_past_auctions, is_wordder_word,
  use_on_display_auction,
}
use web3_nft.Webapp.Display.Choice.{use_on_display_auction-word}
use web3_nft.Webapp.Display.Sorting.{IsDescending, count, deserialize_bids-IsDescending}

abbrev running : IAuction
running = record {
  amount = 5;
  bidder = "0xaa";
  start_time = 100;
  end_time = 200;
  word_id = 7;
  settled = false;
}

abbrev low_bid : BidEvent
low_bid = record {
  word_id = 7;
  sender = "0xaa";
  value = 5;
  extended = false;
  transaction_hash = "0x01";
  timestamp = 110;
}

abbrev high_bid : BidEvent
high_bid = record {
  word_id = 7;
  sender = "0xbb";
  value = 9;
  extended = false;
  transaction_hash = "0x02";
  timestamp = 120;
}

abbrev page : AuctionState
page = record { active_auction = some running; bids = low_bid ∷ [] }

append_bid-leads_example :
    (top : BidEvent) × ((reduce (append_bid high_bid) page ≡ record {
      active_auction = some (record running { amount = top.value; bidder = top.sender });
      bids = high_bid ∷ low_bid ∷ [];
    })
      × IsAmong top (high_bid ∷ low_bid ∷ [])
      × All (λ bid. bid.value ≤ top.value) (high_bid ∷ low_bid ∷ []))
unfolding contains_bid
append_bid-leads_example = append_bid-leads high_bid running page refl refl refl

reduce_all-IsDistinct_example :
    IsDistinct
      (reduce_all
        (append_bid high_bid ∷ append_bid high_bid ∷ set_full_auction running ∷ [])
        page).bids
unfolding IsDistinct contains_bid
reduce_all-IsDistinct_example =
    reduce_all-IsDistinct
      (append_bid high_bid ∷ append_bid high_bid ∷ set_full_auction running ∷ []) page (refl, tt)

abbrev shown_now : OnDisplayAuctionState
shown_now = record { last_auction_word_id = some 7; on_display_auction_word_id = some 6 }

abbrev past : List PastAuction
past = record { id = 6; bidder = none; amount = 3; start_time = 10; end_time = 90; bids = [] } ∷ []

use_on_display_auction-word_example :
    ((use_on_display_auction shown_now page (redux_safe_past_auctions past) ≡ some none)
      × (is_wordder_word 6 ≡ false))
    ⊎ ((shown : IAuction) × ((use_on_display_auction shown_now page (redux_safe_past_auctions past)
            ≡ some (some shown))
          × (shown.word_id ≡ 6)
          × (shown.settled ≡ false)))
use_on_display_auction-word_example =
    use_on_display_auction-word shown_now page past 6 running refl refl

deserialize_bids-IsDescending_example :
    IsDescending (deserialize_bids (low_bid ∷ high_bid ∷ []))
    × (count (λ bid. ltb 6 bid.value) (deserialize_bids (low_bid ∷ high_bid ∷ []))
        ≡ count (λ bid. ltb 6 bid.value) (low_bid ∷ high_bid ∷ []))
deserialize_bids-IsDescending_example =
    deserialize_bids-IsDescending (λ bid. ltb 6 bid.value) (low_bid ∷ high_bid ∷ [])

abbrev fetched : LogsState
fetched =
    (
      "0x:a",
      record {
        listeners = pos 1;
        fetching_block_number = some 20;
        results = some (record { block_number = 20; logs = some [] });
      },
    )
    ∷ []

reduce_all_logs-HasResults_example :
    HasResults "0x:a" 20
      (reduce_all_logs (fetched_logs "0x:a" 10 [] ∷ fetched_logs_error "0x:a" 30 ∷ []) fetched)
unfolding lookup results_reached
reduce_all_logs-HasResults_example =
    reduce_all_logs-HasResults "0x:a" 20
      (fetched_logs "0x:a" 10 [] ∷ fetched_logs_error "0x:a" 30 ∷ []) fetched
      (
        record {
          listeners = pos 1;
          fetching_block_number = some 20;
          results = some (record { block_number = 20; logs = some [] });
        },
        (refl, refl),
      )

abbrev voters : List NormalizedWord
voters =
    record {
      id = 7;
      owner = "0xaa";
      delegated_to = none;
      votes =
          record { proposal_id = 1; support_detailed = 1 }
          ∷ record { proposal_id = 2; support_detailed = 0 }
          ∷ [];
      seed = record { background = 0; body = 1; accessory = 2; head = 3; glasses = 4 };
    }
    ∷ []

reduce_proposal_votes-tally_example : votes_at 2 (reduce_proposal_votes voters) ≡ votes_in 2 voters
reduce_proposal_votes-tally_example = reduce_proposal_votes-tally 2 voters

abbrev early : IBid
early = record { block_number = 10; block_timestamp = 100; tx_index = 3 }

abbrev late : IBid
late = record { block_number = 11; block_timestamp = 115; tx_index = 0 }

compare_bids-IsOrderedBy_example : IsOrderedBy (comes_before 10 3 11 0) (compare_bids early late)
compare_bids-IsOrderedBy_example =
    compare_bids-IsOrderedBy early late (omega arith) (omega arith) (omega arith) (omega arith)

abbrev address_number : String → Option ℕ
address_number s = if str_eq s "0xaa" then some 170 else if str_eq s "0xbb" then some 187 else none

abbrev signed_request : SignedRequest
signed_request = record { message = "m"; signature = "s"; signer = "0xaa" }

abbrev told : VerifyAnswer
told = record {
  request = signed_request;
  recovered_address = "0xaa";
  valid_signature = true;
  participation = some (record { is_word_delegate = false; is_word_owner = true });
}

signed_told :
    verify_handler address_number
      (λ body. some signed_request)
      (λ m s. some "0xaa")
      voters
      (some "{}")
      true
    ≡ some (verified told)
unfolding verify_handler invalid_body_check answer participation_of big_numbers_equal filter_words
    delegated_to
signed_told = refl
