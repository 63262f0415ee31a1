-- ===== src/Bots.antt =====
-- packages/words-bots: the poller of the subgraph that announces auctions and bids. The cache is the
-- four keys of cache.ts, numbers for the texts that Redis keeps. A tick runs to its end before the
-- next one starts, and the handlers of a tick run one after the other.
pub mod Handlers
pub mod Ticks
mod Examples
use web3_nft.Prelude.{
  ℕ, ◌+◌, ◌-◌, ◌/◌, String, Bool, ◌&&◌, Option, some, List, [], ◌∷◌, ◌++◌, str_eq, ltb,
  if◌then◌else◌, or_else,
}

pub record Bid : Type 0 where
  pub id : String
  pub amount : String
  pub bidder : String

pub record AuctionBids : Type 0 where
  pub id : ℕ
  pub end_time : ℕ
  pub bids : List Bid

-- The keys NOUNS_AUCTION_CACHE, NOUNS_BID_CACHE, NOUNS_REPLY_TWEET_ID and
-- NOUNS_AUCTION_ENDING_SOON_CACHE.
pub record Cache : Type 0 where
  pub auction : Option ℕ
  pub bid : Option String
  pub reply_tweet_id : Option String
  pub ending_soon : Option ℕ

-- What is sent out, to the social networks and to the counters.
pub data Post : Type 0 where
  auction_started : ℕ → Post
  bid_reply : ℕ → String → String → Post
  ending_soon_reply : ℕ → String → Post
  auction_message : String → ℕ → Post
  bid_message : String → ℕ → String → Post
  counter : String → Post

pub record World : Type 0 where
  pub cache : Cache
  pub posts : List Post

abbrev pub update_auction_cache : ℕ → World → World
update_auction_cache id w = record w { cache = record (w.cache) { auction = some id } }

abbrev pub get_bid_cache : World → String
get_bid_cache w = or_else w.cache.bid ""

abbrev pub update_bid_cache : String → World → World
update_bid_cache id w = record w { cache = record (w.cache) { bid = some id } }

abbrev pub get_auction_reply_tweet_id : World → Option String
get_auction_reply_tweet_id w = w.cache.reply_tweet_id

abbrev pub update_auction_reply_tweet_id : String → World → World
update_auction_reply_tweet_id id w = record w {
  cache = record (w.cache) { reply_tweet_id = some id };
}

abbrev pub get_auction_ending_soon_cache : World → ℕ
get_auction_ending_soon_cache w = or_else w.cache.ending_soon 0

abbrev pub update_auction_ending_soon_cache : ℕ → World → World
update_auction_ending_soon_cache id w = record w {
  cache = record (w.cache) { ending_soon = some id };
}

abbrev pub get_auction_cache : World → ℕ
get_auction_cache w = or_else w.cache.auction 0

abbrev pub post : Post → World → World
post p w = record w { posts = w.posts ++ p ∷ [] }

-- `incrementCounter(buildCounterName(name))`, with the prefix left out.
abbrev pub increment_counter : String → World → World
increment_counter name w = post (counter name) w

-- `IAuctionLifecycleHandler`
pub record AuctionLifecycleHandler : Type 0 where
  pub handle_new_auction : ℕ → World → World
  pub handle_new_bid : ℕ → Bid → World → World
  pub handle_auction_ending_soon : ℕ → World → World

unfoldable pub all_handlers :
    (AuctionLifecycleHandler → World → World) → List AuctionLifecycleHandler → World → World
all_handlers call [] w = w
all_handlers call (h ∷ hs) w = all_handlers call hs (call h w)

unfoldable pub check_new_auction : List AuctionLifecycleHandler → ℕ → AuctionBids → World → World
unfolding all_handlers
check_new_auction handlers cached_auction_id last w =
    if ltb cached_auction_id last.id
    then increment_counter "auction_cache_updates" (
        all_handlers (λ h. h.handle_new_auction last.id) handlers
          (update_auction_cache last.id (increment_counter "auctions_discovered" w)))
    else w

unfoldable pub check_new_bid : List AuctionLifecycleHandler → String → AuctionBids → World → World
unfolding all_handlers
check_new_bid handlers cached_bid_id last w = elim last.bids [
  | [] ↦ w
  | bid ∷ bids ↦
      if str_eq cached_bid_id bid.id
      then w
      else all_handlers (λ h. h.handle_new_bid last.id bid) handlers (update_bid_cache bid.id w)
]

-- Whether fewer than 20 minutes remain; the difference is negative after the end.
abbrev pub ends_soon : ℕ → AuctionBids → Bool
ends_soon now last = ltb last.end_time (now + 1200)

unfoldable pub check_ending_soon :
    List AuctionLifecycleHandler → ℕ → ℕ → AuctionBids → World → World
unfolding all_handlers
check_ending_soon handlers now cached_ending_soon last w =
    if ends_soon now last && ltb cached_ending_soon last.id
    then all_handlers (λ h. h.handle_auction_ending_soon last.id) handlers
        (update_auction_ending_soon_cache last.id w)
    else w

-- One tick, at the second `now`, where the subgraph's last auction is `last`.
unfoldable pub process_auction_tick : List AuctionLifecycleHandler → ℕ → AuctionBids → World → World
unfolding check_new_auction check_new_bid check_ending_soon
process_auction_tick handlers now last w =
    check_ending_soon handlers now (get_auction_ending_soon_cache w) last (
      check_new_bid handlers (get_bid_cache w) last (
        increment_counter "auction_process_last_auction"
          (check_new_auction handlers (get_auction_cache w) last w)))
